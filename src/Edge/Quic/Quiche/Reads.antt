-- ===== src/Edge/Quic/Quiche/Reads.antt =====
-- What the reads of a stream deliver.
use libcfd.Prelude.{
  [], ℕ, ◌≡◌, ◌≤◌, refl, sym, ap, ◌∙◌, subst, Bool, true, false, ◌++◌, ◌||◌, Result, ok, err, Bytes,
  if◌then◌else◌, arith, length,
}
use libcfd.Edge.Quic.Quiche.{
  Connection, QuicConnection, QuicheError, done, invalid_stream_state, other,
}
use libcfd.Edge.Quic.Quiche.Stream.{
  QuicStream, poll_read, set_connection, after_first, after_second, received, unregister, register,
  register_and_retry, Polled, ready, pending, closed_error,
}

-- What quiche documents of `stream_recv`, for what a stream has still to deliver: the bytes come off
-- its front and fit the buffer, `fin` is answered at its end, and an error takes nothing.
pub record ReceivesInOrder {Q : Type 0} (quiche : Connection Q) (content : ℕ → Q → Bytes)
    : Type 0 where
  pub takes :
      (i n : ℕ) (q q' : Q) (bytes : Bytes) (fin : Bool)
      → quiche.stream_recv i n q ≡ (ok (bytes, fin), q')
      → (content i q ≡ bytes ++ content i q')
        × (length bytes ≤ n)
        × ((fin ≡ true) → content i q' ≡ [])
  pub leaves :
      (i n : ℕ) (q q' : Q) (e : QuicheError)
      → quiche.stream_recv i n q ≡ (err e, q')
      → content i q' ≡ content i q

-- A stream that has met its end has nothing left.
unfoldable pub IsAtEnd : {Q : Type 0} → (ℕ → Q → Bytes) → QuicStream → QuicConnection Q → Type 0
IsAtEnd content s c = (s.read_eof ≡ true) → content s.stream_identifier c.inner.connection ≡ []

-- What a poll promises, for what was left before.
unfoldable pub Delivers :
    {Q : Type 0}
    → (ℕ → Q → Bytes)
    → ℕ
    → Bytes
    → Polled Bytes × (QuicStream × QuicConnection Q)
    → Type 0
unfolding IsAtEnd
Delivers content size before (ready (ok bytes), (s, c)) =
    (before ≡ bytes ++ content s.stream_identifier c.inner.connection)
    × (length bytes ≤ size)
    × IsAtEnd content s c
Delivers content size before (ready (err e), (s, c)) =
    (before ≡ content s.stream_identifier c.inner.connection) × IsAtEnd content s c
Delivers content size before (pending, (s, c)) =
    (before ≡ content s.stream_identifier c.inner.connection) × (s.read_eof ≡ false)

module _ {Q : Type 0} (quiche : Connection Q) (content : ℕ → Q → Bytes)
    (laws : ReceivesInOrder quiche content) where
  received-Delivers :
      (i n : ℕ) (q q' : Q) (bytes : Bytes) (fin : Bool) (s : QuicStream) (c : QuicConnection Q)
      → quiche.stream_recv i n q ≡ (ok (bytes, fin), q')
      → s.stream_identifier ≡ i
      → s.read_eof ≡ false
      → c.inner.connection ≡ q'
      → Delivers content n (content i q) (received quiche bytes fin s c)
  unfolding received Delivers IsAtEnd
  received-Delivers i n q q' bytes fin s c h si e cq =
      let (t, l, f) = laws.takes i n q q' bytes fin h in
      (t ∙ ap (λ k. bytes ++ k) (sym (at)), l, λ x. at ∙ f (ended s.read_eof fin e x))
    where
      at : content s.stream_identifier c.inner.connection ≡ content i q'
      at = rw (si, cq)

      ended : (a b : Bool) → a ≡ false → (a || b) ≡ true → b ≡ true
      ended true b u v = absurd cc
      ended false b u v = v

  after_second-Delivers :
      (n : ℕ) (q : Q) (r : Result QuicheError (Bytes × Bool) × Q) (s : QuicStream)
      (c : QuicConnection Q)
      → quiche.stream_recv s.stream_identifier n q ≡ r
      → s.read_eof ≡ false
      → Delivers content n (content s.stream_identifier q) (after_second quiche r s c)
  unfolding after_second Delivers set_connection unregister IsAtEnd
  after_second-Delivers n q (ok (bytes, fin), q') s c h e =
      received-Delivers s.stream_identifier n q q' bytes fin s
        (unregister quiche s (set_connection quiche c q')) h refl e refl
  after_second-Delivers n q (err done, q') s c h e =
      (sym (laws.leaves s.stream_identifier n q q' done h), e)
  after_second-Delivers n q (err invalid_stream_state, q') s c h e =
      (sym (laws.leaves s.stream_identifier n q q' invalid_stream_state h), e)
  after_second-Delivers n q (err (other x), q') s c h e =
      (sym (laws.leaves s.stream_identifier n q q' (other x) h), λ z. absurd (cc (z, e)))

  -- The second `stream_recv` follows a first one that took nothing.
  retry-Delivers :
      (w n : ℕ) (q q' : Q) (e : QuicheError) (s : QuicStream) (c : QuicConnection Q)
      → quiche.stream_recv s.stream_identifier n q ≡ (err e, q')
      → s.read_eof ≡ false
      → Delivers content n
          (content s.stream_identifier q)
          (register_and_retry quiche w n s (set_connection quiche c q'))
  unfolding register_and_retry register set_connection
  retry-Delivers w n q q' e s c h f =
      subst
        (λ b. Delivers content n b (register_and_retry quiche w n s (set_connection quiche c q')))
        (laws.leaves s.stream_identifier n q q' e h)
        (after_second-Delivers n q' (quiche.stream_recv s.stream_identifier n q') s
          (register quiche s w (set_connection quiche c q')) refl f)

  after_first-Delivers :
      (w n : ℕ) (r : Result QuicheError (Bytes × Bool) × Q) (s : QuicStream) (c : QuicConnection Q)
      → quiche.stream_recv s.stream_identifier n c.inner.connection ≡ r
      → s.read_eof ≡ false
      → Delivers content n
          (content s.stream_identifier c.inner.connection)
          (after_first quiche r w n s c)
  unfolding after_first Delivers set_connection IsAtEnd
  after_first-Delivers w n (ok (bytes, fin), q') s c h e =
      received-Delivers s.stream_identifier n c.inner.connection q' bytes fin s
        (set_connection quiche c q') h refl e refl
  after_first-Delivers w n (err done, q') s c h e =
      retry-Delivers w n c.inner.connection q' done s c h e
  after_first-Delivers w n (err invalid_stream_state, q') s c h e =
      retry-Delivers w n c.inner.connection q' invalid_stream_state s c h e
  after_first-Delivers w n (err (other x), q') s c h e = (
    sym (laws.leaves s.stream_identifier n c.inner.connection q' (other x) h),
    λ z. absurd (cc (z, e)),
  )

  -- Where quiche delivers a stream in order, a poll takes the bytes that it answers off the front of
  -- what the stream has left, never more than the buffer holds; a wait or an error takes nothing,
  -- the registration of the waker and the second try included, and `read_eof` is set only when
  -- nothing is left.
  pub poll_read-in_order :
      (w size : ℕ) (s : QuicStream) (c : QuicConnection Q)
      → IsAtEnd content s c
      → Delivers content size
          (content s.stream_identifier c.inner.connection)
          (poll_read quiche w size s c)
  unfolding poll_read IsAtEnd Delivers
  poll_read-in_order w size s c a = chosen c.inner.closed s.read_eof refl
    where
      chosen :
          (b e : Bool)
          → s.read_eof ≡ e
          → Delivers content size (content s.stream_identifier c.inner.connection) (
              if b
              then (ready (err closed_error), (s, c))
              else (if e
                  then (ready (ok []), (s, c))
                  else after_first quiche
                      (quiche.stream_recv s.stream_identifier size c.inner.connection)
                      w
                      size
                      s
                      c))
      chosen true e h = (refl, a)
      chosen false true h = (refl, omega arith, a)
      chosen false false h = after_first-Delivers w size _ s c refl h
