-- ===== src/Edge/H2/Stream/Content.antt =====
-- What the reader of a request body delivers.
use libcfd.Prelude.{
  [], ℕ, ◌+◌, ◌-◌, ◌≡◌, ◌≤◌, ◌<◌, refl, sym, ap, ◌∙◌, String, Bool, true, false, List, ◌∷◌, ◌++◌,
  Option, none, some, Result, ok, ltb, if◌then◌else◌, min, length, take, drop, arith, Bytes,
  append_assoc, ltb→lt, lt→ltb, subst,
}
use libcfd.Prelude.Cuts.{drop-length, is_nil, at_most, front, front_not_nil}
use libcfd.Edge.H2.Stream.{
  DataPoll, data_chunk, data_error, data_pending, Polled, ready, failed, pending,
  ReceiveStreamReader, finish_chunk, after_copy, deliver, next_data, read_held, poll_read,
}

-- The bytes that are still to be read: all of the body up to an error of the stream.
arriving : List DataPoll → Bytes
arriving [] = []
arriving (data_chunk chunk ∷ receive) = chunk ++ arriving receive
arriving (data_error e ∷ receive) = arriving receive
arriving (data_pending ∷ receive) = arriving receive

held : Option Bytes → ℕ → Bytes
held none position = []
held (some chunk) position = drop position chunk

pub content : ReceiveStreamReader → Bytes
unfolding arriving held
content r = held r.chunk r.position ++ arriving r.receive

-- A chunk is held while bytes of it are left, and the end of the body is reached after the last.
unfoldable pub IsHeld : Option Bytes → ℕ → Type 0
IsHeld none position = position ≡ 0
IsHeld (some chunk) position = position < length chunk

unfoldable pub IsReader : ReceiveStreamReader → Type 0
unfolding IsHeld
IsReader r = IsHeld r.chunk r.position × ((r.eof ≡ true) → (r.chunk ≡ none) × (r.receive ≡ []))

-- What a poll promises of the content: the bytes it answers come off the front, and no bytes mean
-- that the body is at its end.
pub Delivers : ReceiveStreamReader → Bytes → Polled Bytes → Type 0
unfolding content
Delivers r before (ready bytes) =
    (before ≡ bytes ++ content r) × ((bytes ≡ []) → content r ≡ []) × IsReader r
Delivers r before (failed e) = before ≡ content r
Delivers r before pending = (before ≡ content r) × IsReader r

module _ (release_capacity : ℕ → Result String (Unit {0}))
    (releases : (n : ℕ) → release_capacity n ≡ ok tt) where
  after_copy-Delivers :
      (b : Bool) (chunk : Bytes) (n p : ℕ) (r : ReceiveStreamReader)
      → ltb (p + n) (length chunk) ≡ b
      → 0 < n
      → p + n ≤ length chunk
      → r.eof ≡ false
      → r.position ≡ p + n
      → let d = after_copy release_capacity b chunk (take n (drop p chunk)) r in
        Delivers d.1 (drop p chunk ++ arriving r.receive) d.0
  unfolding Delivers content IsReader IsHeld held
  after_copy-Delivers true chunk n p r t h l e q = (
    ap (λ d. d ++ arriving r.receive) (front chunk p n)
        ∙ append_assoc (take n (drop p chunk)) (drop (p + n) chunk) (arriving r.receive)
        ∙ ap (λ k. take n (drop p chunk) ++ (drop k chunk ++ arriving r.receive)) (sym q),
    (λ z. absurd (front_not_nil chunk p n h l z)),
    (let m = ltb→lt (p + n) (length chunk) t in omega arith, λ z. absurd (cc (z, e))),
  )
  after_copy-Delivers false chunk n p r t h l e q =
      subst
        (λ x.
          let d = finish_chunk release_capacity (length chunk) (take n (drop p chunk)) r x in
          Delivers d.1 (drop p chunk ++ arriving r.receive) d.0)
        (sym (releases (length chunk)))
        (
          ap (λ d. d ++ arriving r.receive) (front chunk p n)
              ∙ append_assoc (take n (drop p chunk)) (drop (p + n) chunk) (arriving r.receive)
              ∙ ap (λ d. take n (drop p chunk) ++ (d ++ arriving r.receive))
                  (drop-length (p + n) chunk (not_below t)),
          (λ z. absurd (front_not_nil chunk p n h l z)),
          (refl, λ z. absurd (cc (z, e))),
        )
    where
      not_below : ltb (p + n) (length chunk) ≡ false → length chunk ≤ p + n
      not_below h = ground arith

  deliver-Delivers :
      (chunk : Bytes) (size : ℕ) (r : ReceiveStreamReader)
      → r.position < length chunk
      → 0 < size
      → r.eof ≡ false
      → let d = deliver release_capacity chunk (min (length chunk - r.position) size) r in
        Delivers d.1 (drop r.position chunk ++ arriving r.receive) d.0
  unfolding deliver
  deliver-Delivers chunk size r p h e =
      after_copy-Delivers _ chunk (min (length chunk - r.position) size) r.position _ refl
        (omega arith) (omega arith) e refl

  next_data-Delivers :
      (receive : List DataPoll) (size : ℕ) (r : ReceiveStreamReader)
      → r.position ≡ 0
      → 0 < size
      → r.eof ≡ false
      → let d = next_data release_capacity receive size r in Delivers d.1 (arriving receive) d.0
  unfolding next_data Delivers content IsReader IsHeld held arriving
  next_data-Delivers [] size r p h e = (refl, (λ z. refl), (p, λ z. (refl, refl)))
  next_data-Delivers (data_error x ∷ receive) size r p h e = refl
  next_data-Delivers (data_pending ∷ receive) size r p h e = (refl, (p, λ z. absurd (cc (z, e))))
  next_data-Delivers (data_chunk chunk ∷ receive) size r p h e =
      chosen (ltb r.position (length chunk)) refl
        (next_data-Delivers receive size (record r { position = 0 }) refl h e)
    where
      chosen :
          (b : Bool)
          → ltb r.position (length chunk) ≡ b
          → (let n = next_data release_capacity receive size (record r { position = 0 }) in
              Delivers n.1 (arriving receive) n.0)
          → let d =
              if b
              then deliver release_capacity chunk
                  (min (length chunk - r.position) size)
                  (record r { receive = receive })
              else next_data release_capacity receive size (record r { position = 0 }) in
            Delivers d.1 (chunk ++ arriving receive) d.0
      chosen true t rest =
          subst
            (λ k.
              let d =
                deliver release_capacity chunk (min (length chunk - r.position) size)
                  (record r { receive = receive }) in
              Delivers d.1 (drop k chunk ++ arriving receive) d.0)
            p
            (deliver-Delivers chunk size (record r { receive = receive })
              (ltb→lt r.position (length chunk) t) h e)
      chosen false t rest =
          subst
            (λ b.
              let n = next_data release_capacity receive size (record r { position = 0 }) in
              Delivers n.1 b n.0)
            (ap (λ c. c ++ arriving receive)
              (sym (is_nil chunk (at_most r.position (length chunk) p t))))
            rest

  -- Where `release_capacity` succeeds, a poll of a well-formed reader with room in the buffer takes
  -- the bytes that it answers off the front of what is left of the body; it answers no bytes only
  -- when nothing is left, a wait or an error loses nothing, and the reader stays well-formed unless
  -- the body failed.
  pub poll_read-Delivers :
      (size : ℕ) (r : ReceiveStreamReader)
      → IsReader r
      → 0 < size
      → let d = poll_read release_capacity size r in Delivers d.1 (content r) d.0
  unfolding poll_read read_held IsReader IsHeld held content Delivers
  poll_read-Delivers size r (i, f) h = polled r.eof refl
    where
      running :
          (c : Option Bytes)
          → r.chunk ≡ c
          → IsHeld c r.position
          → r.eof ≡ false
          → let d = read_held release_capacity c size r in
            Delivers d.1 (held c r.position ++ arriving r.receive) d.0
      running none q i e = next_data-Delivers r.receive size r i h e
      running (some chunk) q i e =
          subst
            (λ b.
              let d =
                if b
                then deliver release_capacity chunk (min (length chunk - r.position) size) r
                else next_data release_capacity r.receive size (record r { position = 0 }) in
              Delivers d.1 (drop r.position chunk ++ arriving r.receive) d.0)
            (sym (lt→ltb r.position (length chunk) i)) (deliver-Delivers chunk size r i h e)

      polled :
          (b : Bool)
          → r.eof ≡ b
          → let d = if b then (ready [], r) else read_held release_capacity r.chunk size r in
            Delivers d.1 (content r) d.0
      polled true e =
          let (n, z) = f e in
          (refl, (λ k. ap (λ c. held c r.position ++ arriving r.receive) n ∙ ap arriving z), (i, f))
      polled false e = running r.chunk refl i e
