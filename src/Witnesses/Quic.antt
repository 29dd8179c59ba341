-- ===== src/Witnesses/Quic.antt =====
-- The theorems on the QUIC connection at concrete inputs: every stream has the same bytes left, and
-- stream 4 is the readable one.
use libcfd.Prelude.{
  [], ℕ, ◌≡◌, ◌≤◌, refl, sym, subst, ◌∙◌, Bool, true, false, List, ◌∷◌, ◌++◌, none, Result, ok, err,
  Bytes, length, take, drop, length-take, take-append-drop, arith,
}
use libcfd.Prelude.{◌≢◌, ◌==◌, ◌||◌, if◌then◌else◌}
use libcfd.Edge.Event.{
  Notify, StoresNoPermit, waits, new as new_event, fire, is_fired, notified, use_event, has_fire,
  AreOthers, notified-woken,
}
use libcfd.Edge.Quic.Quiche.{
  QuicheError, done, Connection, QuicConnection, connected, accept_stream, answered, close,
}
use libcfd.Edge.Quic.Quiche.Wakers.{is_member}
use libcfd.Edge.Quic.Quiche.Stream.{
  QuicStream, new, poll_read, poll_write, ready, pending, closed_error, after_first, after_second,
  register_and_retry, set_connection, register,
}
use libcfd.Edge.Quic.Quiche.Operations.{
  Operation, reads, closes, wakes, writes, perform, perform_all,
}
use libcfd.Edge.Quic.Quiche.Wakeups.{AreOther, IsOther, WakesReader, poll_read-woken}
use libcfd.Edge.Quic.Quiche.Reads.{ReceivesInOrder, IsAtEnd, Delivers, poll_read-in_order}
use libcfd.Edge.Quic.Quiche.Closed.{IsQuiet, close-answers}
use libcfd.Edge.Quic.Quiche.Accepted.{IsForeign}
use libcfd.Edge.Serve.Requests.{
  Serving, ServeEvent, accepting, task_panics, performs, serve_turn, end_task, remove_first,
  goes_on, serve_requests, AreForeign, TurnIsActive,
}
use libcfd.Edge.Serve.Active.{serve_requests-IsActive, serve_turn-again}

abbrev is_nil : Bytes → Bool
is_nil [] = true
is_nil (b ∷ bytes) = false

abbrev receive : ℕ → ℕ → Bytes → Result QuicheError (Bytes × Bool) × Bytes
receive i n [] = (err done, [])
receive i n (b ∷ bytes) = (ok (take n (b ∷ bytes), is_nil (drop n (b ∷ bytes))), drop n (b ∷ bytes))

abbrev quiche : Connection Bytes
quiche = record {
  stream_recv = receive;
  stream_send = λ i buffer fin q. (ok (length buffer), q);
  stream_writable = λ i n q. q;
  shutdown_read = λ i q. q;
  shutdown_write = λ i q. q;
  close = λ q. q;
  readable = λ q. 4 ∷ [];
  writable = λ q. [];
  is_established = λ q. true;
  is_closed = λ q. false;
  is_timed_out = λ q. false;
  peer_error = λ q. none;
  send_ack_eliciting = λ q. q;
  send = λ q. none;
  recv = λ datagram q. q ++ datagram;
  on_timeout = λ q. q;
}

nil_is_nil : (bytes : Bytes) → is_nil bytes ≡ true → bytes ≡ []
nil_is_nil [] h = refl
nil_is_nil (b ∷ bytes) h = absurd cc

takes_in_order :
    (i n : ℕ) (q q' : Bytes) (bytes : Bytes) (fin : Bool)
    → receive i n q ≡ (ok (bytes, fin), q')
    → (q ≡ bytes ++ q') × (length bytes ≤ n) × ((fin ≡ true) → q' ≡ [])
takes_in_order i n [] q' bytes fin h = absurd cc
takes_in_order i n (b ∷ rest) q' bytes fin h =
    let front : take n (b ∷ rest) ≡ bytes = cc in
    let back : drop n (b ∷ rest) ≡ q' = cc in
    let last : is_nil (drop n (b ∷ rest)) ≡ fin = cc in
    (
      sym (take-append-drop n (b ∷ rest)) ∙ rw (front, back) refl,
      subst (λ bs. length bs ≤ n) front (omega (arith, length-take n (b ∷ rest))),
      λ e. sym back ∙ nil_is_nil (drop n (b ∷ rest)) (last ∙ e),
    )

leaves_all : (i n : ℕ) (q q' : Bytes) (e : QuicheError) → receive i n q ≡ (err e, q') → q' ≡ q
leaves_all i n [] q' e h = cc
leaves_all i n (b ∷ rest) q' e h = absurd cc

in_order : ReceivesInOrder quiche (λ i q. q)
in_order = record { takes = takes_in_order; leaves = leaves_all }

abbrev data_stream : QuicStream
data_stream = new 4

poll_read-in_order_example :
    Delivers
      (λ i q. q)
      2
      (7 ∷ 8 ∷ 9 ∷ [])
      (poll_read quiche 1 2 data_stream (connected (7 ∷ 8 ∷ 9 ∷ [])))
poll_read-in_order_example =
    poll_read-in_order quiche (λ i q. q) in_order 1 2 data_stream (connected (7 ∷ 8 ∷ 9 ∷ []))
      (unfold IsAtEnd in λ e. absurd cc)

-- The first task reads and waits, another stream is read, and a datagram has come in.
abbrev others : List Operation
others = reads 2 16 (new 8) ∷ writes 2 (5 ∷ []) (new 8) ∷ []

waits_first : (poll_read quiche 1 16 data_stream (connected [])).0 ≡ pending
unfolding poll_read after_first register_and_retry after_second set_connection register
waits_first = refl

poll_read-woken_example :
    is_member 1
      (perform quiche wakes
        (perform_all quiche others (poll_read quiche 1 16 data_stream (connected [])).1.1)).woken
    ≡ true
poll_read-woken_example =
    poll_read-woken quiche 1 16 data_stream (connected []) others wakes waits_first
      (unfold AreOther IsOther in (omega arith, (tt, tt))) (unfold WakesReader is_member in refl)

close-answers_example :
    let d = perform_all quiche others (close quiche (connected (7 ∷ []))) in
    IsQuiet d
    × ((poll_read quiche 1 16 data_stream d).0 ≡ ready (err closed_error))
    × ((poll_write quiche 1 (6 ∷ []) data_stream d).0 ≡ ready (err closed_error))
    × ((accept_stream quiche d).0 ≡ answered none)
close-answers_example = close-answers quiche others 1 16 (6 ∷ []) data_stream (connected (7 ∷ []))

-- Stream 4 is served, the connection closes, and the task panics.
abbrev stream_events : List ServeEvent
stream_events = accepting ∷ performs closes ∷ task_panics 4 ∷ []

serve_requests-IsActive_example : TurnIsActive (
    serve_requests quiche stream_events
      (record { connection = connected (7 ∷ []); tasks = []; lost = [] }))
serve_requests-IsActive_example =
    serve_requests-IsActive quiche (7 ∷ []) stream_events (unfold AreForeign IsForeign in (tt, tt))

-- The task of stream 4 ends with a byte of the request's body unread.
abbrev accepted : QuicConnection Bytes
accepted =
    let c = connected (7 ∷ []) in record c { inner = record c.inner { accepted = 4 ∷ 0 ∷ [] } }

abbrev serving : Serving Bytes
serving = record { connection = accepted; tasks = 4 ∷ []; lost = [] }

serve_turn-again_example :
    (s' : Serving Bytes) × (serve_turn quiche accepting (end_task 4 serving) ≡ goes_on s')
    × (s'.tasks ≡ 4 ∷ remove_first 4 (4 ∷ []))
serve_turn-again_example = serve_turn-again quiche 4 [] serving (unfold is_member in refl) refl refl

-- The waits that have begun, with whether each is complete.
abbrev pub Waits : Type 0
Waits = List (ℕ × Bool)

abbrev complete : Waits → Waits
complete [] = []
complete ((w, woken) ∷ begun) = (w, true) ∷ complete begun

abbrev is_complete : ℕ → Waits → Bool
is_complete w [] = true
is_complete w ((v, woken) ∷ begun) =
    let rest = is_complete w begun in if w == v then woken else rest

abbrev pub notify : Notify Waits
notify = record {
  new = [];
  notified = λ w begun. (w, false) ∷ begun;
  notify_waiters = complete;
  is_woken = is_complete;
}

complete_all : (w : ℕ) (begun : Waits) → is_complete w (complete begun) ≡ true
complete_all w [] = refl
complete_all w ((v, woken) ∷ begun) = let rest = complete_all w begun in ground (arith, rest)

pub stores_no_permit : StoresNoPermit notify
stores_no_permit = record {
  begins = λ w n. same w n;
  others = λ w v n d. other_wait w v n d;
  wakes = complete_all;
}
  where
    same : (w : ℕ) (n : Waits) → is_complete w ((w, false) ∷ n) ≡ false
    same w n = ground arith

    other_wait : (w v : ℕ) (n : Waits) → w ≢ v → is_complete w ((v, false) ∷ n) ≡ is_complete w n
    other_wait w v n d = ground arith

-- The event is fired, and then task 1 waits on it.
notified-woken_example :
    (is_complete 1
        (use_event notify
          (waits 2 ∷ [])
          (notified notify 1 (fire notify (new_event notify)))).waiters
      ≡ has_fire (waits 2 ∷ []))
    × (is_fired notify
          (use_event notify (waits 2 ∷ []) (notified notify 1 (fire notify (new_event notify))))
        ≡ (is_fired notify (fire notify (new_event notify)) || has_fire (waits 2 ∷ [])))
notified-woken_example =
    notified-woken notify stores_no_permit 1 (waits 2 ∷ []) (fire notify (new_event notify))
      (unfold AreOthers in (omega arith, tt))
