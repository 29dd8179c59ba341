-- ===== src/Edge/Quic/Quiche/Closed.antt =====
-- What is left to the tasks once the connection is closed.
use libcfd.Prelude.{[], ℕ, ◌≡◌, refl, ◌∙◌, Bool, true, false, List, ◌∷◌, none, err, Bytes, arith}
use libcfd.Edge.Quic.Quiche.{
  Connection, Inner, QuicConnection, answered, wake_all, accept_stream, release, close,
}
use libcfd.Edge.Quic.Quiche.Wakers.{WakerMap, lookup, remove, taken, remove_each}
use libcfd.Edge.Quic.Quiche.Stream.{
  QuicStream, poll_read, poll_write, finish, cancel_write, stop_read, set_connection, closed_error,
  ready, closed_error,
}
use libcfd.Edge.Quic.Quiche.Drive.{wake_streams, note_closed}
use libcfd.Edge.Quic.Quiche.Operations.{
  Operation, reads, writes, finishes, cancels, stops, accepts, releases, closes, keeps_alive,
  flushes, selects, wakes, wakes_all, perform, perform_all,
}

-- The connection is closed and nobody waits on it.
unfoldable pub IsQuiet : {Q : Type 0} → QuicConnection Q → Type 0
IsQuiet c = (c.inner.closed ≡ true) × (c.inner.read_wakers ≡ []) × (c.inner.write_wakers ≡ [])

module _ {Q : Type 0} (quiche : Connection Q) where
  remove_each-nil : (streams : List ℕ) → remove_each streams [] ≡ ([], [])
  unfolding remove_each remove lookup taken
  remove_each-nil [] = refl
  remove_each-nil (i ∷ streams) = rw (remove_each-nil streams)

  remove_each-quiet : (streams : List ℕ) (m : WakerMap) → m ≡ [] → (remove_each streams m).1 ≡ []
  remove_each-quiet streams m e = rw (e, remove_each-nil streams)

  remove-quiet : (i : ℕ) (m : WakerMap) → m ≡ [] → remove i m ≡ []
  unfolding remove
  remove-quiet i m e = rw e

  note_closed-IsQuiet :
      (b : Bool) (g : Inner Q)
      → g.closed ≡ true
      → ((note_closed quiche b g).closed ≡ true)
        × ((note_closed quiche b g).read_wakers ≡ g.read_wakers)
        × ((note_closed quiche b g).write_wakers ≡ g.write_wakers)
  unfolding note_closed
  note_closed-IsQuiet true g h = (refl, refl, refl)
  note_closed-IsQuiet false g h = (h, refl, refl)

  wake_streams-IsQuiet : (c : QuicConnection Q) → IsQuiet c → IsQuiet (wake_streams quiche c)
  unfolding IsQuiet wake_streams
  wake_streams-IsQuiet c (h, r, w) =
      let (a, b, d) = note_closed-IsQuiet (quiche.is_closed c.inner.connection) _ h in
      (a, b ∙ remove_each-quiet (quiche.readable c.inner.connection) c.inner.read_wakers r, d)

  perform-IsQuiet :
      (o : Operation) (c : QuicConnection Q) → IsQuiet c → IsQuiet (perform quiche o c)
  unfolding perform IsQuiet
  perform-IsQuiet (reads v size s) c (h, r, w) = unfold poll_read in ground arith
  perform-IsQuiet (writes v buffer s) c (h, r, w) = unfold poll_write in ground arith
  perform-IsQuiet (finishes s) c (h, r, w) = unfold finish in ground arith
  perform-IsQuiet (cancels s) c (h, r, w) = unfold cancel_write in ground arith
  perform-IsQuiet (stops s) c (h, r, w) = unfold stop_read in ground arith
  perform-IsQuiet accepts c (h, r, w) = unfold accept_stream in ground arith
  perform-IsQuiet (releases j) c (h, r, w) = unfold release in (h, r, w)
  perform-IsQuiet closes c q = unfold close wake_all in (refl, refl, refl)
  perform-IsQuiet (keeps_alive due) c (h, r, w) = unfold set_connection in (h, r, w)
  perform-IsQuiet (flushes socket) c (h, r, w) = unfold set_connection in (h, r, w)
  perform-IsQuiet (selects selected) c (h, r, w) = unfold set_connection in (h, r, w)
  perform-IsQuiet wakes c q = wake_streams-IsQuiet c q
  perform-IsQuiet (wakes_all sequence) c (h, r, w) = unfold wake_all in (h, refl, refl)

  perform_all-IsQuiet :
      (operations : List Operation) (c : QuicConnection Q)
      → IsQuiet c
      → IsQuiet (perform_all quiche operations c)
  unfolding perform_all
  perform_all-IsQuiet [] c q = q
  perform_all-IsQuiet (o ∷ operations) c q =
      perform_all-IsQuiet operations (perform quiche o c) (perform-IsQuiet o c q)

  quiet-answers :
      (w size : ℕ) (buffer : Bytes) (s : QuicStream) (c : QuicConnection Q)
      → c.inner.closed ≡ true
      → ((poll_read quiche w size s c).0 ≡ ready (err closed_error))
        × ((poll_write quiche w buffer s c).0 ≡ ready (err closed_error))
        × ((accept_stream quiche c).0 ≡ answered none)
  unfolding poll_read poll_write accept_stream
  quiet-answers w size buffer s c h = (rw h, rw h, rw h)

  close-IsQuiet : (c : QuicConnection Q) → IsQuiet (close quiche c)
  unfolding IsQuiet close wake_all
  close-IsQuiet c = (refl, refl, refl)

  is_closed : (c : QuicConnection Q) → IsQuiet c → c.inner.closed ≡ true
  unfolding IsQuiet
  is_closed c (h, r, w) = h

  -- Once the connection is closed, whatever its tasks do in whatever order, it stays closed and no
  -- waker is registered again: every read and every write fails at once with a reset, and the loop
  -- that accepts streams ends.
  pub close-answers :
      (operations : List Operation) (w size : ℕ) (buffer : Bytes) (s : QuicStream)
      (c : QuicConnection Q)
      → let d = perform_all quiche operations (close quiche c) in
        IsQuiet d
        × ((poll_read quiche w size s d).0 ≡ ready (err closed_error))
        × ((poll_write quiche w buffer s d).0 ≡ ready (err closed_error))
        × ((accept_stream quiche d).0 ≡ answered none)
  close-answers operations w size buffer s c =
      let q = perform_all-IsQuiet operations (close quiche c) (close-IsQuiet c) in
      let (reads_fail, writes_fail, ends) =
        quiet-answers w size buffer s (perform_all quiche operations (close quiche c))
          (is_closed _ q) in
      (q, reads_fail, writes_fail, ends)
