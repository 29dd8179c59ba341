-- ===== src/Edge/Serve/Requests.antt =====
-- src/edge/serve.rs, `serve_requests`: the loop that accepts the streams of the edge and gives each to
-- a task.
use libcfd.Prelude.{
  [], ℕ, ◌≡◌, String, true, false, ◌||◌, List, ◌∷◌, ◌++◌, Option, none, some, if◌then◌else◌, ◌==◌,
}
use libcfd.Edge.Error.{Error, edge, quic}
use libcfd.Edge.Quic.Quiche.{
  Connection, QuicConnection, accept_stream, release, answered, waits, Waited,
}
use libcfd.Edge.Quic.Quiche.Wakers.{is_member}
use libcfd.Edge.Quic.Quiche.Operations.{Operation, perform}
use libcfd.Edge.Quic.Quiche.Accepted.{IsForeign}

-- The connection, with the streams of the tasks that run and those of the tasks that have panicked.
pub record Serving (Q : Type 0) : Type 0 where
  pub connection : QuicConnection Q
  pub tasks : List ℕ
  pub lost : List ℕ

-- What happens while the loop runs: the select takes the accepted stream or a task that was joined,
-- a task comes to the end of its stream or panics, or somebody works on the connection.
pub data ServeEvent : Type 0 where
  accepting joining : ServeEvent
  task_ends task_panics : ℕ → ServeEvent
  performs : Operation → ServeEvent

-- The loop returns, or it goes on.
pub data ServeTurn (Q : Type 0) : Type 0 where
  returns : Error → ServeTurn Q
  goes_on : Serving Q → ServeTurn Q

abbrev reason_or : Option String → String
reason_or (some reason) = reason
reason_or none = "connection closed"

unfoldable pub remove_first : ℕ → List ℕ → List ℕ
remove_first i [] = []
remove_first i (j ∷ tasks) = let rest = remove_first i tasks in if i == j then tasks else j ∷ rest

unfoldable pub end_task : {Q : Type 0} → ℕ → Serving Q → Serving Q
unfolding remove_first
end_task i s =
    if is_member i s.tasks
    then record s { connection = release i s.connection; tasks = remove_first i s.tasks }
    else s

-- A task that panics does not come to the release of its stream; the join of it is only logged.
unfoldable pub panic_task : {Q : Type 0} → ℕ → Serving Q → Serving Q
unfolding remove_first
panic_task i s =
    if is_member i s.tasks
    then record s { tasks = remove_first i s.tasks; lost = i ∷ s.lost }
    else s

unfoldable pub after_accept :
    {Q : Type 0} → Waited (Option ℕ) × QuicConnection Q → Serving Q → ServeTurn Q
after_accept (answered (some i), c) s = goes_on (record s { connection = c; tasks = i ∷ s.tasks })
after_accept (answered none, c) s = returns (edge (quic (reason_or c.inner.close_reason)))
after_accept (waits, c) s = goes_on (record s { connection = c })

module _ {Q : Type 0} (quiche : Connection Q) where
  unfoldable pub serve_turn : ServeEvent → Serving Q → ServeTurn Q
  unfolding after_accept end_task panic_task
  serve_turn accepting s = after_accept (accept_stream quiche s.connection) s
  serve_turn joining s = goes_on s
  serve_turn (task_ends i) s = goes_on (end_task i s)
  serve_turn (task_panics i) s = goes_on (panic_task i s)
  serve_turn (performs o) s = goes_on (record s { connection = perform quiche o s.connection })

  unfoldable pub and_serve : ServeTurn Q → (Serving Q → ServeTurn Q) → ServeTurn Q
  and_serve (returns e) loop = returns e
  and_serve (goes_on s) loop = loop s

  unfoldable pub serve_requests : List ServeEvent → Serving Q → ServeTurn Q
  unfolding serve_turn and_serve
  serve_requests [] s = goes_on s
  serve_requests (e ∷ events) s = and_serve (serve_turn e s) (serve_requests events)

-- Streams are accepted and released by the loop and its tasks alone.
unfoldable pub AreForeign : List ServeEvent → Type 0
unfolding IsForeign
AreForeign [] = Unit
AreForeign (performs o ∷ events) = IsForeign o × AreForeign events
AreForeign (e ∷ events) = AreForeign events

unfoldable pub AreDistinct : List ℕ → Type 0
AreDistinct [] = Unit
AreDistinct (i ∷ streams) = (is_member i streams ≡ false) × AreDistinct streams

-- The accepted streams that no running task serves: the control stream and those of tasks that panicked.
abbrev pub unserved : {Q : Type 0} → Serving Q → List ℕ
unserved s = s.lost ++ 0 ∷ []

-- The accepted set is the streams of the running tasks, each once, and, apart from them, the unserved.
pub record IsActive {Q : Type 0} (s : Serving Q) : Type 0 where
  pub members :
      (i : ℕ)
      → is_member i s.connection.inner.accepted ≡ (is_member i s.tasks || is_member i (unserved s))
  pub distinct : AreDistinct s.tasks
  pub apart : (i : ℕ) → is_member i s.tasks ≡ true → is_member i (unserved s) ≡ false

unfoldable pub TurnIsActive : {Q : Type 0} → ServeTurn Q → Type 0
TurnIsActive (returns e) = Unit
TurnIsActive (goes_on s) = IsActive s
