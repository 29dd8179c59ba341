-- ===== src/Edge/H2/Serves.antt =====
-- What `H2EdgeConnection::serve` keeps through its loop.
use libcfd.Prelude.{
  [], ℕ, ◌≡◌, refl, Bool, true, false, List, ◌∷◌, Option, none, some, Result, ok, err,
  if◌then◌else◌, arith,
}
use libcfd.Edge.Error.{Error}
use libcfd.Edge.H2.{
  StreamType, http, websocket, tcp, control, configuration, classify, ServeEvent, accepted,
  accept_error, accept_end, registration, registration_timeout, shutdown, registered, give_up,
  Serving, start, Turn, goes_on, returns, drains, panicked, accept, turn, after_turn, serve_loop,
  after_drain, serve,
}

-- While the loop runs: the sender is there until there is a control task, nobody is notified, and
-- no stream is rejected before the control task.
unfoldable pub IsServing : Serving → Type 0
IsServing s =
    (s.control_notified ≡ false)
    × ((s.control_task ≡ none) → (s.registration_tx ≡ true) × (s.rejected ≡ []))

-- What a turn leaves: control is notified just when the loop is over, and nothing panics.
pub TurnServes : Turn → Type 0
unfolding IsServing
TurnServes (goes_on s) = IsServing s
TurnServes (returns r s) = s.control_notified ≡ true
TurnServes (drains s) = s.control_notified ≡ true
TurnServes panicked = ⊥

accept_control-TurnServes : (id : ℕ) (s : Serving) → IsServing s → TurnServes (accept id control s)
unfolding accept TurnServes IsServing
accept_control-TurnServes id s (n, h) = ground (arith, h)

accept-TurnServes :
    (id : ℕ) (t : StreamType) (s : Serving) → IsServing s → TurnServes (accept id t s)
unfolding accept TurnServes IsServing
accept-TurnServes id control s i = accept_control-TurnServes id s i
accept-TurnServes id http s i = i
accept-TurnServes id websocket s i = i
accept-TurnServes id tcp s i = i
accept-TurnServes id configuration s i = i

registered-TurnServes :
    (b : Bool) (r : Option (Result Error (Unit {0}))) (s : Serving)
    → IsServing s
    → TurnServes (if b then goes_on s else registered r (record s { registration_done = true }))
unfolding TurnServes IsServing
registered-TurnServes true r s i = i
registered-TurnServes false none s i = refl
registered-TurnServes false (some (ok u)) s i = i
registered-TurnServes false (some (err e)) s i = refl

timeout-TurnServes :
    (b : Bool) (r : Result Error (Unit {0})) (s : Serving)
    → IsServing s
    → TurnServes (if b then goes_on s else give_up r s)
unfolding TurnServes IsServing
timeout-TurnServes true r s i = i
timeout-TurnServes false r s i = refl

turn-TurnServes : (e : ServeEvent) (s : Serving) → IsServing s → TurnServes (turn e s)
unfolding turn TurnServes IsServing
turn-TurnServes (accepted id headers) s i = accept-TurnServes id (classify headers) s i
turn-TurnServes (accept_error e) s i = refl
turn-TurnServes accept_end s i = refl
turn-TurnServes (registration r) s i = registered-TurnServes s.registration_done r s i
turn-TurnServes registration_timeout s i = timeout-TurnServes s.registration_done _ s i
turn-TurnServes shutdown s i = refl

after_turn-TurnServes :
    (t : Turn) (loop : Serving → Turn)
    → TurnServes t
    → ((s : Serving) → IsServing s → TurnServes (loop s))
    → TurnServes (after_turn t loop)
unfolding after_turn TurnServes
after_turn-TurnServes (goes_on s) loop i h = h s i
after_turn-TurnServes (returns r s) loop i h = i
after_turn-TurnServes (drains s) loop i h = i
after_turn-TurnServes panicked loop i h = elim i [ ]

serve_loop-TurnServes :
    (events : List ServeEvent) (s : Serving) → IsServing s → TurnServes (serve_loop events s)
unfolding serve_loop TurnServes
serve_loop-TurnServes [] s i = i
serve_loop-TurnServes (e ∷ events) s i =
    after_turn-TurnServes (turn e s) (serve_loop events) (turn-TurnServes e s i)
      (serve_loop-TurnServes events)

after_drain-TurnServes : (t : Turn) → TurnServes t → TurnServes (after_drain t)
unfolding TurnServes
after_drain-TurnServes (goes_on s) h = h
after_drain-TurnServes (returns r s) h = h
after_drain-TurnServes (drains s) h = h
after_drain-TurnServes panicked h = elim h [ ]

-- Whatever happens on a connection, `serve` never panics on the registration sender, and it has
-- notified the control task when it returns, and not before.
pub serve-TurnServes : (events : List ServeEvent) → TurnServes (serve events)
unfolding serve IsServing
serve-TurnServes events =
    after_drain-TurnServes (serve_loop events start)
      (serve_loop-TurnServes events start (refl, λ z. (refl, refl)))
