-- ===== src/Edge/H2/Session/Linked.antt =====
-- How the loop, the channel and the control task stand to one another.
use libcfd.Prelude.{
  ℕ, ◌≡◌, ◌⊎◌, refl, sym, subst, Bool, true, false, List, [], ◌∷◌, Option, none, some, Result, ok,
  err,
}
use libcfd.Edge.Error.{Error}
use libcfd.Edge.H2.{
  ServeEvent, accepted, accept_error, accept_end, registration, registration_timeout, shutdown,
  StreamType, http, websocket, tcp, control, configuration, classify, Serving, Turn, goes_on,
  panicked, turn, accept,
}
use libcfd.Edge.H2.Session.{
  Control, idle, spawned, registered, settled, died, Session, spawn, IsOutside,
}

-- What the task has sent and fired.
abbrev pub IsSent : Control → List (Result Error (Unit {0})) → Bool → Type 0
IsSent idle sent fired = sent ≡ []
IsSent spawned sent fired = sent ≡ []
IsSent registered sent fired = (sent ≡ []) × (fired ≡ true)
IsSent died sent fired = sent ≡ []
IsSent settled sent fired =
    ((sent ≡ ok tt ∷ []) × (fired ≡ true)) ⊎ ((e : Error) × (sent ≡ err e ∷ []))

-- The sender is with the task, and no result has come.
abbrev pub IsWaiting : Turn → Type 0
IsWaiting (goes_on v) =
    (v.registration_tx ≡ false)
    × ((id : ℕ) × (v.control_task ≡ some id))
    × (v.registration_done ≡ false)
IsWaiting panicked = ⊥
IsWaiting _ = Unit

-- The loop holds the sender until it spawns the task, and it goes on after the registration only where
-- that has succeeded.
abbrev pub IsLinked : Control → Bool → Turn → Type 0
IsLinked idle fired (goes_on v) =
    (v.registration_tx ≡ true) × (v.control_task ≡ none) × (v.registration_done ≡ false)
IsLinked idle fired panicked = ⊥
IsLinked idle fired _ = Unit
IsLinked spawned fired t = IsWaiting t
IsLinked registered fired t = IsWaiting t
IsLinked died fired t = IsWaiting t
IsLinked settled fired (goes_on v) =
    (v.registration_tx ≡ false)
    × ((id : ℕ) × (v.control_task ≡ some id))
    × ((v.registration_done ≡ true) → fired ≡ true)
IsLinked settled fired panicked = ⊥
IsLinked settled fired _ = Unit

pub record IsConsistent {N : Type 0} (s : Session N) : Type 0 where
  pub sends : IsSent s.control s.sent s.shared.registered.fired
  pub linked : IsLinked s.control s.shared.registered.fired s.serving

-- A loop whose sender and task are known.
abbrev holding : Bool → Option ℕ → Bool → Serving → Serving
holding tx task done v = record v {
  registration_tx = tx;
  control_task = task;
  registration_done = done;
}

holding_lem :
    {tx done : Bool} {task : Option ℕ} (v : Serving)
    → v.registration_tx ≡ tx
    → v.control_task ≡ task
    → v.registration_done ≡ done
    → holding tx task done v ≡ v
holding_lem v p q r = λ i. holding (sym p i) (sym q i) (sym r i) v

-- A turn that keeps the link.
abbrev Keeps : Control → Bool → (Serving → Turn) → Serving → Type 0
Keeps c fired step v = IsLinked (spawn c (step v)) fired (step v)

accept-idle :
    (fired : Bool) (v : Serving) (id : ℕ) (kind : StreamType)
    → Keeps idle fired (accept id kind) (holding true none false v)
unfolding accept
accept-idle fired v id control = (refl, (id, refl), refl)
accept-idle fired v id http = (refl, refl, refl)
accept-idle fired v id websocket = (refl, refl, refl)
accept-idle fired v id tcp = (refl, refl, refl)
accept-idle fired v id configuration = (refl, refl, refl)

accept-spawned :
    (fired : Bool) (v : Serving) (id task : ℕ) (kind : StreamType)
    → Keeps spawned fired (accept id kind) (holding false (some task) false v)
unfolding accept
accept-spawned fired v id task control = (refl, (task, refl), refl)
accept-spawned fired v id task http = (refl, (task, refl), refl)
accept-spawned fired v id task websocket = (refl, (task, refl), refl)
accept-spawned fired v id task tcp = (refl, (task, refl), refl)
accept-spawned fired v id task configuration = (refl, (task, refl), refl)

accept-settled :
    (fired done : Bool) (v : Serving) (id task : ℕ) (kind : StreamType)
    → ((done ≡ true) → fired ≡ true)
    → Keeps settled fired (accept id kind) (holding false (some task) done v)
unfolding accept
accept-settled fired done v id task control f = (refl, (task, refl), f)
accept-settled fired done v id task http f = (refl, (task, refl), f)
accept-settled fired done v id task websocket f = (refl, (task, refl), f)
accept-settled fired done v id task tcp f = (refl, (task, refl), f)
accept-settled fired done v id task configuration f = (refl, (task, refl), f)

timeout-settled :
    (fired done : Bool) (v : Serving) (task : ℕ)
    → ((done ≡ true) → fired ≡ true)
    → Keeps settled fired (turn registration_timeout) (holding false (some task) done v)
unfolding turn
timeout-settled fired true v task f = (refl, (task, refl), f)
timeout-settled fired false v task f = tt

event-IsLinked :
    (c : Control) (fired : Bool) (step : Serving → Turn) (v : Serving)
    → IsLinked c fired (goes_on v)
    → ((w : Serving) → Keeps idle fired step (holding true none false w))
    → ((w : Serving) (task : ℕ) → Keeps spawned fired step (holding false (some task) false w))
    → ((w : Serving) (task : ℕ) (done : Bool)
        → ((done ≡ true) → fired ≡ true)
        → Keeps settled fired step (holding false (some task) done w))
    → Keeps c fired step v
event-IsLinked idle fired step v (tx, n, d) i p s =
    subst (Keeps idle fired step) (holding_lem v tx n d) (i v)
event-IsLinked spawned fired step v (tx, (task, e), d) i p s =
    subst (Keeps spawned fired step) (holding_lem v tx e d) (p v task)
event-IsLinked registered fired step v (tx, (task, e), d) i p s =
    subst (Keeps registered fired step) (holding_lem v tx e d) (p v task)
event-IsLinked died fired step v (tx, (task, e), d) i p s =
    subst (Keeps died fired step) (holding_lem v tx e d) (p v task)
event-IsLinked settled fired step v (tx, (task, e), f) i p s =
    subst (Keeps settled fired step) (holding_lem v tx e refl) (s v task v.registration_done f)

pub turn-IsLinked :
    (c : Control) (fired : Bool) (v : Serving) (event : ServeEvent)
    → IsOutside event
    → IsLinked c fired (goes_on v)
    → Keeps c fired (turn event) v
unfolding turn
turn-IsLinked c fired v (accepted id headers) o l =
    let kind = classify headers in
    event-IsLinked c fired (accept id kind) v l (λ w. accept-idle fired w id kind)
      (λ w task. accept-spawned fired w id task kind)
      (λ w task done f. accept-settled fired done w id task kind f)
turn-IsLinked c fired v (accept_error e) o l =
    event-IsLinked c fired (turn (accept_error e)) v l (λ w. tt) (λ w task. tt)
      (λ w task done f. tt)
turn-IsLinked c fired v accept_end o l =
    event-IsLinked c fired (turn accept_end) v l (λ w. tt) (λ w task. tt) (λ w task done f. tt)
turn-IsLinked c fired v (registration r) o l = absurd o
turn-IsLinked c fired v registration_timeout o l =
    event-IsLinked c fired (turn registration_timeout) v l (λ w. tt) (λ w task. tt)
      (λ w task done f. timeout-settled fired done w task f)
turn-IsLinked c fired v shutdown o l =
    event-IsLinked c fired (turn shutdown) v l (λ w. tt) (λ w task. tt) (λ w task done f. tt)
