-- ===== src/Edge/H2.antt =====
-- src/edge/h2/mod.rs: the kinds of the edge's streams and the loop of `H2EdgeConnection::serve`. The
-- events of its `select!` come as a list; a stream and the task that serves it are a number.
pub mod Stream
pub mod Headers
pub mod Streams
pub mod Serves
pub mod Opens
pub mod Register
pub mod Session
use libcfd.Prelude.{
  [], ℕ, String, Bool, true, false, List, ◌∷◌, ◌++◌, Option, none, some, Result, ok, err,
  if◌then◌else◌, str_append, str_eq,
}
use libcfd.Edge.Error.{Error, edge, h2 as h2_error}

pub data StreamType : Type 0 where
  http websocket tcp control configuration : StreamType

-- The headers that tell the kind: the upgrade header, if it is there and is text, and whether
-- there is a TCP source.
pub record RequestHeaders : Type 0 where
  pub internal_upgrade : Option String
  pub has_tcp_src : Bool

abbrev unwrap_or_empty : Option String → String
unwrap_or_empty none = ""
unwrap_or_empty (some s) = s

unfoldable pub classify : RequestHeaders → StreamType
classify headers =
    let upgrade = unwrap_or_empty headers.internal_upgrade in
    if str_eq upgrade "update-configuration"
    then configuration
    else if str_eq upgrade "websocket"
    then websocket
    else if headers.has_tcp_src
    then tcp
    else if str_eq upgrade "control-stream"
    then control
    else http

-- What the `select!` meets. The sender of the registration may be dropped without a result, which
-- is `none`.
pub data ServeEvent : Type 0 where
  accepted : ℕ → RequestHeaders → ServeEvent
  accept_error : String → ServeEvent
  accept_end : ServeEvent
  registration : Option (Result Error (Unit {0})) → ServeEvent
  registration_timeout shutdown : ServeEvent

-- The variables of `serve`: whether `registration_tx` is still there, the stream of the control task, the streams
-- handed to `handle_stream`, those answered with status 400, and whether `control_shutdown` was
-- notified and the tasks were aborted.
pub record Serving : Type 0 where
  pub registration_tx : Bool
  pub control_task : Option ℕ
  pub registration_done : Bool
  pub stream_tasks : List ℕ
  pub rejected : List ℕ
  pub control_notified : Bool
  pub aborted : Bool

abbrev pub start : Serving
start = record {
  registration_tx = true;
  control_task = none;
  registration_done = false;
  stream_tasks = [];
  rejected = [];
  control_notified = false;
  aborted = false;
}

-- A turn of the loop goes on, returns from `serve`, leaves the loop for the drain, or panics in
-- `expect`.
pub data Turn : Type 0 where
  goes_on : Serving → Turn
  returns : Result Error (Unit {0}) → Serving → Turn
  drains : Serving → Turn
  panicked : Turn

-- `notify_waiters` and `abort_all`, with which `serve` returns.
abbrev give_up : Result Error (Unit {0}) → Serving → Turn
give_up r s = returns r (record s { control_notified = true; aborted = true })

abbrev take_sender : ℕ → Bool → Serving → Turn
take_sender id false s = panicked
take_sender id true s = goes_on (record s { registration_tx = false; control_task = some id })

abbrev accept_control : ℕ → Option ℕ → Serving → Turn
accept_control id none s = take_sender id s.registration_tx s
accept_control id (some task) s = goes_on (record s { rejected = s.rejected ++ id ∷ [] })

unfoldable pub accept : ℕ → StreamType → Serving → Turn
accept id control s = accept_control id s.control_task s
accept id http s = goes_on (record s { stream_tasks = s.stream_tasks ++ id ∷ [] })
accept id websocket s = goes_on (record s { stream_tasks = s.stream_tasks ++ id ∷ [] })
accept id tcp s = goes_on (record s { stream_tasks = s.stream_tasks ++ id ∷ [] })
accept id configuration s = goes_on (record s { stream_tasks = s.stream_tasks ++ id ∷ [] })

abbrev registered : Option (Result Error (Unit {0})) → Serving → Turn
registered none s = give_up (err (edge (h2_error "control stream ended before registration"))) s
registered (some (err e)) s = give_up (err e) s
registered (some (ok _)) s = goes_on s

-- A branch of the `select!` with a guard that does not hold is disabled.
unfoldable pub turn : ServeEvent → Serving → Turn
turn (accepted id headers) s = accept id (classify headers) s
turn (accept_error e) s = give_up (err (edge (h2_error (str_append "connection error: " e)))) s
turn accept_end s = give_up (ok tt) s
turn (registration r) s =
    if s.registration_done then goes_on s else registered r (record s { registration_done = true })
turn registration_timeout s =
    if s.registration_done
    then goes_on s
    else give_up (err (edge (h2_error "registration timed out"))) s
turn shutdown s = drains (record s { control_notified = true })

unfoldable pub after_turn : Turn → (Serving → Turn) → Turn
after_turn (goes_on s) loop = loop s
after_turn (returns r s) loop = returns r s
after_turn (drains s) loop = drains s
after_turn panicked loop = panicked

-- The loop over the events; a list that ends leaves it waiting.
unfoldable pub serve_loop : List ServeEvent → Serving → Turn
serve_loop [] s = goes_on s
serve_loop (event ∷ events) s = after_turn (turn event s) (serve_loop events)

abbrev after_drain : Turn → Turn
after_drain (drains s) = returns (ok tt) s
after_drain t = t

-- `serve`, whose drain ends with its tasks or with the grace period.
unfoldable pub serve : List ServeEvent → Turn
serve events = after_drain (serve_loop events start)
