-- ===== src/Edge/H2/Session.antt =====
-- src/edge/h2: the loop of `serve` and the task of the control stream, with the channel between them, as
-- steps that come in any order.
pub mod Linked
pub mod Safe
use libcfd.Prelude.{
  ℕ, ◌≡◌, String, Bool, true, false, List, [], ◌∷◌, Option, none, some, Result, ok, err, Bytes,
  if◌then◌else◌, ◌⊎◌, str_append,
}
use libcfd.Edge.Error.{Error, edge, h2}
use libcfd.Edge.Event.{Notify, fire}
use libcfd.Edge.Control.{Process, register_on_stream}
use libcfd.Edge.H2.{
  ServeEvent, accepted, accept_error, accept_end, registration, registration_timeout, shutdown,
  RequestHeaders, Serving, Turn, goes_on, start, turn,
}
use libcfd.Edge.H2.Register.{H2Shared}
use libcfd.Rpc.Tunnel.{TunnelClient, ConnectionDetails}
use libcfd.Tunnel.{Codecs}

-- The control task: not there yet, spawned, past the fire of its registration, past the send of its
-- result, or dead (it has panicked or was aborted) before that.
pub data Control : Type 0 where
  idle spawned registered settled died : Control

-- `sent` is what the channel of the registration has been given.
pub record Session (N : Type 0) : Type 0 where
  pub serving : Turn
  pub control : Control
  pub sent : List (Result Error (Unit {0}))
  pub shared : H2Shared N

abbrev pub begin : {N : Type 0} → H2Shared N → Session N
begin shared = record { serving = goes_on start; control = idle; sent = []; shared = shared }

-- The turn that takes the sender spawns the task.
abbrev pub spawn : Control → Turn → Control
spawn idle (goes_on v) = if v.registration_tx then idle else spawned
spawn idle _ = idle
spawn spawned t = spawned
spawn registered t = registered
spawn settled t = settled
spawn died t = died

-- An event that does not come from the channel.
abbrev pub IsOutside : ServeEvent → Type 0
IsOutside (registration r) = ⊥
IsOutside _ = Unit

abbrev pub without_client : Result Error ConnectionDetails → Result Error (Unit {0})
without_client (ok details) = ok tt
without_client (err e) = err e

-- What the registration comes to: the response that opens the stream, then the exchange over it.
abbrev pub registration_of :
    {N S : Type 0}
    → Codecs
    → Process
    → (S → TunnelClient)
    → H2Shared N
    → Result String S
    → Result Error (Unit {0})
registration_of codecs process new_client shared (err e) =
    err (edge (h2 (str_append "control stream response failed: " e)))
registration_of codecs process new_client shared (ok send) =
    without_client
      (register_on_stream codecs process shared.tunnel shared.registration_options
        shared.configuration_json (new_client send)).0

module _ {N S : Type 0} (notify : Notify N) (codecs : Codecs) (process : Process)
    (new_client : S → TunnelClient) where
  pub data Step : Session N → Session N → Type 0 where
    serves :
        (s : Session N) (v : Serving) (event : ServeEvent)
        → s.serving ≡ goes_on v
        → IsOutside event
        → Step s (record s { serving = turn event v; control = spawn s.control (turn event v) })
    -- Others notify `control_shutdown` or wait on it.
    notifies :
        (s : Session N) (n : N)
        → Step s (record s { shared = record s.shared { control_shutdown = n } })
    -- The registration of the task fails, and the task sends that.
    fails :
        (s : Session N) (opened : Result String S) (e : Error)
        → s.control ≡ spawned
        → registration_of codecs process new_client s.shared opened ≡ err e
        → Step s (record s { control = settled; sent = err e ∷ [] })
    -- The registration succeeds: the task fires the event, and then it sends the result.
    registers :
        (s : Session N) (opened : Result String S)
        → s.control ≡ spawned
        → registration_of codecs process new_client s.shared opened ≡ ok tt
        → Step s (record s {
          control = registered;
          shared = record s.shared { registered = fire notify s.shared.registered };
        })
    sends :
        (s : Session N)
        → s.control ≡ registered
        → Step s (record s { control = settled; sent = ok tt ∷ [] })
    -- The task dies before it has sent a result.
    dies :
        (s : Session N)
        → (s.control ≡ spawned) ⊎ (s.control ≡ registered)
        → Step s (record s { control = died })
    receives :
        (s : Session N) (v : Serving) (r : Result Error (Unit {0}))
        → s.serving ≡ goes_on v
        → s.sent ≡ r ∷ []
        → Step s (record s { serving = turn (registration (some r)) v })
    -- The channel is closed where the task is gone and has sent nothing.
    loses :
        (s : Session N) (v : Serving)
        → s.serving ≡ goes_on v
        → (s.control ≡ settled) ⊎ (s.control ≡ died)
        → s.sent ≡ []
        → Step s (record s { serving = turn (registration none) v })

  pub data Reaches (s : Session N) : Session N → Type 0 where
    here : Reaches s s
    next : {t u : Session N} → Reaches s t → Step t u → Reaches s u
