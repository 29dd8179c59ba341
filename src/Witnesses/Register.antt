-- ===== src/Witnesses/Register.antt =====
-- The theorems on the task of an HTTP/2 control stream at concrete inputs.
use libcfd.Prelude.{
  some, subst, false, ◌≡◌, ◌≢◌, refl, [], ℕ, String, Result, true, List, ◌∷◌, ok, arith,
}
use libcfd.Rpc.Tunnel.{
  TunnelClient, details_result, bootstrap, register_connection, register_results,
}
use libcfd.Rpc.Client.{
  new, return, results, sender_hosted, bootstrap_call, bootstrap_exchange, method_call,
  call_exchange, write, write_on, read, read_on, exchange, settled, settle_bootstrap, settle_call,
  finish_with, decode_bootstrap, decode_call, bootstrap_body, bootstrap_descriptor, call_body,
  expect_return,
}
use libcfd.Edge.Control.{register_on_stream, register_tunnel, settle_registration}
use libcfd.Tunnel.{tunnel_identifier_bytes, tunnel_identifier, parse_tunnel_identifier}
use libcfd.Edge.Event.{EventUse, fires, waits, new as new_event, AreOthers, fire}
use libcfd.Edge.H2.Register.{
  H2Shared, Settles, handle_control_stream, handle_control_stream-Settles,
}
use libcfd.Edge.H2.{ServeEvent, accepted, Serving, goes_on, panicked, start, turn, accept, classify}
use libcfd.Edge.H2.Session.{
  Session, begin, idle, spawned, registered, settled as past, spawn, registration_of, Step, serves,
  registers, sends, Reaches, here, next,
}
use libcfd.Edge.H2.Session.Safe.{Reaches-IsSafe}
use libcfd.Witnesses.Edge.{codecs, process, tunnel, register_options}
use libcfd.Witnesses.Quic.{Waits, notify, stores_no_permit}

-- The edge grants the bootstrap and the registration of a remotely-managed tunnel.
client : ℕ → TunnelClient
client n =
    let granted =
      details_result (
        ok
          (record { uuid = n ∷ []; location_name = "ams01"; tunnel_is_remotely_managed = true })) in
    new [] (
      ok (return 0 (ok (results granted (sender_hosted ∷ []))))
      ∷ ok (return 1 (ok (results granted [])))
      ∷ [])

abbrev shared : H2Shared Waits
shared = record {
  tunnel = tunnel;
  registration_options = register_options;
  configuration_json = [];
  registered = new_event notify;
  control_shutdown = [];
}

-- A shutdown during the registration, and one after the wait of task 3 began.
abbrev uses : List EventUse
uses = waits 9 ∷ fires ∷ []

abbrev opened : Result String ℕ
opened = ok 4

handle_control_stream-Settles_example :
    Settles notify uses
      (new_event notify)
      (handle_control_stream notify codecs process client 3 (fires ∷ []) uses opened shared)
handle_control_stream-Settles_example =
    handle_control_stream-Settles notify stores_no_permit codecs process client 3 (fires ∷ []) uses
      opened shared (unfold AreOthers in (omega arith, tt))

abbrev control_request : ServeEvent
control_request =
    accepted 1 (record { internal_upgrade = some "control-stream"; has_tcp_src = false })

-- The edge opens the control stream, and the task registers: it has fired the event, and then it has
-- sent the result.
abbrev taken : Session Waits
taken = record (begin shared) { serving = turn control_request start; control = spawned }

abbrev told : Session Waits
told = record taken {
  control = registered;
  shared = record shared { registered = fire notify (new_event notify) };
}

abbrev answered : Session Waits
answered = record told { control = past; sent = ok tt ∷ [] }

spawns : spawn idle (turn control_request start) ≡ spawned
unfolding turn accept classify
spawns = refl

granted : registration_of codecs process client shared opened ≡ ok tt
unfolding register_on_stream register_tunnel settle_registration tunnel_identifier_bytes
    parse_tunnel_identifier tunnel_identifier bootstrap register_connection register_results client
    new bootstrap_call bootstrap_exchange method_call call_exchange write write_on read read_on
    exchange settled settle_bootstrap settle_call finish_with decode_bootstrap decode_call
    bootstrap_body bootstrap_descriptor call_body expect_return
granted = refl

reaches : Reaches notify codecs process client (begin shared) answered
reaches =
    next
      (next
        (next here (
          subst
            (λ c.
              Step notify codecs process client (begin shared)
                (record (begin shared) { serving = turn control_request start; control = c }))
            spawns (serves (begin shared) start control_request refl tt)))
        (registers taken opened refl granted))
      (sends told refl)

Reaches-IsSafe_example :
    (answered.serving ≢ panicked)
    × ((answered.control ≡ past) → answered.sent ≢ [])
    × ((answered.sent ≡ ok tt ∷ []) → answered.shared.registered.fired ≡ true)
    × ((v : Serving)
        → answered.serving ≡ goes_on v
        → v.registration_done ≡ true
        → answered.shared.registered.fired ≡ true)
Reaches-IsSafe_example = Reaches-IsSafe notify codecs process client reaches
