-- ===== src/Witnesses/Edge.antt =====
-- The theorems on the connector, its configuration and its registration at concrete inputs.
use libcfd.Prelude.{
  [], ◌≡◌, ◌≤◌, refl, String, true, false, List, ◌∷◌, none, ok, err, Result, arith, Bytes,
}
use libcfd.Prelude.Int.{ℤ, pos, negsuc}
use libcfd.Edge.Error.{edge, quic, registration, is_permanent}
use libcfd.Rpc.Tunnel.{
  ConnectionError, permanent, TunnelClient, error_result, bootstrap, register_connection,
  register_results, registration_failure,
}
use libcfd.Rpc.Client.{
  new, return, results, sender_hosted, bootstrap_call, bootstrap_exchange, method_call,
  call_exchange, write, write_on, read, read_on, exchange, settled, settle_bootstrap, settle_call,
  finish_with, decode_bootstrap, decode_call, bootstrap_body, bootstrap_descriptor, call_body,
  expect_return, close,
}
use libcfd.Edge.Connector.{EdgeOptions, auto, Round, found, served, run}
use libcfd.Prelude.{◌<◌, ◌*◌, ◌^◌, min, ℕ}
use libcfd.Edge.Connector.Backoff.{retry_delay, retry_delay-bounded}
use libcfd.Edge.Connector.Fallback.{KeepsH2, run-KeepsH2}
use libcfd.Edge.Connector.Attempts.{quic_attempts, run-quic_attempts}
use libcfd.Edge.Configuration as Configuration
use libcfd.Edge.Configuration.{IngressRule, parse_remote_configuration, update_configuration}
use libcfd.Edge.Configuration.Pushes.{readable, last_version, push_all, push_all-new}
use libcfd.Edge.Control.{
  Process, RegistrationOptions, register_on_stream, registration_error, register_tunnel,
  settle_registration,
}
use libcfd.Edge.Control.Outcome.{IsFinal, IsRejectedWith, register_on_stream-permanent}
use libcfd.Tunnel.{
  Codecs, Tunnel, named, tunnel_identifier_bytes, tunnel_identifier, parse_tunnel_identifier,
}

retry_delay-bounded_example :
    ((0 < 1_000)
      → (retry_delay 3 1_000 77 < 1_000 * 2 ^ min 3 30)
        × (retry_delay 3 1_000 77 < 4_611_686_018_427_387_904))
    × (◌≡◌ {A = ℕ} 1_000 0 → retry_delay 3 1_000 77 ≡ 0)
retry_delay-bounded_example = retry_delay-bounded 3 1_000 77 (omega arith)

abbrev options : EdgeOptions
options = record { transport = auto; backoff = 1_000; grace_period = 30; maximum_quic_failures = 1 }

-- A QUIC round that fails, then a round that the edge rejects for good.
abbrev rounds : List Round
rounds =
    record {
      discovery = found (
          served
            (record {
              result = err (edge (quic "closed"));
              registered_at = none;
              quic_timed_out = false;
            })
            9
          ∷ []);
      random = 3;
      shutdown_in_sleep = false;
    }
    ∷ record {
      discovery = found (
          served
            (record {
              result = err (edge (registration (permanent "unauthorized")));
              registered_at = none;
              quic_timed_out = false;
            })
            12
          ∷ []);
      random = 3;
      shutdown_in_sleep = false;
    }
    ∷ []

run-KeepsH2_example : KeepsH2 false (run options rounds).rounds
run-KeepsH2_example = run-KeepsH2 options rounds

run-quic_attempts_example : quic_attempts (run options rounds).rounds ≤ 1
run-quic_attempts_example = run-quic_attempts options (omega arith) refl rounds

-- One rule with a hostname and one without.
abbrev rules : List IngressRule
rules =
    record { hostname = "a.example.com"; service = "http://localhost:80" }
    ∷ record { hostname = ""; service = "http_status:404" }
    ∷ []

abbrev parse_json : Bytes → Result String (List IngressRule)
parse_json [] = err "end of input"
parse_json (b ∷ bs) = ok rules

abbrev pushes : List (ℤ × Bytes)
pushes = (pos 1, 1 ∷ []) ∷ (pos 2, []) ∷ (pos 3, 1 ∷ []) ∷ []

push_all-new_example :
    let h = push_all parse_json (Configuration.new true) pushes in
    (h.applied ≡ last_version (negsuc 0) (readable parse_json pushes))
    × (h.delivered ≡ readable parse_json pushes)
push_all-new_example = push_all-new parse_json true pushes

abbrev pub codecs : Codecs
codecs = record {
  parse_uuid = λ s. ok (1 ∷ []);
  decode_base64 = λ s. ok (7 ∷ []);
  read_credentials = λ b. err "";
  read_token = λ b. err "";
  read_quick_response = λ b. err "";
}

abbrev pub process : Process
process = record { client_identifier = 1 ∷ []; version = "1"; arch = "linux_amd64" }

abbrev pub tunnel : Tunnel
tunnel = named (record {
  account_tag = "account";
  tunnel_secret = 7 ∷ [];
  tunnel_identifier = "id";
  endpoint = none;
})

abbrev rejection : ConnectionError
rejection = record { cause = "unauthorized"; retry_after = pos 0; should_retry = false }

-- The edge grants the bootstrap and rejects the registration.
client : TunnelClient
client = new [] (
    ok (return 0 (ok (results (error_result (ok rejection)) (sender_hosted ∷ []))))
    ∷ ok (return 1 (ok (results (error_result (ok rejection)) [])))
    ∷ [])

abbrev pub register_options : RegistrationOptions
register_options = record { features = []; number_previous_attempts = 0; origin_local_ip = [] }

rejected :
    (register_on_stream codecs process tunnel register_options [] client).0
    ≡ err (edge (registration (permanent "unauthorized")))
unfolding register_on_stream register_tunnel settle_registration registration_error
    registration_failure tunnel_identifier_bytes parse_tunnel_identifier tunnel_identifier bootstrap
    register_connection register_results client new bootstrap_call bootstrap_exchange method_call
    call_exchange write write_on read read_on exchange settled settle_bootstrap settle_call
    finish_with decode_bootstrap decode_call bootstrap_body bootstrap_descriptor call_body
    expect_return close
rejected = refl

register_on_stream-permanent_example :
    (x : ConnectionError) × IsRejectedWith codecs process tunnel register_options client x
    × IsFinal x
    × (edge (registration (permanent "unauthorized")) ≡ registration_error x)
unfolding is_permanent
register_on_stream-permanent_example =
    register_on_stream-permanent codecs process tunnel register_options [] client rejected refl
