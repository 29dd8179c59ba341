-- ===== src/Edge/Control.antt =====
-- src/edge/control.rs: registration of a connection on its control stream, and its end.
pub mod Outcome
use libcfd.Prelude.{
  [], ℕ, String, false, not, List, ◌∷◌, Result, ok, err, if◌then◌else◌, min, Bytes, str_eq,
}
use libcfd.Rpc.Tunnel.{
  ConnectionOptions, TunnelAuth, ConnectionError, ConnectionDetails, ConnectionResponse, error,
  details, registration_failure, TunnelClient, bootstrap, register_connection,
  unregister_connection, update_configuration,
}
use libcfd.Rpc.Client.{close}
use libcfd.Edge.Error.{Error, edge, registration, duplicate_connection, control}
use libcfd.Tunnel.{Tunnel, Codecs, tunnel_identifier_bytes, account_tag, tunnel_secret}

abbrev pub duplicate_connection_cause : String
duplicate_connection_cause = "EDUPCONN"

abbrev default_features : List String
default_features =
    "allow_remote_config" ∷ "serialized_headers" ∷ "support_datagram_v2" ∷ "support_quic_eof"
    ∷ "management_logs" ∷ []

pub record RegistrationOptions : Type 0 where
  pub features : List String
  pub number_previous_attempts : ℕ
  pub origin_local_ip : Bytes

-- The process's connector identifier, and its version and platform as the build sets them.
pub record Process : Type 0 where
  pub client_identifier : Bytes
  pub version : String
  pub arch : String

-- `..Default::default()` with the two fields that the connections set; the attempts are `min`ed
-- into a u8.
unfoldable pub registration_options : Bytes → ℕ → RegistrationOptions
registration_options origin_local_ip attempt = record {
  features = default_features;
  number_previous_attempts = min attempt 255;
  origin_local_ip = origin_local_ip;
}

unfoldable pub build_connection_options : Process → RegistrationOptions → ConnectionOptions
build_connection_options process options = record {
  client = record {
    client_identifier = process.client_identifier;
    features = options.features;
    version = process.version;
    arch = process.arch;
  };
  origin_local_ip = options.origin_local_ip;
  replace_existing = false;
  compression_quality = 0;
  number_previous_attempts = options.number_previous_attempts;
}

-- What the edge's answer to the registration makes of it.
unfoldable pub registration_error : ConnectionError → Error
registration_error e =
    if str_eq e.cause duplicate_connection_cause
    then edge (duplicate_connection e.cause)
    else edge (registration (registration_failure e))

-- A rejected client is closed, whatever comes of that; a locally-managed tunnel pushes its
-- configuration, whatever comes of that.
unfoldable pub settle_registration :
    Bytes → ConnectionResponse → TunnelClient → Result Error ConnectionDetails × TunnelClient
settle_registration configuration_json (error e) client =
    (err (registration_error e), (close client).1)
settle_registration configuration_json (details d) client = (
  ok d,
  if not d.tunnel_is_remotely_managed
      then (update_configuration configuration_json client).1
      else client,
)

module _ (codecs : Codecs) (process : Process) where
  -- From the identifier on: it is read only once the interface is there.
  unfoldable pub register_tunnel :
      Tunnel
      → RegistrationOptions
      → Bytes
      → Result Error Bytes
      → TunnelClient
      → Result Error ConnectionDetails × TunnelClient
  unfolding settle_registration
  register_tunnel tunnel options configuration_json (err e) client = (err e, client)
  register_tunnel tunnel options configuration_json (ok tunnel_identifier) client =
      let auth : TunnelAuth = record {
        account_tag = account_tag tunnel;
        tunnel_secret = tunnel_secret tunnel;
      } in
      let (response, client') =
        register_connection auth tunnel_identifier 0 (build_connection_options process options)
          client in
      elim response [
        | err e ↦ (err (edge (control e)), client')
        | ok r ↦ settle_registration configuration_json r client'
      ]

  unfoldable pub register_on_stream :
      Tunnel
      → RegistrationOptions
      → Bytes
      → TunnelClient
      → Result Error ConnectionDetails × TunnelClient
  unfolding register_tunnel
  register_on_stream tunnel options configuration_json client =
      let (booted, client') = bootstrap client in
      elim booted [
        | err e ↦ (err (edge (control e)), client')
        | ok _ ↦
            register_tunnel tunnel options configuration_json
              (tunnel_identifier_bytes codecs tunnel) client'
      ]

-- `unregister`, where the exchange ends within the grace period: its failures are only logged, and
-- the client is closed in either case.
unfoldable pub unregister : TunnelClient → TunnelClient
unfolding unregister_connection close
unregister client = (close (unregister_connection client).1).1
