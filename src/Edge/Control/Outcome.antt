-- ===== src/Edge/Control/Outcome.antt =====
-- How a registration can end.
use libcfd.Prelude.{
  ◌≡◌, ◌≢◌, refl, sym, ap, ◌∙◌, true, false, inl, inr, Result, ok, err, Result-cases, arith, Bytes,
  eq_iff,
}
use libcfd.Rpc.Tunnel.{
  TunnelAuth, ConnectionError, ConnectionResponse, error, details, registration_failure,
  TunnelClient, bootstrap, register_connection,
}
use libcfd.Edge.Error.{Error, is_permanent}
use libcfd.Edge.Control.{
  duplicate_connection_cause, RegistrationOptions, Process, build_connection_options,
  registration_error, settle_registration, register_tunnel, register_on_stream,
}
use libcfd.Tunnel.{Tunnel, Codecs, tunnel_identifier_bytes, account_tag, tunnel_secret}

-- A rejection that a retry can only meet again: not marked for a retry, and not the duplicate
-- connection.
abbrev pub IsFinal : ConnectionError → Type 0
IsFinal x = (x.should_retry ≡ false) × (x.cause ≢ duplicate_connection_cause)

registration_error-permanent :
    (x : ConnectionError) → is_permanent (registration_error x) ≡ true → IsFinal x
unfolding registration_error registration_failure is_permanent
registration_error-permanent x h = ground (arith, eq_iff x.cause duplicate_connection_cause)

tunnel_identifier_bytes-permanent :
    (codecs : Codecs) (tunnel : Tunnel) {e : Error}
    → tunnel_identifier_bytes codecs tunnel ≡ err e
    → is_permanent e ≡ false
unfolding tunnel_identifier_bytes is_permanent
tunnel_identifier_bytes-permanent codecs tunnel h = ground arith

module _ (codecs : Codecs) (process : Process) (tunnel : Tunnel)
    (options : RegistrationOptions) where
  abbrev credentials : TunnelAuth
  credentials = record { account_tag = account_tag tunnel; tunnel_secret = tunnel_secret tunnel }

  -- The edge rejects the registration that the client sends once it is bootstrapped.
  abbrev pub IsRejectedWith : TunnelClient → ConnectionError → Type 0
  IsRejectedWith client x =
      (identifier : Bytes) × (tunnel_identifier_bytes codecs tunnel ≡ ok identifier)
      × ((register_connection credentials identifier 0 (build_connection_options process options)
            (bootstrap client).1).0
          ≡ ok (error x))

  settle_registration-err :
      (configuration_json : Bytes) (r : ConnectionResponse) (client : TunnelClient) {e : Error}
      → (settle_registration configuration_json r client).0 ≡ err e
      → (x : ConnectionError) × (r ≡ error x) × (e ≡ registration_error x)
  unfolding settle_registration
  settle_registration-err configuration_json (error x) client h = (x, refl, ground arith)
  settle_registration-err configuration_json (details d) client h = cc

  register_tunnel-permanent :
      (configuration_json : Bytes) (client : TunnelClient) (r : Result Error Bytes) {e : Error}
      → tunnel_identifier_bytes codecs tunnel ≡ r
      → (register_tunnel codecs process tunnel options configuration_json r (bootstrap client).1).0
        ≡ err e
      → is_permanent e ≡ true
      → (x : ConnectionError) × IsRejectedWith client x × IsFinal x × (e ≡ registration_error x)
  unfolding register_tunnel
  register_tunnel-permanent configuration_json client (err y) k h p =
      absurd (ground (arith, tunnel_identifier_bytes-permanent codecs tunnel k))
  register_tunnel-permanent configuration_json client (ok identifier) {e} k h p =
      let answer =
        register_connection credentials identifier 0 (build_connection_options process options)
          (bootstrap client).1 in
      elim (Result-cases answer.0) [
        | inr (y, bad) ↦ absurd (unfold is_permanent in ground (arith, bad, h, p))
        | inl (r, good) ↦
            let (x, a, b) =
              settle_registration-err configuration_json r answer.1 {e = e}
                (ground (arith, good, h)) in
            let final = registration_error-permanent x (ap is_permanent (sym b) ∙ p) in
            (x, (identifier, k, good ∙ ap ok a), final, b)
      ]

  -- A registration fails for good (so that `is_permanent` ends the run) only if the edge has
  -- answered it by a rejection that is not marked for a retry and whose cause is not the duplicate
  -- connection; the error is that rejection's. Failures of the transport or of the exchange, an
  -- unreadable identifier and duplicate connections are never permanent.
  pub register_on_stream-permanent :
      (configuration_json : Bytes) (client : TunnelClient) {e : Error}
      → (register_on_stream codecs process tunnel options configuration_json client).0 ≡ err e
      → is_permanent e ≡ true
      → (x : ConnectionError) × IsRejectedWith client x × IsFinal x × (e ≡ registration_error x)
  unfolding register_on_stream
  register_on_stream-permanent configuration_json client {e} h p =
      elim (Result-cases (bootstrap client).0) [
        | inr (y, bad) ↦ absurd (unfold is_permanent in ground (arith, bad, h, p))
        | inl (u, good) ↦
            register_tunnel-permanent configuration_json client
              (tunnel_identifier_bytes codecs tunnel) refl (ground (arith, good, h)) p
      ]
