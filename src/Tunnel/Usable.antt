-- ===== src/Tunnel/Usable.antt =====
-- What a tunnel identity that was read holds.
use libcfd.Prelude.{
  [], ◌≡◌, ◌≢◌, String, true, ◌||◌, none, inl, inr, Result, ok, err, bind-eq-ok, arith, Bytes,
  Bool-cases, Option-cases, eq_iff,
}
use libcfd.Edge.Error.{Error}
use libcfd.Tunnel.{
  Codecs, NamedTunnel, QuickTunnel, QuickTunnelResponse, named, is_empty_text, is_empty, map_err,
  credentials_error, response_error, from_token, parse_response, tunnel_identifier_bytes,
  parse_tunnel_identifier, account_tag, tunnel_secret,
}

module _ (codecs : Codecs) where
  map_err-eq-ok {ℓ} :
      {A : Type ℓ} (convert : String → Error) (r : Result String A) {a : A}
      → map_err convert r ≡ ok a
      → r ≡ ok a
  map_err-eq-ok convert (ok a) e = cc
  map_err-eq-ok convert (err x) e = cc

  -- A tunnel that a connector token is read as can register: its account tag and its secret are
  -- not empty, and its identifier is one whose sixteen bytes can be had.
  from_token-usable :
      (token : String) {t : NamedTunnel}
      → from_token codecs token ≡ ok t
      → (account_tag (named t) ≢ "")
        × (tunnel_secret (named t) ≢ [])
        × ((bytes : Bytes) × (tunnel_identifier_bytes codecs (named t) ≡ ok bytes))
  unfolding from_token account_tag tunnel_secret tunnel_identifier_bytes
  from_token-usable token {t} e =
      let (raw, e₁, l₁) =
        bind-eq-ok
          (map_err (credentials_error "token is not valid base64: ") (codecs.decode_base64 token)) _
          e in
      let (payload, e₂, l₂) =
        bind-eq-ok
          (map_err (credentials_error "token payload is not valid JSON: ") (codecs.read_token raw))
          _ l₁ in
      let (secret, e₃, l₃) =
        bind-eq-ok
          (map_err (credentials_error "token secret is not valid base64: ")
            (codecs.decode_base64 payload.secret))
          _ l₂ in
      let test = is_empty_text payload.account_tag || is_empty secret in
      elim (Bool-cases test) [
        | inl bad ↦ cc (rw bad at l₃)
        | inr good ↦
            let (bytes, e₄, l₄) =
              bind-eq-ok (parse_tunnel_identifier codecs payload.tunnel_identifier) _
                (rw good at l₃) in
            ground (arith, good, e₄, l₄, eq_iff payload.account_tag "")
      ]

  -- A quick tunnel is made only from a response that reports success and carries a result, and it
  -- has an identifier and a public hostname.
  pub parse_response-usable :
      (body : Bytes) {t : QuickTunnel}
      → parse_response codecs body ≡ ok t
      → ((response : QuickTunnelResponse) × (codecs.read_quick_response body ≡ ok response)
          × (response.success ≡ true)
          × (response.result ≢ none))
        × (t.tunnel_identifier ≢ "")
        × (t.hostname ≢ "")
  unfolding parse_response
  parse_response-usable body {t} e =
      let (response, e₁, l₁) =
        bind-eq-ok (map_err response_error (codecs.read_quick_response body)) _ e in
      let read = map_err-eq-ok response_error (codecs.read_quick_response body) e₁ in
      elim (Option-cases response.result) [
        | inl missing ↦ absurd (ground (arith, missing, l₁))
        | inr (result, there) ↦ (
          (response, read, ground (arith, there, l₁), ground (arith, there)),
          ground (arith, there, l₁, eq_iff result.identifier ""),
          ground (arith, there, l₁, eq_iff result.hostname ""),
        )
      ]
