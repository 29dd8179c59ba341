-- ===== src/Tunnel/Quick/Answered.antt =====
-- What a quick tunnel that was created comes from.
use libcfd.Prelude.{
  ◌≡◌, ◌≢◌, ◌<◌, ℕ, String, List, Option, none, some, inl, inr, Result, ok, err, bind-eq-ok, arith,
  Bytes, Bool-cases, leb,
}
use libcfd.Prelude.Text.{Text}
use libcfd.Tunnel.{Codecs, QuickTunnel, map_err, parse_response}
use libcfd.Tunnel.Usable.{parse_response-usable}
use libcfd.Tunnel.Quick.{
  QuickTunnelOptions, Uri, Network, request_error, timed, build_request, quick_url, quick_headers,
  open_stream, exchange, post_empty, accept_response, create_quick_tunnel,
}
use libcfd.Tunnel.Quick.Response.{parse_http_response}

module _ {A C T : Type 0} (network : Network A C T) (codecs : Codecs) where
  -- The exchange in which a body of an answer with a status came.
  pub record Answered (url : String) (headers : List (String × String)) (status : ℕ) (body : Bytes)
      : Type 0 where
    pub host : String
    pub uri : Uri
    pub stream : T
    pub written : T
    pub flushed : T
    pub buffer : Bytes
    pub fields : List (Text × Text)
    pub opened : open_stream network url ≡ ok (host, uri, stream)
    pub sends : network.write_all (build_request host uri headers) stream ≡ ok written
    pub flushes : network.flush written ≡ ok flushed
    pub reads : network.read_to_end flushed ≡ some (ok buffer)
    pub parses : parse_http_response buffer ≡ ok (status, fields, body)

  request_ok :
      {B : Type 0} (r : Result String B) {b : B} → map_err request_error r ≡ ok b → r ≡ ok b
  request_ok (ok b) e = cc
  request_ok (err x) e = cc

  timed_ok :
      {B : Type 0} (message : String) (r : Option (Result String B)) {b : B}
      → timed message r ≡ ok b
      → r ≡ some (ok b)
  timed_ok message none e = cc
  timed_ok message (some (ok b)) e = cc
  timed_ok message (some (err x)) e = cc

  post_empty-Answered :
      (url : String) (headers : List (String × String)) {status : ℕ} {body : Bytes}
      → post_empty network url headers ≡ ok (status, body)
      → Answered url headers status body
  unfolding post_empty exchange
  post_empty-Answered url headers {status} {body} e =
      let ((host, uri, stream), opened, e₁) = bind-eq-ok (open_stream network url) _ e in
      let request = build_request host uri headers in
      let (buffer, exchanged, e₂) = bind-eq-ok (exchange network request stream) _ e₁ in
      let ((status', fields, body'), parses, e₃) = bind-eq-ok (parse_http_response buffer) _ e₂ in
      let (written, sends, e₄) =
        bind-eq-ok (map_err request_error (network.write_all request stream)) _ exchanged in
      let (flushed, flushes, e₅) =
        bind-eq-ok (map_err request_error (network.flush written)) _ e₄ in
      record {
        host = host;
        uri = uri;
        stream = stream;
        written = written;
        flushed = flushed;
        buffer = buffer;
        fields = fields;
        opened = opened;
        sends = request_ok (network.write_all request stream) sends;
        flushes = request_ok (network.flush written) flushes;
        reads = timed_ok "response timed out" (network.read_to_end flushed) e₅;
        parses = cc;
      }

  accept_response-ok :
      (status : ℕ) (body : Bytes) {t : QuickTunnel}
      → accept_response network codecs status body ≡ ok t
      → (status < 300) × (parse_response codecs body ≡ ok t)
  unfolding accept_response
  accept_response-ok status body e = elim (Bool-cases (leb 300 status)) [
    | inl bad ↦ cc (rw bad at e)
    | inr good ↦ (ground arith, rw good at e)
  ]

  -- A quick tunnel that is created comes from an exchange in which the whole request was sent: from
  -- the body of an answer with a status below 300 that was read to its end. It has an identifier and
  -- a hostname.
  pub create_quick_tunnel-Answered :
      (version : String) (options : QuickTunnelOptions) {t : QuickTunnel}
      → create_quick_tunnel network codecs version options ≡ ok t
      → ((status : ℕ) × (body : Bytes) × Answered
            (quick_url options)
            (quick_headers version)
            status
            body
          × (status < 300)
          × (parse_response codecs body ≡ ok t))
        × (t.tunnel_identifier ≢ "")
        × (t.hostname ≢ "")
  unfolding create_quick_tunnel
  create_quick_tunnel-Answered version options e =
      let ((status, body), posted, e₁) =
        bind-eq-ok (post_empty network (quick_url options) (quick_headers version)) _ e in
      let (good, parsed) = accept_response-ok status body e₁ in
      let (_, named, hosted) = parse_response-usable codecs body parsed in
      (
        (
          status,
          body,
          post_empty-Answered (quick_url options) (quick_headers version) posted,
          good,
          parsed,
        ),
        named,
        hosted,
      )
