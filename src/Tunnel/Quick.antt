-- ===== src/Tunnel/Quick.antt =====
-- src/tunnel/quick: the request for a quick tunnel. The http crate, the sockets and TLS are a record
-- of functions, in which `none` is a timeout that has run out.
pub mod Response
pub mod Answered
use Prim.Native.Char.{Char, code}
use Prim.Native.String.{char_at, [] as nil, ◌∷◌ as cons}
use libcfd.Prelude.{
  [], ℕ, zero, suc, ◌/◌, ◌%◌, String, List, ◌∷◌, Option, none, some, Result, ok, err, ◌>>=◌, ◌>>◌,
  if◌then◌else◌, not, ◌==◌, ◌&&◌, leb, ltb, Bytes, str_append, str_eq,
}
use libcfd.Prelude.Text.{decimal}
use libcfd.Edge.Error.{Error, tunnel, quick_tunnel_api, quick_tunnel_response, quick_tunnel_request}
use libcfd.Tunnel.{Codecs, QuickTunnel, map_err, response_error, parse_response}
use libcfd.Tunnel.Quick.Response.{parse_http_response}

abbrev default_quick_service_url : String
default_quick_service_url = "https://api.trycloudflare.com"

-- The timeout of the options is the network's.
pub record QuickTunnelOptions : Type 0 where
  pub service_url : String

abbrev pub default_options : QuickTunnelOptions
default_options = record { service_url = default_quick_service_url }

pub record Uri : Type 0 where
  pub scheme : Option String
  pub host : Option String
  pub port : Option ℕ
  pub path : String
  pub query : Option String

-- `A` is an address, `C` a connection and `T` a TLS stream over it.
pub record Network (A C T : Type 0) : Type 0 where
  pub uri_try_from : String → Result String Uri
  pub server_name_try_from : String → Result String (Unit {0})
  pub lookup_host : String → ℕ → Result String (List A)
  pub connect : A → Option (Result String C)
  pub handshake : String → C → Option (Result String T)
  pub write_all : String → T → Result String T
  pub flush : T → Result String T
  pub read_to_end : T → Option (Result String Bytes)
  pub from_utf8_lossy : Bytes → String

abbrev unwrap_or {ℓ} : {A : Type ℓ} → A → Option A → A
unwrap_or default none = default
unwrap_or default (some a) = a

abbrev ok_or {ℓ} : {A : Type ℓ} → Error → Option A → Result Error A
ok_or e none = err e
ok_or e (some a) = ok a

abbrev pub request_error : String → Error
request_error e = tunnel (quick_tunnel_request e)

-- A call under a timeout.
abbrev pub timed {ℓ} : {A : Type ℓ} → String → Option (Result String A) → Result Error A
timed message none = err (tunnel (quick_tunnel_api message))
timed message (some r) = map_err request_error r

abbrev first {ℓ} : {A : Type ℓ} → List A → Option A
first [] = none
first (a ∷ rest) = some a

abbrev query_text : Option String → String
query_text none = ""
query_text (some q) = str_append "?" q

abbrev host_and_port : String → ℕ → String
host_and_port host port = str_append host (str_append ":" (decimal port))

abbrev header_line : String × String → String
header_line (name, value) = str_append name (str_append ": " (str_append value "\r\n"))

abbrev push_headers : String → List (String × String) → String
push_headers request [] = request
push_headers request (header ∷ headers) =
    push_headers (str_append request (header_line header)) headers

unfoldable pub build_request : String → Uri → List (String × String) → String
build_request host uri headers =
    let path = if str_eq uri.path "" then "/" else uri.path in
    let start = str_append "POST " (
      str_append path (
        str_append (query_text uri.query) (
          str_append " HTTP/1.1\r\nHost: " (
            str_append host
              "\r\nContent-Type: application/json\r\nContent-Length: 0\r\nConnection: close\r\n")))) in
    str_append (push_headers start headers) "\r\n"

unfoldable check_scheme : Option String → Result Error (Unit {0})
check_scheme scheme =
    let scheme' = unwrap_or "https" scheme in
    if not (str_eq scheme' "https")
    then err (tunnel (quick_tunnel_response (str_append "unsupported scheme " scheme')))
    else ok tt

-- `trim_end_matches('/')`.
abbrev keep_front : Char → String → String
keep_front c text = if code c == b'/' && str_eq text "" then "" else cons c text

unfoldable trim_slashes : String → String
trim_slashes nil = ""
trim_slashes (cons c text) = keep_front c (trim_slashes text)

-- The version is the build's.
unfoldable pub quick_url : QuickTunnelOptions → String
unfolding trim_slashes
quick_url options = str_append (trim_slashes options.service_url) "/tunnel"

abbrev pub quick_headers : String → List (String × String)
quick_headers version = ("user-agent", str_append "cloudflared/" version) ∷ []

module _ {A C T : Type 0} (network : Network A C T) where
  -- Up to the TLS stream, with the host and the URI.
  unfoldable pub open_stream : String → Result Error (String × Uri × T)
  unfolding check_scheme decimal
  open_stream url = do
    uri ←
        map_err (λ e. response_error (str_append "invalid api url: " e)) (network.uri_try_from url)
    check_scheme uri.scheme
    host ← ok_or (response_error "missing host") uri.host
    let port = unwrap_or 443 uri.port
    _ ←
        map_err (λ e. response_error (str_append "invalid host: " e))
          (network.server_name_try_from host)
    addresses ← map_err request_error (network.lookup_host host port)
    address ←
        ok_or (response_error (str_append "could not resolve " (host_and_port host port)))
          (first addresses)
    tcp ← timed "connection timed out" (network.connect address)
    stream ← timed "tls handshake timed out" (network.handshake host tcp)
    ok (host, uri, stream)

  -- From the request on.
  unfoldable pub exchange : String → T → Result Error Bytes
  exchange request stream = do
    written ← map_err request_error (network.write_all request stream)
    flushed ← map_err request_error (network.flush written)
    timed "response timed out" (network.read_to_end flushed)

  unfoldable pub post_empty : String → List (String × String) → Result Error (ℕ × Bytes)
  unfolding build_request
  post_empty url headers = do
    (host, uri, stream) ← open_stream url
    buffer ← exchange (build_request host uri headers) stream
    (status, _, body) ← parse_http_response buffer
    ok (status, body)

  unfoldable pub accept_response : Codecs → ℕ → Bytes → Result Error QuickTunnel
  unfolding decimal
  accept_response codecs status body =
      if leb 300 status
      then err (
          tunnel (
            quick_tunnel_api (
              str_append "service returned status "
                (str_append (decimal status) (str_append ": " (network.from_utf8_lossy body))))))
      else parse_response codecs body

  unfoldable pub create_quick_tunnel :
      Codecs → String → QuickTunnelOptions → Result Error QuickTunnel
  unfolding quick_url accept_response
  create_quick_tunnel codecs version options = do
    (status, body) ← post_empty (quick_url options) (quick_headers version)
    accept_response codecs status body
