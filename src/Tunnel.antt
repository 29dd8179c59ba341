-- ===== src/Tunnel.antt =====
-- src/tunnel: the identities of tunnels. UUIDs, base64 and JSON are read by libraries, which
-- `Codecs` stands for.
pub mod Usable
pub mod Quick
use libcfd.Prelude.{
  [], String, Bool, true, false, not, ◌||◌, List, ◌∷◌, Option, none, some, Result, ok, err, ◌>>=◌,
  if◌then◌else◌, Bytes, str_append, str_eq,
}
use text.Mathlib.Text.{starts_with}
use libcfd.Edge.Error.{
  Error, tunnel, quick_tunnel_api, quick_tunnel_response, named_tunnel_credentials,
  invalid_tunnel_identifier,
}

pub record QuickTunnel : Type 0 where
  pub tunnel_identifier : String
  pub name : String
  pub hostname : String
  pub account_tag : String
  pub secret : Bytes

pub record NamedTunnel : Type 0 where
  pub account_tag : String
  pub tunnel_secret : Bytes
  pub tunnel_identifier : String
  pub endpoint : Option String

pub data Tunnel : Type 0 where
  quick : QuickTunnel → Tunnel
  named : NamedTunnel → Tunnel

pub record TokenPayload : Type 0 where
  pub account_tag : String
  pub secret : String
  pub tunnel_identifier : String
  pub endpoint : Option String

pub record QuickTunnelResult : Type 0 where
  pub identifier : String
  pub name : String
  pub hostname : String
  pub account_tag : String
  pub secret : Bytes

-- `errors` has each error as it is formatted, the code before the message.
pub record QuickTunnelResponse : Type 0 where
  pub success : Bool
  pub result : Option QuickTunnelResult
  pub errors : List String

-- `uuid::Uuid::parse_str`, base64's standard `decode`, and serde's readings of the JSON texts.
pub record Codecs : Type 0 where
  pub parse_uuid : String → Result String Bytes
  pub decode_base64 : String → Result String Bytes
  pub read_credentials : Bytes → Result String NamedTunnel
  pub read_token : Bytes → Result String TokenPayload
  pub read_quick_response : Bytes → Result String QuickTunnelResponse

abbrev pub is_empty_text : String → Bool
is_empty_text s = str_eq s ""

abbrev pub is_empty {ℓ} : {A : Type ℓ} → List A → Bool
is_empty [] = true
is_empty (x ∷ xs) = false

abbrev pub map_err {ℓ} : {E : Type 0} {A : Type ℓ} → (E → Error) → Result E A → Result Error A
map_err convert (ok a) = ok a
map_err convert (err e) = err (convert e)

abbrev pub credentials_error : String → String → Error
credentials_error context e = tunnel (named_tunnel_credentials (str_append context e))

abbrev pub identifier_error : String → String → Error
identifier_error identifier e =
    tunnel (invalid_tunnel_identifier (str_append identifier (str_append ": " e)))

abbrev pub response_error : String → Error
response_error e = tunnel (quick_tunnel_response e)

unfoldable url : QuickTunnel → String
url t = if starts_with t.hostname "https://" then t.hostname else str_append "https://" t.hostname

unfoldable pub account_tag : Tunnel → String
account_tag (quick t) = t.account_tag
account_tag (named t) = t.account_tag

unfoldable pub tunnel_secret : Tunnel → Bytes
tunnel_secret (quick t) = t.secret
tunnel_secret (named t) = t.tunnel_secret

unfoldable pub tunnel_identifier : Tunnel → String
tunnel_identifier (quick t) = t.tunnel_identifier
tunnel_identifier (named t) = t.tunnel_identifier

unfoldable pub hostname : Tunnel → Option String
hostname (quick t) = some t.hostname
hostname (named t) = none

unfoldable region_override : Tunnel → Option String
region_override (quick t) = none
region_override (named t) = t.endpoint

module _ (codecs : Codecs) where
  unfoldable pub parse_tunnel_identifier : String → Result Error Bytes
  parse_tunnel_identifier identifier =
      map_err (identifier_error identifier) (codecs.parse_uuid identifier)

  unfoldable pub tunnel_identifier_bytes : Tunnel → Result Error Bytes
  unfolding parse_tunnel_identifier tunnel_identifier
  tunnel_identifier_bytes t = parse_tunnel_identifier (tunnel_identifier t)

  -- `from_credentials_file`, from the outcome of reading the file.
  unfoldable from_credentials_file : Result String Bytes → Result Error NamedTunnel
  from_credentials_file file = do
    bytes ← map_err (credentials_error "failed to read credentials file: ") file
    t ← map_err (credentials_error "") (codecs.read_credentials bytes)
    (if is_empty_text t.tunnel_identifier
        then err (tunnel (named_tunnel_credentials "credentials file has no TunnelID"))
        else ok t)

  unfoldable pub from_token : String → Result Error NamedTunnel
  unfolding parse_tunnel_identifier
  from_token token = do
    raw ← map_err (credentials_error "token is not valid base64: ") (codecs.decode_base64 token)
    payload ←
        map_err (credentials_error "token payload is not valid JSON: ") (codecs.read_token raw)
    secret ←
        map_err (credentials_error "token secret is not valid base64: ")
          (codecs.decode_base64 payload.secret)
    (if is_empty_text payload.account_tag || is_empty secret
        then err
            (tunnel (named_tunnel_credentials "token payload is missing the account tag or secret"))
        else (parse_tunnel_identifier payload.tunnel_identifier >>= λ _. ok (record {
          account_tag = payload.account_tag;
          tunnel_secret = secret;
          tunnel_identifier = payload.tunnel_identifier;
          endpoint = payload.endpoint;
        })))

  first_error : List String → String
  first_error [] = "unknown error"
  first_error (e ∷ es) = e

  unfoldable pub accept_result : Option QuickTunnelResult → Result Error QuickTunnel
  accept_result none = err (tunnel (quick_tunnel_response "response has no result"))
  accept_result (some result) =
      if is_empty_text result.identifier || is_empty_text result.hostname
      then err (tunnel (quick_tunnel_response "response result is missing id or hostname"))
      else ok (record {
        tunnel_identifier = result.identifier;
        name = result.name;
        hostname = result.hostname;
        account_tag = result.account_tag;
        secret = result.secret;
      })

  unfoldable pub parse_response : Bytes → Result Error QuickTunnel
  unfolding first_error accept_result
  parse_response body = map_err response_error (codecs.read_quick_response body) >>= λ response.
      if not response.success
      then err (tunnel (quick_tunnel_api (first_error response.errors)))
      else accept_result response.result
