-- ===== src/Origin.antt =====
-- src/origin/: the handlers of the requests and what carries their bytes.
pub mod Body
pub mod Axum
pub mod Pump
use libcfd.Prelude.{
  [], ℕ, String, Bool, true, false, List, ◌∷◌, ◌++◌, Option, none, some, Result, ok, err,
  str_append,
}
use libcfd.Origin.Body.{Body as RequestBody, empty}

-- The http crate: its checked texts, and its header map, of a type `H`. A value that is no text reads
-- as `none` where it is found.
pub record HttpCrate (H : Type 0) : Type 0 where
  pub method_from_bytes : String → Option String
  pub header_name_from_bytes : String → Option String
  pub header_value_from_str : String → Option String
  pub uri_try_from : String → Result String String
  pub empty_headers : H
  pub insert : String → String → H → H
  pub append : String → String → H → H
  pub remove : String → H → H
  pub get : String → H → Option (Option String)
  pub iter : H → List (String × Option String)

-- `R` is the type of readers behind a body.
pub record Request (H R : Type 0) : Type 0 where
  pub method : String
  pub uri : String
  pub headers : H
  pub body : RequestBody R

pub record Response (H R : Type 0) : Type 0 where
  pub status : ℕ
  pub headers : H
  pub body : RequestBody R

-- `S` is the type of the origin's byte streams.
pub record WebSocketConnection (H R S : Type 0) : Type 0 where
  pub response : Response H R
  pub origin : S

-- A handler answers through its responder: what it sent, or `none` if it dropped it.
abbrev pub Handler : Type 0 → Type 0 → Type 0 → Type 0
Handler H R A = Request H R → Option (Result String A)

pub record Origin (H R S : Type 0) : Type 0 where
  pub http : Handler H R (Response H R)
  pub websocket : Option (Handler H R (WebSocketConnection H R S))
  pub tcp : Option (Handler H R S)

abbrev pub http_origin : {H R S : Type 0} → Handler H R (Response H R) → Origin H R S
http_origin http = record { http = http; websocket = none; tcp = none }

abbrev with_websocket :
    {H R S : Type 0} → Handler H R (WebSocketConnection H R S) → Origin H R S → Origin H R S
with_websocket websocket o = record o { websocket = some websocket }

abbrev pub with_tcp : {H R S : Type 0} → Handler H R S → Origin H R S → Origin H R S
with_tcp tcp o = record o { tcp = some tcp }

unfoldable pub wait_outcome : {A : Type 0} → Option (Result String A) → Result String A
wait_outcome (some (ok value)) = ok value
wait_outcome (some (err message)) = err message
wait_outcome none = err "origin handler produced no response"

abbrev uri_or_default : Result String String → String
uri_or_default (ok uri) = uri
uri_or_default (err e) = "/"

-- The request for a TCP stream; the default URI is `/`.
unfoldable pub tcp_request : {H R : Type 0} → HttpCrate H → String → Request H R
tcp_request crate host = record {
  method = "GET";
  uri = uri_or_default (crate.uri_try_from (str_append "http://" host));
  headers = crate.empty_headers;
  body = empty;
}
