-- ===== src/Edge/H2/Headers.antt =====
-- src/edge/h2/headers.rs: the headers of an HTTP/2 response to the edge. Base64 is the crate's.
pub mod RoundTrip
pub mod Rules
pub mod Passes
use Prim.Native.Char.{Char, code}
use Prim.Native.String.{[] as nil, ◌∷◌ as cons, char_at}
use text.Mathlib.Text.{starts_with}
use libcfd.Prelude.{
  [], ℕ, ◌+◌, ◌-◌, leb, ◌==◌, String, Bool, true, false, not, ◌&&◌, ◌||◌, List, ◌∷◌, ◌++◌, Option,
  none, some, Result, ok, err, str_append, str_eq, if◌then◌else◌,
}
use libcfd.Origin.{HttpCrate, Response}

abbrev pub response_user_headers : String
response_user_headers = "cf-cloudflared-response-headers"

abbrev pub response_metadata_header : String
response_metadata_header = "cf-cloudflared-response-meta"

abbrev response_metadata_origin : String
response_metadata_origin = "{\"src\":\"origin\"}"

abbrev pub tracing_internal_header : String
tracing_internal_header = "cf-int-cloudflared-tracing"

-- `to_ascii_lowercase`.
abbrev lower_char : Char → Char
lower_char c =
    if leb 65 (code c) && leb (code c) 90
    then char_at "abcdefghijklmnopqrstuvwxyz" (code c - 65)
    else c

unfoldable pub to_ascii_lowercase : String → String
to_ascii_lowercase nil = ""
to_ascii_lowercase (cons c text) = cons (lower_char c) (to_ascii_lowercase text)

unfoldable pub is_control_response_header : String → Bool
is_control_response_header name =
    starts_with name ":"
    || starts_with name "cf-int-"
    || starts_with name "cf-cloudflared-"
    || starts_with name "cf-proxy-"

unfoldable pub is_websocket_client_header : String → Bool
is_websocket_client_header name =
    str_eq name "sec-websocket-accept" || str_eq name "connection" || str_eq name "upgrade"

-- `split(';')`, at the character of this number.
abbrev push_front : Char → List String → List String
push_front c [] = cons c "" ∷ []
push_front c (part ∷ parts) = cons c part ∷ parts

unfoldable pub split : ℕ → String → List String
split separator nil = "" ∷ []
split separator (cons c text) =
    let rest = split separator text in if code c == separator then "" ∷ rest else push_front c rest

-- `split_once(':')`.
abbrev push_once : Char → Option (String × String) → Option (String × String)
push_once c none = none
push_once c (some (front, back)) = some (cons c front, back)

unfoldable pub split_once : ℕ → String → Option (String × String)
split_once separator nil = none
split_once separator (cons c text) =
    let rest = split_once separator text in
    if code c == separator then some ("", text) else push_once c rest

module _ (encode_base64 : String → String) where
  unfoldable pub serialize_from : String → List (String × String) → String
  serialize_from out [] = out
  serialize_from out ((name, value) ∷ headers) =
      let separated = if str_eq out "" then out else str_append out ";" in
      serialize_from
        (str_append separated
          (str_append (encode_base64 name) (str_append ":" (encode_base64 value))))
        headers

  unfoldable pub serialize_headers : List (String × String) → String
  unfolding serialize_from
  serialize_headers headers = serialize_from "" headers

abbrev decoded : Result String String → Result String String → Option (String × String)
decoded (ok name) (ok value) = some (name, value)
decoded _ _ = none

abbrev push_some : Option (String × String) → List (String × String) → List (String × String)
push_some none headers = headers
push_some (some header) headers = header ∷ headers

module _ (decode_base64 : String → Result String String) where
  abbrev decode_pair : Option (String × String) → Option (String × String)
  decode_pair none = none
  decode_pair (some (name, value)) = decoded (decode_base64 name) (decode_base64 value)

  unfoldable pub deserialize_pairs : List String → List (String × String)
  unfolding split_once
  deserialize_pairs [] = []
  deserialize_pairs (pair ∷ pairs) =
      let rest = deserialize_pairs pairs in
      if str_eq pair "" then rest else push_some (decode_pair (split_once 58 pair)) rest

  unfoldable pub deserialize_headers : String → List (String × String)
  unfolding deserialize_pairs split
  deserialize_headers serialized = deserialize_pairs (split 59 serialized)

abbrev pub text_or_empty : Option String → String
text_or_empty (some text) = text
text_or_empty none = ""

-- Whether a header goes to the serialized user headers.
unfoldable pub is_user_header : String → Bool
unfolding is_control_response_header is_websocket_client_header
is_user_header lower = not (is_control_response_header lower) || is_websocket_client_header lower

module _ {H : Type 0} (crate : HttpCrate H) where
  -- One turn of the loop, with the header map and the user headers. A value that is valid as a text
  -- is valid as a header.
  unfoldable pub add_response_header :
      String → String → H × List (String × String) → H × List (String × String)
  unfolding is_user_header to_ascii_lowercase
  add_response_header name value (headers, user_headers) =
      let lower = to_ascii_lowercase name in
      let passed =
        if str_eq lower "content-length" then crate.append name value headers else headers in
      if str_eq lower tracing_internal_header
      then (crate.insert "Cf-Int-Cloudflared-Tracing" value passed, user_headers)
      else (
        passed,
        if is_user_header lower then user_headers ++ (name, value) ∷ [] else user_headers,
      )

  unfoldable pub collect_headers :
      List (String × Option String) → H × List (String × String) → H × List (String × String)
  unfolding add_response_header
  collect_headers [] parts = parts
  collect_headers ((name, value) ∷ fields) parts =
      collect_headers fields (add_response_header name (text_or_empty value) parts)

module _ {H : Type 0} (crate : HttpCrate H) (encode_base64 : String → String) where
  abbrev pub with_user_headers : List (String × String) → H → H
  with_user_headers [] headers = headers
  with_user_headers (header ∷ user_headers) headers =
      crate.insert response_user_headers (serialize_headers encode_base64 (header ∷ user_headers))
        headers

  unfoldable pub encode_response_headers : {R : Type 0} → Response H R → H
  unfolding collect_headers serialize_headers
  encode_response_headers response =
      let (headers, user_headers) =
        collect_headers crate (crate.iter response.headers) (crate.empty_headers, []) in
      crate.insert response_metadata_header response_metadata_origin
        (with_user_headers user_headers headers)
