-- ===== src/Edge/Serve/Metadata.antt =====
-- src/edge/serve.rs: the metadata of requests and responses on a QUIC stream.
use Prim.Native.Char.{code}
use Prim.Native.String.{[] as nil, ◌∷◌ as cons}
use libcfd.Prelude.{
  [], ℕ, zero, suc, ◌/◌, ◌%◌, ltb, get_or, String, List, ◌∷◌, Option, none, some, Result, ok, err,
  str_append, str_eq, if◌then◌else◌, ◌==◌,
}
use libcfd.Rpc.Quic.{http_method_key, http_host_key, http_status_key, ConnectRequest}
use libcfd.Edge.Error.{Error, edge, quic}
use libcfd.Origin.{HttpCrate, Request, Response}
use libcfd.Origin.Body.{empty}

abbrev pub header_key_prefix : String
header_key_prefix = "HttpHeader:"

-- `strip_prefix`, by characters.
unfoldable pub strip_prefix : String → String → Option String
strip_prefix nil key = some key
strip_prefix (cons c prefix) nil = none
strip_prefix (cons c prefix) (cons d key) =
    let rest = strip_prefix prefix key in if code c == code d then rest else none

-- What a metadata entry sets: the method, the host, or one more header; anything else is skipped.
abbrev method_or_get : Option String → String
method_or_get (some method) = method
method_or_get none = "GET"

-- `u16::to_string`.
abbrev digit : ℕ → String
digit n = get_or ("0" ∷ "1" ∷ "2" ∷ "3" ∷ "4" ∷ "5" ∷ "6" ∷ "7" ∷ "8" ∷ "9" ∷ []) n ""

abbrev digits : ℕ → ℕ → String
digits zero n = ""
digits (suc places) n =
    let front = digits places (n / 10) in
    if ltb n 10 then digit n else str_append front (digit (n % 10))

unfoldable pub u16_to_string : ℕ → String
u16_to_string n = digits 5 n

-- `u64::to_string`.
unfoldable pub u64_to_string : ℕ → String
u64_to_string n = digits 20 n

abbrev pub text_or_empty : Option String → String
text_or_empty (some text) = text
text_or_empty none = ""

module _ {H : Type 0} (crate : HttpCrate H) where
  -- The value of the host key, if it is one, and the header behind the prefix, if it is valid.
  abbrev host_value : String → String → Option String
  host_value key val = if str_eq key http_host_key then crate.header_value_from_str val else none

  abbrev both_valid : Option String → Option String → Option (String × String)
  both_valid (some name) (some value) = some (name, value)
  both_valid _ _ = none

  abbrev valid_header : Option String → String → Option (String × String)
  valid_header none val = none
  valid_header (some name) val =
      both_valid (crate.header_name_from_bytes name) (crate.header_value_from_str val)

  abbrev add_header : Option (String × String) → H → H
  add_header none headers = headers
  add_header (some (name, value)) headers = crate.append name value headers

  abbrev add_host : Option String → Option (String × String) → H → H
  add_host (some value) header headers = crate.insert "host" value headers
  add_host none header headers = add_header header headers

  unfoldable pub add_entry : String → String → String × H → String × H
  unfolding strip_prefix
  add_entry key val (method, headers) =
      if str_eq key http_method_key
      then (method_or_get (crate.method_from_bytes val), headers)
      else (
        method,
        add_host (host_value key val) (valid_header (strip_prefix header_key_prefix key) val)
            headers,
      )

  unfoldable pub add_entries : List (String × String) → String × H → String × H
  unfolding add_entry
  add_entries [] parts = parts
  add_entries ((key, val) ∷ metadata) parts = add_entries metadata (add_entry key val parts)

  abbrev pub with_uri :
      {R : Type 0} → String → String × H → Result String String → Result Error (Request H R)
  with_uri destination (method, headers) (ok uri) =
      ok (record { method = method; uri = uri; headers = headers; body = empty })
  with_uri destination parts (err e) = err (
      edge (
        quic
          (str_append "invalid request destination " (str_append destination (str_append ": " e)))))

  unfoldable pub build_request : {R : Type 0} → ConnectRequest → Result Error (Request H R)
  unfolding add_entries
  build_request connect =
      with_uri connect.destination (add_entries connect.metadata ("GET", crate.empty_headers))
        (crate.uri_try_from connect.destination)

  unfoldable pub header_entries : List (String × Option String) → List (String × String)
  header_entries [] = []
  header_entries ((name, value) ∷ headers) =
      (str_append header_key_prefix name, text_or_empty value) ∷ header_entries headers

  unfoldable pub encode_response_metadata : {R : Type 0} → Response H R → List (String × String)
  unfolding header_entries u16_to_string
  encode_response_metadata response =
      (http_status_key, u16_to_string response.status)
      ∷ header_entries (crate.iter response.headers)
