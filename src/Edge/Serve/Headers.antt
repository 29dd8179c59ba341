-- ===== src/Edge/Serve/Headers.antt =====
-- The headers of requests and responses through the metadata of a stream.
use Prim.Native.Char.{code}
use Prim.Native.String.{[] as nil, ◌∷◌ as cons}
use Prim.Native.String.append
use libcfd.Prelude.{
  [], ℕ, ◌≡◌, refl, ap, ◌∙◌, String, true, false, List, ◌∷◌, Option, none, some, ok, str_append,
  str_eq, eq_iff, ◌==◌, arith, Bool-cases, inl, inr,
}
use libcfd.Rpc.Quic.{http_method_key, http_host_key, http_status_key, ConnectRequest}
use libcfd.Edge.Serve.Metadata.{
  header_key_prefix, strip_prefix, add_entry, add_entries, build_request, header_entries,
  encode_response_metadata, u16_to_string, text_or_empty, with_uri,
}
use libcfd.Origin.{HttpCrate, Request, Response}
use libcfd.Origin.Body.{empty}

same_code : (n : ℕ) → (n == n) ≡ true
same_code n = ground arith

strip_prefix-append : (prefix key : String) → strip_prefix prefix (str_append prefix key) ≡ some key
unfolding strip_prefix
strip_prefix-append nil key = rw (append.nil key)
strip_prefix-append (cons c prefix) key =
    rw (append.cons c prefix key, same_code (code c), strip_prefix-append prefix key)

-- A key with the prefix is none of the other keys.
not_key :
    (name key : String)
    → strip_prefix header_key_prefix key ≡ none
    → str_eq (str_append header_key_prefix name) key ≡ false
not_key name key none_left = elim (Bool-cases (str_eq (str_append header_key_prefix name) key)) [
  | inl same ↦
      let stripped = strip_prefix-append header_key_prefix name in
      let keys = ap (strip_prefix header_key_prefix) ((eq_iff _ key).0 same) in
      absurd (cc (stripped, keys, none_left))
  | inr other ↦ other
]

not_method : strip_prefix header_key_prefix http_method_key ≡ none
unfolding strip_prefix
not_method = refl

not_host : strip_prefix header_key_prefix http_host_key ≡ none
unfolding strip_prefix
not_host = refl

-- The headers of a response with their texts, a value that is no text as the empty one, appended in
-- order.
unfoldable pub append_all : {H : Type 0} → HttpCrate H → List (String × Option String) → H → H
append_all crate [] headers = headers
append_all crate ((name, value) ∷ rest) headers =
    append_all crate rest (crate.append name (text_or_empty value) headers)

-- The names and the texts are valid as they are.
unfoldable pub AreAccepted : {H : Type 0} → HttpCrate H → List (String × Option String) → Type 0
AreAccepted crate [] = Unit
AreAccepted crate ((name, value) ∷ rest) =
    (crate.header_name_from_bytes name ≡ some name)
    × (crate.header_value_from_str (text_or_empty value) ≡ some (text_or_empty value))
    × AreAccepted crate rest

module _ {H : Type 0} (crate : HttpCrate H) where
  add_entry-header :
      (name value method : String) (headers : H)
      → crate.header_name_from_bytes name ≡ some name
      → crate.header_value_from_str value ≡ some value
      → add_entry crate (str_append header_key_prefix name) value (method, headers)
        ≡ (method, crate.append name value headers)
  unfolding add_entry
  add_entry-header name value method headers n v = rw (
    not_key name http_method_key not_method,
    not_key name http_host_key not_host,
    strip_prefix-append header_key_prefix name,
    n,
    v,
  )

  add_entries-header_entries :
      (fields : List (String × Option String)) (method : String) (headers : H)
      → AreAccepted crate fields
      → add_entries crate (header_entries crate fields) (method, headers)
        ≡ (method, append_all crate fields headers)
  unfolding add_entries header_entries append_all AreAccepted
  add_entries-header_entries [] method headers a = refl
  add_entries-header_entries ((name, value) ∷ fields) method headers (n, v, a) =
      ap (add_entries crate (header_entries crate fields))
        (add_entry-header name (text_or_empty value) method headers n v)
      ∙ add_entries-header_entries fields method (crate.append name (text_or_empty value) headers) a

  add_entry-status :
      (status : ℕ) (method : String) (headers : H)
      → add_entry crate http_status_key (u16_to_string status) (method, headers) ≡ (method, headers)
  unfolding add_entry strip_prefix
  add_entry-status status method headers = refl

  -- Where the http crate accepts the names and the texts of a response's headers as they are, the
  -- metadata that is sent for the response, read as the metadata of a request is, gives the headers
  -- of the response in their order and nothing else; a value that is no text has become the empty one.
  pub build_request-encode :
      {R : Type 0} (response : Response H R) (connect : ConnectRequest) (uri : String)
      → AreAccepted crate (crate.iter response.headers)
      → connect.metadata ≡ encode_response_metadata crate response
      → crate.uri_try_from connect.destination ≡ ok uri
      → (request : Request H R) × (build_request crate connect ≡ ok request)
        × (request.method ≡ "GET")
        × (request.uri ≡ uri)
        × (request.headers ≡ append_all crate (crate.iter response.headers) crate.empty_headers)
  unfolding build_request encode_response_metadata add_entries
  build_request-encode response connect uri a m u =
      let parts =
        ap (λ metadata. add_entries crate metadata ("GET", crate.empty_headers)) m
        ∙ ap (add_entries crate (header_entries crate (crate.iter response.headers)))
            (add_entry-status response.status "GET" crate.empty_headers)
        ∙ add_entries-header_entries (crate.iter response.headers) "GET" crate.empty_headers a in
      (
        record {
          method = "GET";
          uri = uri;
          headers = append_all crate (crate.iter response.headers) crate.empty_headers;
          body = empty;
        },
        ap
              (with_uri crate connect.destination
                (add_entries crate connect.metadata ("GET", crate.empty_headers)))
              u
            ∙ ap (λ p. with_uri crate connect.destination p (ok uri)) parts,
        refl,
        refl,
        refl,
      )
