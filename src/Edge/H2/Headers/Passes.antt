-- ===== src/Edge/H2/Headers/Passes.antt =====
-- Which headers of a response reach the edge.
use libcfd.Prelude.{
  [], ◌≡◌, ◌≢◌, refl, sym, ap, ◌∙◌, String, Bool, true, false, List, ◌∷◌, ◌++◌, Option, some,
  Result, str_eq, eq_iff, if◌then◌else◌, append_assoc, append-nil, Bool-cases, inl, inr,
}
use libcfd.Origin.{HttpCrate, Response}
use libcfd.Edge.H2.Headers.{
  response_user_headers, response_metadata_header, tracing_internal_header, to_ascii_lowercase,
  is_control_response_header, is_websocket_client_header, is_user_header, add_response_header,
  collect_headers, with_user_headers, encode_response_headers, text_or_empty, serialize_headers,
  deserialize_headers,
}
use libcfd.Edge.H2.Headers.Rules.{Passes, is_user_header-Passes, Passes-is_user_header}
use libcfd.Edge.H2.Headers.RoundTrip.{AreBase64, deserialize_headers-serialize_headers}

-- The headers that are no control headers, or are those of a websocket handshake.
unfoldable user_headers : List (String × Option String) → List (String × String)
user_headers [] = []
user_headers ((name, value) ∷ fields) =
    let rest = user_headers fields in
    if is_user_header (to_ascii_lowercase name) then (name, text_or_empty value) ∷ rest else rest

-- What the http crate documents of `insert`, for the value that `get` finds: names are compared without
-- regard to ASCII case.
pub record InsertsHeaders {H : Type 0} (crate : HttpCrate H) (get : String → H → Option String)
    : Type 0 where
  pub same :
      (name other value : String) (headers : H)
      → to_ascii_lowercase name ≡ to_ascii_lowercase other
      → get name (crate.insert other value headers) ≡ some value
  pub others :
      (name other value : String) (headers : H)
      → to_ascii_lowercase name ≢ to_ascii_lowercase other
      → get name (crate.insert other value headers) ≡ get name headers

-- The headers of a response, and those of them that are passed on, in their order.
pub data Selects : List (String × Option String) → List (String × String) → Type 0 where
  ends : Selects [] []
  passed :
      (name : String) (value : Option String) {fields : List (String × Option String)}
      {users : List (String × String)}
      → Passes (to_ascii_lowercase name)
      → Selects fields users
      → Selects ((name, value) ∷ fields) ((name, text_or_empty value) ∷ users)
  kept_back :
      (name : String) (value : Option String) {fields : List (String × Option String)}
      {users : List (String × String)}
      → (Passes (to_ascii_lowercase name) → ⊥)
      → Selects fields users
      → Selects ((name, value) ∷ fields) users

Selects-user_headers :
    {fields : List (String × Option String)} {users : List (String × String)}
    → Selects fields users
    → user_headers fields ≡ users
unfolding user_headers
Selects-user_headers ends = refl
Selects-user_headers (passed name value p s) =
    rw (is_user_header-Passes (to_ascii_lowercase name) p, Selects-user_headers s)
Selects-user_headers (kept_back name value n s) =
    elim (Bool-cases (is_user_header (to_ascii_lowercase name))) [
      | inl e ↦ absurd (n (Passes-is_user_header (to_ascii_lowercase name) e))
      | inr e ↦ rw (e, Selects-user_headers s)
    ]

-- The tracing header is a control header.
not_tracing : is_user_header tracing_internal_header ≡ false
unfolding is_user_header is_control_response_header is_websocket_client_header
not_tracing = refl

tracing :
    (lower : String) → str_eq lower tracing_internal_header ≡ true → is_user_header lower ≡ false
tracing lower e = ap is_user_header ((eq_iff lower tracing_internal_header).0 e) ∙ not_tracing

other_name : to_ascii_lowercase response_user_headers ≢ to_ascii_lowercase response_metadata_header
unfolding to_ascii_lowercase
other_name e =
    let h =
      (eq_iff (to_ascii_lowercase response_user_headers)
          (to_ascii_lowercase response_metadata_header)).1
        e in
    absurd (cc h)

module _ {H : Type 0} (crate : HttpCrate H) where
  add_response_header-user :
      (name value : String) (headers : H) (users : List (String × String))
      → (add_response_header crate name value (headers, users)).1
        ≡ (if is_user_header (to_ascii_lowercase name) then users ++ (name, value) ∷ [] else users)
  unfolding add_response_header
  add_response_header-user name value headers users =
      elim (Bool-cases (str_eq (to_ascii_lowercase name) tracing_internal_header)) [
        | inl e ↦ rw (e, tracing (to_ascii_lowercase name) e)
        | inr n ↦ rw n refl
      ]

  collect_headers-user :
      (fields : List (String × Option String)) (headers : H) (users : List (String × String))
      → (collect_headers crate fields (headers, users)).1 ≡ users ++ user_headers fields
  unfolding collect_headers user_headers
  collect_headers-user [] headers users = sym (append-nil users)
  collect_headers-user ((name, value) ∷ fields) headers users =
      let parts = add_response_header crate name (text_or_empty value) (headers, users) in
      collect_headers-user fields parts.0 parts.1
      ∙ ap (λ us. us ++ user_headers fields)
          (add_response_header-user name (text_or_empty value) headers users)
      ∙ chosen (is_user_header (to_ascii_lowercase name)) (name, text_or_empty value)
    where
      chosen :
          (b : Bool) (header : String × String)
          → (if b then users ++ header ∷ [] else users) ++ user_headers fields
            ≡ users ++ (if b then header ∷ user_headers fields else user_headers fields)
      chosen true header = append_assoc users (header ∷ []) (user_headers fields)
      chosen false header = refl

  -- Where base64 decodes the texts to what it encoded and keeps to its alphabet, and the header map
  -- finds what was inserted last under a name, in any case, a response that has headers to pass on
  -- reaches the edge with a header that reads back as exactly those, in their order: the ones whose
  -- names have none of the control prefixes, and those of a websocket handshake.
  pub encode_response_headers-user_headers :
      {R : Type 0} (encode : String → String) (decode : String → Result String String)
      (get : String → H → Option String) (response : Response H R) (header : String × String)
      (headers : List (String × String))
      → AreBase64 encode decode (header ∷ headers)
      → InsertsHeaders crate get
      → Selects (crate.iter response.headers) (header ∷ headers)
      → (serialized : String) × (get response_user_headers
            (encode_response_headers crate encode response)
          ≡ some serialized)
        × (deserialize_headers decode serialized ≡ header ∷ headers)
  unfolding encode_response_headers
  encode_response_headers-user_headers encode decode get response header headers base64 laws e =
      let users =
        collect_headers-user (crate.iter response.headers) crate.empty_headers []
        ∙ Selects-user_headers e in
      (
        serialize_headers encode (header ∷ headers),
        laws.others response_user_headers response_metadata_header _ _ other_name
            ∙ ap
                (λ us. get response_user_headers (
                  with_user_headers crate encode us
                    (collect_headers crate (crate.iter response.headers)
                      (crate.empty_headers, [])).0))
                users
            ∙ laws.same response_user_headers response_user_headers _ _ refl,
        deserialize_headers-serialize_headers encode decode (header ∷ headers) base64,
      )
