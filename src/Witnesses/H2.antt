-- ===== src/Witnesses/H2.antt =====
-- The theorems on the streams of an HTTP/2 connection at concrete inputs.
use libcfd.Prelude.{◌≢◌, Bool-cases, inl, inr}
use libcfd.Prelude.{
  [], ℕ, ◌≡◌, refl, String, true, false, List, ◌∷◌, ◌++◌, Option, none, some, Result, ok, err,
  Bytes, str_eq, eq_iff, if◌then◌else◌,
}
use libcfd.Prelude.Int.{pos}
use libcfd.Edge.Error.{edge, h2 as h2_error}
use libcfd.Edge.Configuration.{EdgeConfigurationHandler, new}
use libcfd.Edge.H2.{classify, tcp}
use libcfd.Edge.H2.Headers.{
  response_user_headers, encode_response_headers, deserialize_headers, is_user_header,
  is_control_response_header, is_websocket_client_header, to_ascii_lowercase,
}
use libcfd.Edge.H2.Headers.RoundTrip.{IsBase64, AreBase64, Lacks}
use libcfd.Edge.H2.Headers.Rules.{Passes, is_user_header-Passes, Passes-is_user_header}
use libcfd.Edge.H2.Headers.Passes.{
  InsertsHeaders, Selects, passed, kept_back, encode_response_headers-user_headers,
}
use libcfd.Edge.H2.Streams.{H2Request, new_side}
use libcfd.Edge.H2.Streams.Handlers.{handle_stream, handle_h2_configuration, request_headers}
use libcfd.Edge.H2.Streams.Answers.{AnswersOnce, handle_stream-AnswersOnce}
use libcfd.Origin.{HttpCrate, Response, Origin, http_origin, with_tcp}
use libcfd.Origin.Body.{from_bytes}

-- Header maps are lists, and every text is valid.
abbrev Fields : Type 0
Fields = List (String × Option String)

abbrev find : String → Fields → Option (Option String)
find name [] = none
find name ((other, value) ∷ fields) =
    let rest = find name fields in
    if str_eq (to_ascii_lowercase name) (to_ascii_lowercase other) then some value else rest

abbrev crate : HttpCrate Fields
crate = record {
  method_from_bytes = λ method. some method;
  header_name_from_bytes = λ name. some name;
  header_value_from_str = λ value. some value;
  uri_try_from = λ uri. ok uri;
  empty_headers = [];
  insert = λ name value headers. (name, some value) ∷ headers;
  append = λ name value headers. headers ++ (name, some value) ∷ [];
  remove = λ name headers. headers;
  get = find;
  iter = λ headers. headers;
}

abbrev text_of : Option (Option String) → Option String
text_of none = none
text_of (some value) = value

abbrev get : String → Fields → Option String
get name headers = text_of (find name headers)

inserts : InsertsHeaders crate get
inserts = record { same = same; others = others }
  where
    same :
        (name other value : String) (headers : Fields)
        → to_ascii_lowercase name ≡ to_ascii_lowercase other
        → get name ((other, some value) ∷ headers) ≡ some value
    same name other value headers e =
        rw ((eq_iff (to_ascii_lowercase name) (to_ascii_lowercase other)).1 e)

    others :
        (name other value : String) (headers : Fields)
        → to_ascii_lowercase name ≢ to_ascii_lowercase other
        → get name ((other, some value) ∷ headers) ≡ get name headers
    others name other value headers n =
        elim (Bool-cases (str_eq (to_ascii_lowercase name) (to_ascii_lowercase other))) [
          | inl e ↦ absurd (n ((eq_iff (to_ascii_lowercase name) (to_ascii_lowercase other)).0 e))
          | inr e ↦ rw e
        ]

-- The texts stand for themselves.
abbrev encode : String → String
encode text = text

abbrev decode : String → Result String String
decode text = ok text

abbrev response : Response Fields Bytes
response = record {
  status = 200;
  headers = ("te", some "a") ∷ ("cf-int-ray", some "1") ∷ [];
  body = from_bytes (7 ∷ []);
}

accept_name : IsBase64 encode decode "te"
unfolding Lacks
accept_name = record {
  decodes = refl;
  no_semicolon = (refl, (refl, tt));
  no_colon = (refl, (refl, tt));
}

gzip_value : IsBase64 encode decode "a"
unfolding Lacks
gzip_value = record { decodes = refl; no_semicolon = (refl, tt); no_colon = (refl, tt) }

-- The first header passes, and the control header does not.
te-Passes : Passes (to_ascii_lowercase "te")
te-Passes = Passes-is_user_header (to_ascii_lowercase "te") te
  where
    te : is_user_header (to_ascii_lowercase "te") ≡ true
    te =
        unfold is_user_header is_control_response_header is_websocket_client_header
          to_ascii_lowercase in
        refl

ray_kept_back : Passes (to_ascii_lowercase "cf-int-ray") → ⊥
ray_kept_back p =
    let e = is_user_header-Passes (to_ascii_lowercase "cf-int-ray") p in absurd (cc (e, ray))
  where
    ray : is_user_header (to_ascii_lowercase "cf-int-ray") ≡ false
    ray =
        unfold is_user_header is_control_response_header is_websocket_client_header
          to_ascii_lowercase in
        refl

encode_response_headers-user_headers_example :
    (serialized : String) × (get response_user_headers
        (encode_response_headers crate encode response)
      ≡ some serialized)
    × (deserialize_headers decode serialized ≡ ("te", "a") ∷ [])
encode_response_headers-user_headers_example =
    encode_response_headers-user_headers crate encode decode get response ("te", "a") []
      (unfold AreBase64 in (accept_name, gzip_value, tt)) inserts
      (passed "te" (some "a") te-Passes
        (kept_back "cf-int-ray" (some "1") ray_kept_back Selects.ends))

-- A TCP stream that the origin refuses.
abbrev origin : Origin Fields Bytes ℕ
origin = with_tcp (λ r. some (err "refused")) (http_origin (λ r. some (ok response)))

abbrev request : H2Request Fields
request = record {
  method = "GET";
  uri = "/";
  headers = ("cf-cloudflared-proxy-src", some "1") ∷ ("host", some "a") ∷ [];
}

handler : EdgeConfigurationHandler
handler = new true

is_tcp : classify (request_headers crate request.headers) ≡ tcp
unfolding classify request_headers to_ascii_lowercase
is_tcp = refl

handle_stream-AnswersOnce_example : AnswersOnce (none ∷ some (edge (h2_error "reset")) ∷ []) (
    handle_stream crate encode
      (λ b. (7 ∷ [], none))
      (λ t. 8 ∷ [])
      (λ u. none)
      (λ k. k)
      origin
      (λ w.
        (handle_h2_configuration crate
          (λ b. ok [])
          (λ b. ok (pos 1, []))
          (λ r. [])
          (ok [])
          handler
          w).0)
      []
      request
      (new_side (none ∷ some (edge (h2_error "reset")) ∷ [])))
handle_stream-AnswersOnce_example =
    handle_stream-AnswersOnce crate encode (λ b. (7 ∷ [], none)) (λ t. 8 ∷ []) (λ u. none) (λ k. k)
      origin (λ b. ok []) (λ b. ok (pos 1, [])) (λ r. []) (ok []) handler [] request
      (none ∷ some (edge (h2_error "reset")) ∷ []) (λ e. absurd (cc (is_tcp, e)))
