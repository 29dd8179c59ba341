-- ===== src/Witnesses/Serve.antt =====
-- The theorems on serving the streams of the edge at concrete inputs.
use libcfd.Prelude.{
  [], ℕ, ◌≡◌, refl, String, List, ◌∷◌, ◌++◌, Option, none, some, Result, ok, err, Bytes, length,
  replicate, arith, ap, sym,
}
use libcfd.Rpc.Error.{RpcResult}
use libcfd.Rpc.Io.{Segments, Stream, chunk, read_exact}
use libcfd.Rpc.Io.Frame.{frame, IsFrameable}
use libcfd.Rpc.Io.Chunks.{content, IsSmooth, read_exact_sized}
use libcfd.Rpc.Quic.{
  ConnectRequest, http, ConnectRequestReader, encode_connect_request,
  data_stream_protocol_signature,
}
use libcfd.Edge.Serve.Opens.{opens_data, read_opening, read_opening-data}
use libcfd.Edge.Serve.Metadata.{build_request, encode_response_metadata}
use libcfd.Edge.Serve.Headers.{append_all, AreAccepted, build_request-encode}
use libcfd.Origin.{HttpCrate, Request, Response, Origin, http_origin}
use libcfd.Origin.Body.{from_bytes}

-- Header maps are lists, and every text is valid.
abbrev Fields : Type 0
Fields = List (String × Option String)

abbrev crate : HttpCrate Fields
crate = record {
  method_from_bytes = λ method. some method;
  header_name_from_bytes = λ name. some name;
  header_value_from_str = λ value. some value;
  uri_try_from = λ uri. ok uri;
  empty_headers = [];
  insert = λ name value headers. (name, some value) ∷ headers;
  append = λ name value headers. headers ++ (name, some value) ∷ [];
  remove = λ name headers. headers;
  get = λ name headers. none;
  iter = λ headers. headers;
}

abbrev request : ConnectRequest
request = record {
  destination = "http://a/b";
  connection_type = http;
  metadata = ("HttpMethod", "POST") ∷ [];
}

-- The message is of one word, which capnp reads as the request.
abbrev root : Segments → RpcResult ConnectRequestReader
root m = ok (record {
  dest = ok "http://a/b";
  type = ok http;
  metadata = ok ((ok "HttpMethod", ok "POST") ∷ []);
})

one_word : IsFrameable 1 [] (replicate 8 7)
one_word = record { few = omega arith; small = omega arith; whole = refl }

abbrev message : Bytes
message = 0 ∷ 0 ∷ 0 ∷ 0 ∷ 1 ∷ 0 ∷ 0 ∷ 0 ∷ replicate 8 7

-- `read_exact` with the errors of futures.
abbrev from_eof : {A : Type 0} → RpcResult A → Result String A
from_eof (ok a) = ok a
from_eof (err e) = err "failed to fill whole buffer"

futures_read_exact : ℕ → Stream → Result String (Bytes × Stream)
futures_read_exact n s = from_eof (read_exact n s)

reads :
    (n : ℕ) (bytes rest : Bytes) (s : Stream)
    → length bytes ≡ n
    → IsSmooth s
    → content s ≡ bytes ++ rest
    → (s' : Stream) × (futures_read_exact n s ≡ ok (bytes, s')) × IsSmooth s' × (content s' ≡ rest)
unfolding futures_read_exact
reads n bytes rest s l v e =
    let (s', r, w, left) = read_exact_sized n bytes rest s (sym l) v e in
    (s', ap from_eof r, w, left)

abbrev opening : Stream
opening =
    chunk (data_stream_protocol_signature ++ (0x30 ∷ []))
    ∷ chunk (0x31 ∷ message)
    ∷ chunk (9 ∷ [])
    ∷ []

read_opening-data_example :
    (s' : Stream) × (read_opening futures_read_exact root 4 opening ≡ ok (opens_data request s'))
    × (content s' ≡ 9 ∷ [])
read_opening-data_example =
    read_opening-data futures_read_exact root reads 4 request 1 [] (replicate 8 7) (9 ∷ []) opening
      one_word (unfold encode_connect_request in refl)
      (omega arith, (omega arith, (omega arith, tt))) (unfold frame in refl)

-- A response with a header that is no text.
abbrev response : Response Fields Bytes
response = record {
  status = 200;
  headers = ("content-type", some "text/plain") ∷ ("x-raw", none) ∷ [];
  body = from_bytes (7 ∷ []);
}

abbrev mirrored : ConnectRequest
mirrored = record request { metadata = encode_response_metadata crate response }

build_request-encode_example :
    (r : Request Fields Bytes) × (build_request crate mirrored ≡ ok r)
    × (r.method ≡ "GET")
    × (r.uri ≡ "http://a/b")
    × (r.headers ≡ append_all crate (("content-type", some "text/plain") ∷ ("x-raw", none) ∷ []) [])
build_request-encode_example =
    build_request-encode crate response mirrored "http://a/b"
      (unfold AreAccepted in (refl, refl, (refl, refl, tt))) refl refl

abbrev origin : Origin Fields Bytes ℕ
origin = http_origin (λ r. some (ok response))
