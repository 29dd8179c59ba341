-- ===== src/Edge/Serve/Opens.antt =====
-- src/edge/serve.rs: what a stream of the edge opens with.
use libcfd.Prelude.{
  [], ℕ, String, Bool, true, false, List, ◌∷◌, ◌++◌, Result, ok, err, ◌>>=◌, Bytes, str_append,
  ◌==◌, ◌&&◌, if◌then◌else◌, ◌≡◌, refl, length,
}
use libcfd.Rpc.Error.{RpcResult}
use libcfd.Rpc.Io.{Segments, Stream}
use libcfd.Rpc.Io.Frame.{frame, IsFrameable}
use libcfd.Rpc.Io.Chunks.{content, IsSmooth}
use libcfd.Rpc.Quic.{
  data_stream_protocol_signature, rpc_stream_protocol_signature, protocol_v1, ConnectRequest,
  ConnectRequestReader, read_connect_request, encode_connect_request,
}
use libcfd.Rpc.Quic.RoundTrip.{request_reader, read_connect_request-encode}
use libcfd.Edge.Error.{Error, edge, quic, control, io}
use libcfd.Edge.Serve.Metadata.{u64_to_string}

abbrev same_bytes : Bytes → Bytes → Bool
same_bytes [] [] = true
same_bytes (x ∷ xs) (y ∷ ys) = (x == y) && same_bytes xs ys
same_bytes _ _ = false

-- What a stream opens with.
pub data Opening : Type 0 where
  opens_rpc : Stream → Opening
  opens_data : ConnectRequest → Stream → Opening

abbrev from_io : {A : Type 0} → Result String A → Result Error A
from_io (ok a) = ok a
from_io (err e) = err (edge (io e))

abbrev pub from_rpc : {A : Type 0} → RpcResult A → Result Error A
from_rpc (ok a) = ok a
from_rpc (err e) = err (edge (control e))

-- `read_exact` is that of futures, `root` capnp's `get_root` with the accessors.
module _ (read_exact : ℕ → Stream → Result String (Bytes × Stream))
    (root : Segments → RpcResult ConnectRequestReader) where
  abbrev bad_stream : ℕ → String → Error
  bad_stream id what = edge (quic (str_append "stream " (str_append (u64_to_string id) what)))

  unfoldable read_version : ℕ → Stream → Result Error Opening
  read_version id s = from_io (read_exact 2 s) >>= λ version.
      if same_bytes version.0 protocol_v1
      then (from_rpc (read_connect_request root version.1) >>= λ connect.
          ok (opens_data connect.0 connect.1))
      else err (bad_stream id " has unsupported protocol version")

  unfoldable pub read_opening : ℕ → Stream → Result Error Opening
  unfolding read_version
  read_opening id s = from_io (read_exact 6 s) >>= λ signature.
      let data_opening = read_version id signature.1 in
      if same_bytes signature.0 rpc_stream_protocol_signature
      then ok (opens_rpc signature.1)
      else (if same_bytes signature.0 data_stream_protocol_signature
          then data_opening
          else err (bad_stream id " has no data-stream signature"))

  -- Where `read_exact` reads the bytes asked for, however the transport cuts them, a stream that the
  -- edge opens with the data signature, the version and a connect request within the limits of a
  -- message is read as that request, and exactly the bytes behind it are left for the request's body.
  pub read_opening-data :
      (reads : (n : ℕ) (bytes rest : Bytes) (s : Stream)
        → length bytes ≡ n
        → IsSmooth s
        → content s ≡ bytes ++ rest
        → (s' : Stream) × (read_exact n s ≡ ok (bytes, s')) × IsSmooth s' × (content s' ≡ rest))
      (id : ℕ) (r : ConnectRequest) (first : ℕ) (others : List ℕ) (words body : Bytes) (s : Stream)
      → IsFrameable first others words
      → root (record { lengths = first ∷ others; words = words })
        ≡ ok (request_reader (encode_connect_request r))
      → IsSmooth s
      → content s
        ≡ data_stream_protocol_signature ++ (protocol_v1 ++ (frame first others words ++ body))
      → (s' : Stream) × (read_opening id s ≡ ok (opens_data r s')) × (content s' ≡ body)
  unfolding read_opening read_version
  read_opening-data reads id r first others words body s f read v e =
      let (s₁, r₁, v₁, e₁) =
        reads 6 data_stream_protocol_signature (protocol_v1 ++ (frame first others words ++ body)) s
          refl v e in
      let (s₂, r₂, v₂, e₂) = reads 2 protocol_v1 (frame first others words ++ body) s₁ refl v₁ e₁ in
      let (s₃, r₃, v₃, e₃) =
        read_connect_request-encode r root first others words body s₂ f read v₂ e₂ in
      (s₃, rw (r₁, r₂, r₃), e₃)
