-- ===== src/Rpc/Quic.antt =====
-- rpc/src/quic.rs: the metadata protocol of a QUIC stream. What capnp's accessors answer on a message
-- is a record of their results; a built message is the record of the values set in it.
pub mod RoundTrip
use libcfd.Prelude.{
  [], ℕ, String, Bool, true, false, List, ◌∷◌, Option, none, some, Result, ok, err, ◌>>=◌, Bytes,
  str_eq, if◌then◌else◌,
}
use libcfd.Rpc.Error.{RpcError, RpcResult}
use libcfd.Rpc.Io.{Segments, Stream, WritePoll, Written, read_message, write_all}

abbrev pub data_stream_protocol_signature : Bytes
data_stream_protocol_signature = 0x0a ∷ 0x36 ∷ 0xcd ∷ 0x12 ∷ 0xa1 ∷ 0x3e ∷ []

abbrev pub rpc_stream_protocol_signature : Bytes
rpc_stream_protocol_signature = 0x52 ∷ 0xbb ∷ 0x82 ∷ 0x5c ∷ 0xdb ∷ 0x65 ∷ []

-- `b"01"`.
abbrev pub protocol_v1 : Bytes
protocol_v1 = 0x30 ∷ 0x31 ∷ []

abbrev pub http_method_key : String
http_method_key = "HttpMethod"

abbrev pub http_host_key : String
http_host_key = "HttpHost"

abbrev pub http_status_key : String
http_status_key = "HttpStatus"

pub data ConnectionType : Type 0 where
  http websocket tcp : ConnectionType

pub record ConnectRequest : Type 0 where
  pub destination : String
  pub connection_type : ConnectionType
  pub metadata : List (String × String)

pub record ConnectResponse : Type 0 where
  pub error : String
  pub metadata : List (String × String)

abbrev pub default_response : ConnectResponse
default_response = record { error = ""; metadata = [] }

-- The entries of a metadata list, by the results of `get_key` and `get_val` with `to_str`.
abbrev pub Entries : Type 0
Entries = List (RpcResult String × RpcResult String)

pub record ConnectRequestReader : Type 0 where
  pub dest : RpcResult String
  pub type : RpcResult ConnectionType
  pub metadata : RpcResult Entries

pub record ConnectResponseReader : Type 0 where
  pub error : RpcResult String
  pub metadata : RpcResult Entries

-- The messages as they are built; an unset text is a null pointer.
pub record ConnectRequestMessage : Type 0 where
  pub dest : String
  pub type : ConnectionType
  pub metadata : List (String × String)

pub record ConnectResponseMessage : Type 0 where
  pub error : Option String
  pub metadata : List (String × String)

unfoldable pub decode_entries : Entries → RpcResult (List (String × String))
decode_entries [] = ok []
decode_entries ((key, val) ∷ entries) =
    key >>= λ k. val >>= λ v. decode_entries entries >>= λ rest. ok ((k, v) ∷ rest)

unfoldable pub decode_connect_request_message : ConnectRequestReader → RpcResult ConnectRequest
unfolding decode_entries
decode_connect_request_message r = r.dest >>= λ destination. r.type >>= λ connection_type.
    r.metadata >>= λ entries. decode_entries entries >>= λ metadata.
    ok
      (record { destination = destination; connection_type = connection_type; metadata = metadata })

unfoldable pub decode_connect_response_message : ConnectResponseReader → RpcResult ConnectResponse
unfolding decode_entries
decode_connect_response_message r = r.error >>= λ error. r.metadata >>= λ entries.
    decode_entries entries >>= λ metadata. ok (record { error = error; metadata = metadata })

unfoldable pub encode_connect_request : ConnectRequest → ConnectRequestMessage
encode_connect_request r = record {
  dest = r.destination;
  type = r.connection_type;
  metadata = r.metadata;
}

abbrev error_field : String → Option String
error_field error = if str_eq error "" then none else some error

unfoldable pub encode_connect_response : ConnectResponse → ConnectResponseMessage
encode_connect_response r = record { error = error_field r.error; metadata = r.metadata }

-- `root` is capnp's `get_root` with the accessors.
unfoldable pub read_connect_request :
    (Segments → RpcResult ConnectRequestReader) → Stream → RpcResult (ConnectRequest × Stream)
unfolding decode_connect_request_message
read_connect_request root s = read_message s >>= λ m.
    root m.0 >>= λ reader. decode_connect_request_message reader >>= λ request. ok (request, m.1)

unfoldable pub read_connect_response :
    (Segments → RpcResult ConnectResponseReader) → Stream → RpcResult (ConnectResponse × Stream)
unfolding decode_connect_response_message
read_connect_response root s = read_message s >>= λ m.
    root m.0 >>= λ reader. decode_connect_response_message reader >>= λ response. ok (response, m.1)

-- `serialize_message` is capnp's.
unfoldable write_connect_response :
    (ConnectResponseMessage → Bytes) → ConnectResponse → List WritePoll → Written
unfolding encode_connect_response
write_connect_response serialize_message r =
    write_all (serialize_message (encode_connect_response r))

unfoldable write_connect_request :
    (ConnectRequestMessage → Bytes) → ConnectRequest → List WritePoll → Written
unfolding encode_connect_request
write_connect_request serialize_message r = write_all (serialize_message (encode_connect_request r))
