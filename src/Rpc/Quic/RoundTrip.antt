-- ===== src/Rpc/Quic/RoundTrip.antt =====
-- Connect requests and responses that are read back from the wire.
use libcfd.Prelude.{
  [], ℕ, String, Bool, true, false, List, ◌∷◌, ◌++◌, Option, none, some, ok, Bytes, str_eq, eq_iff,
  if◌then◌else◌, ◌≡◌, refl, sym,
}
use libcfd.Rpc.Error.{RpcResult}
use libcfd.Rpc.Io.{Segments, Stream}
use libcfd.Rpc.Io.Frame.{frame, IsFrameable}
use libcfd.Rpc.Io.Chunks.{content, IsSmooth}
use libcfd.Rpc.Io.RoundTrip.{read_message-frame}
use libcfd.Rpc.Quic.{
  ConnectRequest, ConnectResponse, ConnectRequestReader, ConnectResponseReader,
  ConnectRequestMessage, ConnectResponseMessage, Entries, decode_entries,
  decode_connect_request_message, decode_connect_response_message, encode_connect_request,
  encode_connect_response, read_connect_request, read_connect_response,
}

-- What capnp's accessors answer on a message as it was built; a null text reads as the empty one.
abbrev entries_of : List (String × String) → Entries
entries_of [] = []
entries_of ((key, val) ∷ metadata) = (ok key, ok val) ∷ entries_of metadata

abbrev text_of : Option String → String
text_of none = ""
text_of (some text) = text

abbrev pub request_reader : ConnectRequestMessage → ConnectRequestReader
request_reader m = record {
  dest = ok m.dest;
  type = ok m.type;
  metadata = ok (entries_of m.metadata);
}

abbrev response_reader : ConnectResponseMessage → ConnectResponseReader
response_reader m = record { error = ok (text_of m.error); metadata = ok (entries_of m.metadata) }

decode_entries-entries_of :
    (metadata : List (String × String)) → decode_entries (entries_of metadata) ≡ ok metadata
unfolding decode_entries
decode_entries-entries_of [] = refl
decode_entries-entries_of ((key, val) ∷ metadata) = rw (decode_entries-entries_of metadata)

text_of-error : (error : String) → text_of (if str_eq error "" then none else some error) ≡ error
text_of-error error = chosen (str_eq error "") refl
  where
    chosen : (b : Bool) → str_eq error "" ≡ b → text_of (if b then none else some error) ≡ error
    chosen true e = sym ((eq_iff error "").0 e)
    chosen false e = refl

-- A request that is written as a message within the reader's limits, and whose parts capnp reads
-- back, is read as it was however the transport cuts it, and the bytes behind it are left.
pub read_connect_request-encode :
    (r : ConnectRequest) (root : Segments → RpcResult ConnectRequestReader) (first : ℕ)
    (others : List ℕ) (words rest : Bytes) (s : Stream)
    → IsFrameable first others words
    → root (record { lengths = first ∷ others; words = words })
      ≡ ok (request_reader (encode_connect_request r))
    → IsSmooth s
    → content s ≡ frame first others words ++ rest
    → (s' : Stream) × (read_connect_request root s ≡ ok (r, s')) × IsSmooth s' × (content s' ≡ rest)
unfolding read_connect_request decode_connect_request_message encode_connect_request
read_connect_request-encode r root first others words rest s f read v e =
    let (s', m, v', e') = read_message-frame first others words rest s f v e in
    (s', rw (m, read, decode_entries-entries_of r.metadata), v', e')

-- The same of a response, whose error is left out when it is empty and read back as empty.
read_connect_response-encode :
    (r : ConnectResponse) (root : Segments → RpcResult ConnectResponseReader) (first : ℕ)
    (others : List ℕ) (words rest : Bytes) (s : Stream)
    → IsFrameable first others words
    → root (record { lengths = first ∷ others; words = words })
      ≡ ok (response_reader (encode_connect_response r))
    → IsSmooth s
    → content s ≡ frame first others words ++ rest
    → (s' : Stream) × (read_connect_response root s ≡ ok (r, s'))
      × IsSmooth s'
      × (content s' ≡ rest)
unfolding read_connect_response decode_connect_response_message encode_connect_response
read_connect_response-encode r root first others words rest s f read v e =
    let (s', m, v', e') = read_message-frame first others words rest s f v e in
    (s', rw (m, read, decode_entries-entries_of r.metadata, text_of-error r.error), v', e')
