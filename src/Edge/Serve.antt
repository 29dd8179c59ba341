-- ===== src/Edge/Serve.antt =====
-- src/edge/serve.rs: serving a stream that the edge opened. The read side of a stream is the answers
-- of its polls; of the write side, the outcome of each coming write is given.
pub mod Metadata
pub mod Opens
pub mod Answers
pub mod Headers
pub mod Requests
pub mod Active
use libcfd.Prelude.{
  [], ℕ, String, Bool, true, false, not, List, ◌∷◌, ◌++◌, Option, none, some, Result, ok, err,
  ◌>>=◌, Bytes, str_append, str_eq, ◌==◌, ◌&&◌, if◌then◌else◌,
}
use libcfd.Rpc.Error.{RpcError, RpcResult}
use libcfd.Rpc.Io.{Segments, Stream}
use libcfd.Rpc.Quic.{
  data_stream_protocol_signature, rpc_stream_protocol_signature, protocol_v1, http_status_key,
  ConnectRequest, ConnectResponse, ConnectRequestReader, ConnectionType, http, websocket, tcp,
  default_response, read_connect_request,
}
use libcfd.Rpc.Server.{Frame, serve_cloudflared}
use libcfd.Edge.Configuration.{IngressRule, EdgeConfigurationHandler, edge_configuration_handler}
use libcfd.Edge.Error.{Error, edge, quic, control, io}
use libcfd.Edge.Serve.Opens.{Opening, opens_rpc, opens_data, from_rpc}
use libcfd.Edge.Serve.Metadata.{build_request, encode_response_metadata}
use libcfd.Origin.{
  HttpCrate, Request, Response, WebSocketConnection, Origin, Handler, wait_outcome, tcp_request,
}
use libcfd.Origin.Body.{Body, from_reader}

-- What is written to a stream, in order.
pub data Piece : Type 0 where
  raw : Bytes → Piece
  connect_response : ConnectResponse → Piece

-- The write side, shared by the clones of the stream. `writes` has the outcome of each coming write;
-- past the list writes succeed.
pub record Writer : Type 0 where
  pub writes : List (Option Error)
  pub sent : List Piece
  pub finished : Bool
  pub cancelled : Bool
  -- The drain of the unread request body is started.
  pub drains : Bool

abbrev pub new_writer : List (Option Error) → Writer
new_writer writes = record {
  writes = writes;
  sent = [];
  finished = false;
  cancelled = false;
  drains = false;
}

-- A step that writes: its result, and the write side after it.
abbrev pub Step : Type 0
Step = Result Error (Unit {0}) × Writer

abbrev took : Piece → List (Option Error) → Writer → Step
took piece writes w = (ok tt, record w { writes = writes; sent = w.sent ++ piece ∷ [] })

abbrev write_next : List (Option Error) → Piece → Writer → Step
write_next [] piece w = took piece [] w
write_next (none ∷ writes) piece w = took piece writes w
write_next (some e ∷ writes) piece w = (err e, record w { writes = writes })

unfoldable pub write : Piece → Writer → Step
write piece w = write_next w.writes piece w

-- `?` between two steps.
unfoldable pub and_then : Step → (Writer → Step) → Step
and_then (ok u, w) next = next w
and_then (err e, w) next = (err e, w)

unfoldable pub cancel_write : Writer → Writer
cancel_write w = record w { cancelled = true }

unfoldable pub write_response_preamble : ConnectResponse → Writer → Step
unfolding write and_then
write_response_preamble response w =
    and_then (write (raw data_stream_protocol_signature) w)
      (λ w₁. and_then (write (raw protocol_v1) w₁) (write (connect_response response)))

unfoldable pub write_stream_error : String → Writer → Step
unfolding write_response_preamble and_then cancel_write
write_stream_error message w =
    and_then
      (write_response_preamble
        (record { error = message; metadata = (http_status_key, "502") ∷ [] }) w)
      (λ w'. (ok tt, cancel_write w'))

-- What serving a stream comes to: a result, or a pump between the stream and one of the origin's,
-- which returns no error.
pub data Answer (S : Type 0) : Type 0 where
  answered : Step → Answer S
  pumps : S → Writer → Answer S

-- `content` is what copying a body to the end puts on the stream, and its outcome.
module _ {H R : Type 0} (crate : HttpCrate H) (content : Body R → Bytes × Option Error) where
  -- The copy of the body, and what follows it.
  abbrev pub after_copy : Option Error → Writer → Step
  after_copy none w = (ok tt, record w { drains = true; finished = true })
  after_copy (some e) w = (err e, cancel_write w)

  abbrev copy_body : Body R → Writer → Step
  copy_body body w =
      let (bytes, outcome) = content body in
      after_copy outcome (record w { sent = w.sent ++ raw bytes ∷ [] })

  abbrev pub after_preamble : Body R → Step → Step
  after_preamble body (ok u, w) = copy_body body w
  after_preamble body (err e, w) = (err e, cancel_write w)

  unfoldable pub send_response : Result String (Response H R) → Writer → Step
  unfolding write_stream_error write_response_preamble cancel_write
  send_response (err message) w = write_stream_error message w
  send_response (ok response) w = after_preamble response.body (
      write_response_preamble
        (record { error = ""; metadata = encode_response_metadata crate response }) w)

  unfoldable pub serve_http :
      {S : Type 0} → Origin H R S → R → Result Error (Request H R) → Writer → Step
  unfolding send_response
  serve_http origin reader (err e) w = (err e, w)
  serve_http origin reader (ok request) w =
      send_response (wait_outcome (origin.http (record request { body = from_reader reader }))) w

  -- The request's body reads the stream itself: `reader`.
  unfoldable pub handle_quic_http : {S : Type 0} → Origin H R S → R → ConnectRequest → Writer → Step
  unfolding serve_http
  handle_quic_http origin reader connect w =
      serve_http origin reader (build_request crate connect) w

abbrev pub after_upgrade : {S : Type 0} → S → Step → Answer S
after_upgrade stream (ok u, w) = pumps stream w
after_upgrade stream (err e, w) = answered (err e, w)

unfoldable pub open_tcp : {S : Type 0} → Result String S → Writer → Answer S
unfolding write_stream_error write_response_preamble
open_tcp (err message) w = answered (write_stream_error message w)
open_tcp (ok stream) w = after_upgrade stream (write_response_preamble default_response w)

module _ {H R S : Type 0} (crate : HttpCrate H) where
  unfoldable pub upgrade : Result String (WebSocketConnection H R S) → Writer → Answer S
  unfolding write_stream_error write_response_preamble
  upgrade (err message) w = answered (write_stream_error message w)
  upgrade (ok connection) w = after_upgrade connection.origin (
      write_response_preamble
        (record { error = ""; metadata = encode_response_metadata crate connection.response }) w)

  unfoldable pub connect_websocket :
      Handler H R (WebSocketConnection H R S) → Result Error (Request H R) → Writer → Answer S
  unfolding upgrade
  connect_websocket connects (err e) w = answered (err e, w)
  connect_websocket connects (ok request) w = upgrade (wait_outcome (connects request)) w

  unfoldable pub handle_quic_websocket : Origin H R S → ConnectRequest → Writer → Answer S
  unfolding connect_websocket write_stream_error
  handle_quic_websocket origin connect w = elim origin.websocket [
    | none ↦ answered (write_stream_error "no websocket origin handler" w)
    | some connects ↦ connect_websocket connects (build_request crate connect) w
  ]

  unfoldable pub handle_quic_tcp : Origin H R S → ConnectRequest → Writer → Answer S
  unfolding open_tcp write_stream_error
  handle_quic_tcp origin connect w = elim origin.tcp [
    | none ↦ answered (write_stream_error "no tcp origin handler" w)
    | some connects ↦ open_tcp (wait_outcome (connects (tcp_request crate connect.destination))) w
  ]

-- `parse_json` reads a pushed configuration; `frames` are the messages on the stream.
unfoldable handle_rpc_stream :
    (Bytes → Result String (List IngressRule))
    → List (RpcResult Frame)
    → List (Option RpcError)
    → EdgeConfigurationHandler
    → Result Error (Unit {0}) × EdgeConfigurationHandler
handle_rpc_stream parse_json frames writes h =
    let served = serve_cloudflared (edge_configuration_handler parse_json) frames writes h in
    (from_rpc served.result, served.state)

-- What serving a stream comes to.
pub data Served (S : Type 0) : Type 0 where
  refused : Error → Served S
  served_rpc : Result Error (Unit {0}) → EdgeConfigurationHandler → Served S
  served_data : Answer S → Served S

module _ {H R S : Type 0} (crate : HttpCrate H) (content : Body R → Bytes × Option Error)
    (reader : Stream → R) (origin : Origin H R S) where
  unfoldable pub handle_data : ConnectRequest → Stream → Writer → ConnectionType → Answer S
  unfolding handle_quic_http handle_quic_websocket handle_quic_tcp
  handle_data connect s w http =
      answered (handle_quic_http crate content origin (reader s) connect w)
  handle_data connect s w websocket = handle_quic_websocket crate origin connect w
  handle_data connect s w tcp = handle_quic_tcp crate origin connect w

  unfoldable serve_stream :
      (Bytes → Result String (List IngressRule))
      → (Stream → List (RpcResult Frame))
      → Result Error Opening
      → Writer
      → List (Option RpcError)
      → EdgeConfigurationHandler
      → Served S
  unfolding handle_rpc_stream handle_data
  serve_stream parse_json frames (err e) w replies h = refused e
  serve_stream parse_json frames (ok (opens_rpc s)) w replies h =
      let (result, h') = handle_rpc_stream parse_json (frames s) replies h in served_rpc result h'
  serve_stream parse_json frames (ok (opens_data connect s)) w replies h =
      served_data (handle_data connect s w connect.connection_type)
