-- ===== src/Edge/H2/Streams/Handlers.antt =====
-- src/edge/h2/streams.rs: the handler of each kind of stream.
use libcfd.Prelude.{
  String, Bool, true, false, List, Option, none, some, Result, ok, err, Bytes, str_append,
}
use libcfd.Prelude.Int.{ℤ, negsuc}
use libcfd.Rpc.Server.{UpdateConfigurationResponse}
use libcfd.Edge.Configuration.{IngressRule, EdgeConfigurationHandler, update_configuration}
use libcfd.Edge.Error.{Error}
use libcfd.Edge.H2.{
  StreamType, http, websocket, tcp, configuration, control, RequestHeaders, classify,
}
use libcfd.Edge.H2.Headers.{text_or_empty}
use libcfd.Origin.{
  HttpCrate, Request, Response, WebSocketConnection, Origin, Handler, wait_outcome, tcp_request,
}
use libcfd.Origin.Body.{Body, from_reader, empty}
use libcfd.Edge.H2.Streams.{
  send_end, response, data_frame, SendSide, Step, send, and_then, H2Request, Answer, answered,
  after_headers, write_h2_headers, write_h2_response, write_h2_error,
}

abbrev internal_upgrade_header : String
internal_upgrade_header = "cf-cloudflared-proxy-connection-upgrade"

abbrev internal_tcp_src_header : String
internal_tcp_src_header = "cf-cloudflared-proxy-src"

abbrev pub text : Option (Option String) → Option String
text none = none
text (some value) = value

abbrev is_some : {A : Type 0} → Option A → Bool
is_some none = false
is_some (some a) = true

-- `content` is what copying a body to the end puts on the stream, and its outcome; `encode_base64`
-- and `as_bytes` are the crates' and the library's.
module _ {H R : Type 0} (crate : HttpCrate H) (encode_base64 : String → String)
    (content : Body R → Bytes × Option Error) (as_bytes : String → Bytes) where
  unfoldable pub answer_http : Result String (Response H R) → SendSide H → Step H
  unfolding write_h2_error write_h2_response
  answer_http (err message) w = write_h2_error crate encode_base64 content as_bytes message w
  answer_http (ok r) w = write_h2_response crate encode_base64 content r w

  unfoldable pub request_of : H2Request H → Body R → Request H R
  request_of r body = record {
    method = r.method;
    uri = r.uri;
    headers = crate.remove internal_upgrade_header r.headers;
    body = body;
  }

  unfoldable pub handle_h2_http :
      {S : Type 0} → Origin H R S → R → H2Request H → SendSide H → Step H
  unfolding answer_http request_of
  handle_h2_http origin reader r w =
      answer_http (wait_outcome (origin.http (request_of r (from_reader reader)))) w

  unfoldable pub answer_websocket :
      {S : Type 0} → Result String (WebSocketConnection H R S) → SendSide H → Answer H S
  unfolding write_h2_error write_h2_headers
  answer_websocket (err message) w =
      answered (write_h2_error crate encode_base64 content as_bytes message w)
  answer_websocket (ok connection) w =
      after_headers connection.origin
        (write_h2_headers crate encode_base64 content connection.response w)

  unfoldable pub handle_h2_websocket :
      {S : Type 0}
      → Option (Handler H R (WebSocketConnection H R S))
      → H2Request H
      → SendSide H
      → Answer H S
  unfolding answer_websocket write_h2_error request_of
  handle_h2_websocket none r w =
      answered (write_h2_error crate encode_base64 content as_bytes "no websocket origin handler" w)
  handle_h2_websocket (some connects) r w =
      answer_websocket (wait_outcome (connects (request_of r empty))) w

  abbrev host_or : Option (Option String) → Option String → String
  host_or (some host) uri_host = text_or_empty host
  host_or none uri_host = text_or_empty uri_host

  -- `accept` is `websocket_accept`.
  abbrev ack_headers : (String → String) → Option String → H
  ack_headers accept none = crate.empty_headers
  ack_headers accept (some key) =
      crate.insert "sec-websocket-accept" (accept key) (
        crate.insert "upgrade" "websocket"
          (crate.insert "connection" "Upgrade" crate.empty_headers))

  abbrev pub ack_response : (String → String) → H2Request H → Response H R
  ack_response accept r = record {
    status = 101;
    headers = ack_headers accept (text (crate.get "sec-websocket-key" r.headers));
    body = empty;
  }

  unfoldable pub answer_tcp :
      {S : Type 0} → (String → String) → H2Request H → Result String S → SendSide H → Answer H S
  unfolding write_h2_error write_h2_headers
  answer_tcp accept r (err message) w =
      answered (write_h2_error crate encode_base64 content as_bytes message w)
  answer_tcp accept r (ok stream) w =
      after_headers stream (write_h2_headers crate encode_base64 content (ack_response accept r) w)

  unfoldable pub handle_h2_tcp :
      {S : Type 0}
      → (String → Option String)
      → (String → String)
      → Option (Handler H R S)
      → H2Request H
      → SendSide H
      → Answer H S
  unfolding answer_tcp write_h2_error
  handle_h2_tcp uri_host accept none r w =
      answered (write_h2_error crate encode_base64 content as_bytes "no tcp origin handler" w)
  handle_h2_tcp uri_host accept (some connects) r w =
      answer_tcp accept r
        (wait_outcome
          (connects (tcp_request crate (host_or (crate.get "host" r.headers) (uri_host r.uri)))))
        w

unfoldable pub send_reply : {H : Type 0} → HttpCrate H → Bytes → SendSide H → Step H
unfolding send and_then
send_reply crate reply w =
    and_then (send (response 200 crate.empty_headers false) w)
      (λ w₁. and_then (send (data_frame reply) w₁) send_end)

-- `parse_update` reads the body into the version and the JSON of the configuration; `reply_text` is
-- the JSON of the answer.
module _ {H : Type 0} (crate : HttpCrate H) (parse_json : Bytes → Result String (List IngressRule))
    (parse_update : Bytes → Result String (ℤ × Bytes))
    (reply_text : UpdateConfigurationResponse → Bytes) where
  unfoldable apply_update :
      Result String (ℤ × Bytes)
      → EdgeConfigurationHandler
      → UpdateConfigurationResponse × EdgeConfigurationHandler
  apply_update (ok (version, update)) h = update_configuration parse_json h version update
  apply_update (err e) h = (
    record {
      latest_applied_version = negsuc 0;
      error = str_append "config update body is not valid JSON: " e;
    },
    h,
  )

  -- The body as it was read to its end.
  unfoldable pub handle_h2_configuration :
      Result Error Bytes → EdgeConfigurationHandler → SendSide H → Step H × EdgeConfigurationHandler
  unfolding apply_update send_reply
  handle_h2_configuration (err e) h w = ((err e, w), h)
  handle_h2_configuration (ok body) h w =
      let (reply, h') = apply_update (parse_update body) h in
      (send_reply crate (reply_text reply) w, h')

unfoldable pub request_headers : {H : Type 0} → HttpCrate H → H → RequestHeaders
request_headers crate headers = record {
  internal_upgrade = text (crate.get internal_upgrade_header headers);
  has_tcp_src = is_some (crate.get internal_tcp_src_header headers);
}

-- What all the streams of a connection share, and what is particular to one.
module _ {H R S : Type 0} (crate : HttpCrate H) (encode_base64 : String → String)
    (content : Body R → Bytes × Option Error) (as_bytes : String → Bytes)
    (uri_host : String → Option String) (accept : String → String) (origin : Origin H R S)
    (configures : SendSide H → Step H) where
  unfoldable pub handle_as : StreamType → R → H2Request H → SendSide H → Answer H S
  unfolding handle_h2_http handle_h2_websocket handle_h2_tcp
  handle_as http reader r w =
      answered (handle_h2_http crate encode_base64 content as_bytes origin reader r w)
  handle_as websocket reader r w =
      handle_h2_websocket crate encode_base64 content as_bytes origin.websocket r w
  handle_as tcp reader r w =
      handle_h2_tcp crate encode_base64 content as_bytes uri_host accept origin.tcp r w
  handle_as configuration reader r w = answered (configures w)
  handle_as control reader r w = answered (ok tt, w)

  unfoldable pub handle_stream : R → H2Request H → SendSide H → Answer H S
  unfolding handle_as request_headers
  handle_stream reader r w = handle_as (classify (request_headers crate r.headers)) reader r w
