-- ===== src/Edge/H2/Streams.antt =====
-- src/edge/h2/streams.rs: the handlers of the streams of an HTTP/2 connection. Of the write side, the
-- outcome of each coming send is given.
pub mod Handlers
pub mod Answers
use libcfd.Prelude.{
  [], ℕ, zero, suc, String, Bool, true, false, List, ◌∷◌, ◌++◌, Option, none, some, Result, ok, err,
  Bytes, str_append, ◌==◌, length, if◌then◌else◌,
}
use libcfd.Prelude.Int.{ℤ, negsuc}
use libcfd.Rpc.Server.{UpdateConfigurationResponse}
use libcfd.Edge.Configuration.{IngressRule, EdgeConfigurationHandler, update_configuration}
use libcfd.Edge.Error.{Error, edge, h2 as h2_error}
use libcfd.Edge.H2.{
  StreamType, http, websocket, tcp, configuration, control, RequestHeaders, classify,
}
use libcfd.Edge.H2.Headers.{encode_response_headers, text_or_empty}
use libcfd.Edge.Serve.Metadata.{u64_to_string}
use libcfd.Origin.{
  HttpCrate, Request, Response, WebSocketConnection, Origin, Handler, wait_outcome, tcp_request,
}
use libcfd.Origin.Body.{Body, from_reader, from_bytes, empty}
use libcfd.Origin.Pump.{websocket_accept}

-- What is sent on a stream, in order: the response with whether it ends the stream, data, and the end.
pub data Frame (H : Type 0) : Type 0 where
  response : ℕ → H → Bool → Frame H
  data_frame : Bytes → Frame H
  end_stream : Frame H

-- The send side of a stream. `sends` has the outcome of each coming send; past the list they succeed.
pub record SendSide (H : Type 0) : Type 0 where
  pub sends : List (Option Error)
  pub sent : List (Frame H)

abbrev pub new_side : {H : Type 0} → List (Option Error) → SendSide H
new_side sends = record { sends = sends; sent = [] }

abbrev pub Step : Type 0 → Type 0
Step H = Result Error (Unit {0}) × SendSide H

abbrev send_next : {H : Type 0} → List (Option Error) → Frame H → SendSide H → Step H
send_next [] frame w = (ok tt, record w { sent = w.sent ++ frame ∷ [] })
send_next (none ∷ sends) frame w = (ok tt, record { sends = sends; sent = w.sent ++ frame ∷ [] })
send_next (some e ∷ sends) frame w = (err e, record w { sends = sends })

unfoldable pub send : {H : Type 0} → Frame H → SendSide H → Step H
send frame w = send_next w.sends frame w

-- The end of the stream, by `SendStreamWriter::poll_close`: an error of the send is dropped.
abbrev pub send_end : {H : Type 0} → SendSide H → Step H
send_end w = (ok tt, (send end_stream w).1)

-- `?` between two steps.
unfoldable pub and_then : {H : Type 0} → Step H → (SendSide H → Step H) → Step H
and_then (ok u, w) next = next w
and_then (err e, w) next = (err e, w)

unfoldable pub remap_status : ℕ → ℕ
remap_status status = if status == 101 then 200 else status

-- A request of the edge, with what the reads of its body come to.
pub record H2Request (H : Type 0) : Type 0 where
  pub method : String
  pub uri : String
  pub headers : H

-- What serving a stream comes to: a result, or a pump between the stream and one of the origin's,
-- which returns no error.
pub data Answer (H S : Type 0) : Type 0 where
  answered : Step H → Answer H S
  pumps : S → SendSide H → Answer H S

abbrev pub after_headers : {H S : Type 0} → S → Step H → Answer H S
after_headers stream (ok u, w) = pumps stream w
after_headers stream (err e, w) = answered (err e, w)

-- `content` is what copying a body to the end puts on the stream, and its outcome; `encode_base64`,
-- `sha1`, `as_bytes` and `uri_host` are those of the crates.
module _ {H R : Type 0} (crate : HttpCrate H) (encode_base64 : String → String)
    (content : Body R → Bytes × Option Error) where
  unfoldable pub write_h2_headers : Response H R → SendSide H → Step H
  unfolding send remap_status
  write_h2_headers r w =
      send (response (remap_status r.status) (encode_response_headers crate encode_base64 r) false)
        w

  abbrev pub after_copy : Option Error → SendSide H → Step H
  after_copy none w = send_end w
  after_copy (some e) w = (err e, w)

  abbrev pub copy_body : Body R → SendSide H → Step H
  copy_body body w =
      let (bytes, outcome) = content body in
      after_copy outcome (record w { sent = w.sent ++ data_frame bytes ∷ [] })

  abbrev pub respond_by : Option ℕ → Response H R → SendSide H → Step H
  respond_by (some zero) r w =
      send (response (remap_status r.status) (encode_response_headers crate encode_base64 r) true) w
  respond_by _ r w = and_then (write_h2_headers r w) (copy_body r.body)

  unfoldable pub write_h2_response : Response H R → SendSide H → Step H
  unfolding write_h2_headers and_then send remap_status
  write_h2_response r w = respond_by r.body.size_hint r w

  abbrev pub error_response : (String → Bytes) → String → Response H R
  error_response as_bytes message = record {
    status = 502;
    headers =
        crate.insert "content-length" (u64_to_string (length (as_bytes message)))
          (crate.insert "content-type" "text/plain" crate.empty_headers);
    body = from_bytes (as_bytes message);
  }

  unfoldable pub write_h2_error : (String → Bytes) → String → SendSide H → Step H
  unfolding write_h2_response
  write_h2_error as_bytes message w = write_h2_response (error_response as_bytes message) w
