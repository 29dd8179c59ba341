-- ===== src/Edge/H2/Streams/Answers.antt =====
-- How a stream of an HTTP/2 connection is answered.
use libcfd.Prelude.{
  [], ℕ, zero, suc, String, Bool, true, false, List, ◌∷◌, ◌++◌, Option, none, some, Result, ok, err,
  Bytes,
}
use libcfd.Prelude.Int.{ℤ}
use libcfd.Rpc.Server.{UpdateConfigurationResponse}
use libcfd.Edge.Configuration.{IngressRule, EdgeConfigurationHandler}
use libcfd.Edge.Error.{Error}
use libcfd.Edge.H2.{StreamType, http, websocket, tcp, configuration, control, classify}
use libcfd.Edge.H2.Headers.{encode_response_headers}
use libcfd.Origin.{HttpCrate, Response, WebSocketConnection, Origin, Handler, wait_outcome}
use libcfd.Origin.Body.{Body, from_reader, empty}
use libcfd.Edge.H2.Streams.{
  Frame, response, data_frame, end_stream, SendSide, Step, send, and_then, remap_status, H2Request,
  Answer, answered, pumps, after_headers, write_h2_headers, write_h2_response, write_h2_error,
}
use libcfd.Edge.H2.Streams.Handlers.{
  answer_http, request_of, handle_h2_http, answer_websocket, handle_h2_websocket, answer_tcp,
  handle_h2_tcp, send_reply, handle_h2_configuration, request_headers, handle_as, handle_stream,
  ack_response,
}
use libcfd.Prelude.{subst, sym, ◌≡◌, ◌≢◌, ◌⊎◌, inl, inr, refl, arith}
use libcfd.Edge.H2.Streams.{new_side, respond_by, copy_body, after_copy, error_response}

-- A response went out whole: alone with the end of the stream on it, or with data and an end behind.
-- Its status is not 101, which HTTP/2 has not.
unfoldable pub IsComplete : {H : Type 0} → SendSide H → Type 0
IsComplete {H = H} w =
    ((status : ℕ) × (headers : H) × (status ≢ 101) × (w.sent ≡ response status headers true ∷ []))
    ⊎ ((status : ℕ) × (headers : H) × (bytes : Bytes) × (status ≢ 101)
        × (w.sent ≡ response status headers false ∷ data_frame bytes ∷ end_stream ∷ []))

-- Whether a send is refused.
unfoldable pub refuses : List (Option Error) → Bool
refuses [] = false
refuses (none ∷ sends) = refuses sends
refuses (some e ∷ sends) = true

-- A response went out with its data, and its end did not.
unfoldable pub IsCut : {H : Type 0} → SendSide H → Type 0
IsCut {H = H} w =
    (status : ℕ) × (headers : H) × (bytes : Bytes) × (status ≢ 101)
    × (w.sent ≡ response status headers false ∷ data_frame bytes ∷ [])

-- Nothing that was sent ends the stream.
unfoldable IsUnended : {H : Type 0} → List (Frame H) → Type 0
IsUnended [] = Unit
IsUnended (response status headers ends ∷ sent) = (ends ≡ false) × IsUnended sent
IsUnended (data_frame bytes ∷ sent) = IsUnended sent
IsUnended (end_stream ∷ sent) = ⊥

-- A response went out and the stream is open for what follows.
unfoldable pub IsOpened : {H : Type 0} → SendSide H → Type 0
IsOpened {H = H} w =
    (status : ℕ) × (headers : H) × (status ≢ 101) × (w.sent ≡ response status headers false ∷ [])

unfoldable pub StepAnswers : {H : Type 0} → List (Option Error) → Step H → Type 0
unfolding IsComplete IsUnended IsCut refuses
StepAnswers sends (ok u, w) = IsComplete w ⊎ (IsCut w × (refuses sends ≡ true))
StepAnswers sends (err e, w) = IsUnended w.sent

-- `sends` are the outcomes of the sends that the handler begins with.
unfoldable pub AnswersOnce : {H S : Type 0} → List (Option Error) → Answer H S → Type 0
unfolding StepAnswers IsOpened
AnswersOnce sends (answered step) = StepAnswers sends step
AnswersOnce sends (pumps stream w) = IsOpened w

remapped : (status : ℕ) → remap_status status ≢ 101
unfolding remap_status
remapped status = ground arith

-- A response on a fresh stream, its end not yet on it.
unfoldable IsHeaded : {H : Type 0} → List (Option Error) → Step H → Type 0
unfolding IsOpened refuses
IsHeaded sends (ok u, w) = IsOpened w × ((refuses w.sends ≡ true) → refuses sends ≡ true)
IsHeaded sends (err e, w) = w.sent ≡ []

module _ {H R : Type 0} (crate : HttpCrate H) (encode_base64 : String → String)
    (content : Body R → Bytes × Option Error) where
  IsHeaded-fresh :
      (r : Response H R) (sends : List (Option Error))
      → IsHeaded sends (write_h2_headers crate encode_base64 content r (new_side sends))
  unfolding IsHeaded IsOpened write_h2_headers send refuses
  IsHeaded-fresh r [] = (
    (remap_status r.status, encode_response_headers crate encode_base64 r, remapped r.status, refl),
    (λ h. h),
  )
  IsHeaded-fresh r (none ∷ sends) = (
    (remap_status r.status, encode_response_headers crate encode_base64 r, remapped r.status, refl),
    (λ h. h),
  )
  IsHeaded-fresh r (some e ∷ sends) = refl

  ended :
      (status : ℕ) (headers : H) (bytes : Bytes) (outcome : Option Error)
      (all sends : List (Option Error))
      → status ≢ 101
      → ((refuses sends ≡ true) → refuses all ≡ true)
      → StepAnswers all (
          after_copy crate encode_base64 content outcome (record {
            sends = sends;
            sent = response status headers false ∷ data_frame bytes ∷ [];
          }))
  unfolding StepAnswers IsComplete IsCut IsUnended send refuses
  ended status headers bytes (some e) all sends n f = (refl, tt)
  ended status headers bytes none all [] n f = inl (inr (status, headers, bytes, n, refl))
  ended status headers bytes none all (none ∷ sends) n f =
      inl (inr (status, headers, bytes, n, refl))
  ended status headers bytes none all (some e ∷ sends) n f =
      inr ((status, headers, bytes, n, refl), f refl)

  copied :
      (all : List (Option Error)) (body : Body R) (step : Step H)
      → IsHeaded all step
      → StepAnswers all (and_then step (copy_body crate encode_base64 content body))
  unfolding IsHeaded IsOpened and_then
  copied all body (ok u, w) ((status, headers, n, s), f) =
      subst
        (λ sent. StepAnswers all (
          after_copy crate encode_base64 content (content body).1
            (record w { sent = sent ++ data_frame (content body).0 ∷ [] })))
        (sym s) (ended status headers (content body).0 (content body).1 all w.sends n f)
  copied all body (err e, w) s =
      unfold StepAnswers in subst IsUnended (sym s) (unfold IsUnended in tt)

  respond_by-answers :
      (hint : Option ℕ) (r : Response H R) (sends : List (Option Error))
      → StepAnswers sends (respond_by crate encode_base64 content hint r (new_side sends))
  respond_by-answers none r sends = copied sends r.body _ (IsHeaded-fresh r sends)
  respond_by-answers (some (suc n)) r sends = copied sends r.body _ (IsHeaded-fresh r sends)
  respond_by-answers (some zero) r [] =
      unfold StepAnswers IsComplete send in inl (inl (_, _, remapped r.status, refl))
  respond_by-answers (some zero) r (none ∷ sends) =
      unfold StepAnswers IsComplete send in inl (inl (_, _, remapped r.status, refl))
  respond_by-answers (some zero) r (some e ∷ sends) = unfold StepAnswers IsUnended send in tt

  write_h2_response-answers :
      (r : Response H R) (sends : List (Option Error))
      → StepAnswers sends (write_h2_response crate encode_base64 content r (new_side sends))
  unfolding write_h2_response
  write_h2_response-answers r sends = respond_by-answers r.body.size_hint r sends

  opened :
      {S : Type 0} (sends : List (Option Error)) (stream : S) (step : Step H)
      → IsHeaded sends step
      → AnswersOnce sends (after_headers stream step)
  unfolding IsHeaded AnswersOnce StepAnswers
  opened sends stream (ok u, w) (h, f) = h
  opened sends stream (err e, w) s = subst IsUnended (sym s) (unfold IsUnended in tt)

  module _ (as_bytes : String → Bytes) where
    write_h2_error-answers :
        (message : String) (sends : List (Option Error))
        → StepAnswers sends
            (write_h2_error crate encode_base64 content as_bytes message (new_side sends))
    unfolding write_h2_error
    write_h2_error-answers message sends =
        write_h2_response-answers (error_response crate encode_base64 content as_bytes message)
          sends

    answer_http-answers :
        (outcome : Result String (Response H R)) (sends : List (Option Error))
        → StepAnswers sends
            (answer_http crate encode_base64 content as_bytes outcome (new_side sends))
    unfolding answer_http
    answer_http-answers (err message) sends = write_h2_error-answers message sends
    answer_http-answers (ok r) sends = write_h2_response-answers r sends

    answer_websocket-answers :
        {S : Type 0} (outcome : Result String (WebSocketConnection H R S))
        (sends : List (Option Error))
        → AnswersOnce sends
            (answer_websocket crate encode_base64 content as_bytes outcome (new_side sends))
    unfolding answer_websocket
    answer_websocket-answers (err message) sends =
        unfold AnswersOnce in write_h2_error-answers message sends
    answer_websocket-answers (ok connection) sends =
        opened sends connection.origin _ (IsHeaded-fresh connection.response sends)

    websocket-answers :
        {S : Type 0} (handler : Option (Handler H R (WebSocketConnection H R S))) (r : H2Request H)
        (sends : List (Option Error))
        → AnswersOnce sends
            (handle_h2_websocket crate encode_base64 content as_bytes handler r (new_side sends))
    unfolding handle_h2_websocket
    websocket-answers none r sends = unfold AnswersOnce in write_h2_error-answers _ sends
    websocket-answers (some connects) r sends =
        answer_websocket-answers
          (wait_outcome (connects (request_of crate encode_base64 content as_bytes r empty))) sends

    answer_tcp-answers :
        {S : Type 0} (accept : String → String) (r : H2Request H) (outcome : Result String S)
        (sends : List (Option Error))
        → AnswersOnce sends
            (answer_tcp crate encode_base64 content as_bytes accept r outcome (new_side sends))
    unfolding answer_tcp
    answer_tcp-answers accept r (err message) sends =
        unfold AnswersOnce in write_h2_error-answers message sends
    answer_tcp-answers accept r (ok stream) sends =
        opened sends stream _
          (IsHeaded-fresh (ack_response crate encode_base64 content as_bytes accept r) sends)

    tcp-answers :
        {S : Type 0} (uri_host : String → Option String) (accept : String → String)
        (handler : Option (Handler H R S)) (r : H2Request H) (sends : List (Option Error))
        → AnswersOnce sends (
            handle_h2_tcp crate encode_base64 content as_bytes uri_host accept handler r
              (new_side sends))
    unfolding handle_h2_tcp
    tcp-answers uri_host accept none r sends = unfold AnswersOnce in write_h2_error-answers _ sends
    tcp-answers uri_host accept (some connects) r sends = answer_tcp-answers accept r _ sends

send_reply-answers :
    {H : Type 0} (crate : HttpCrate H) (reply : Bytes) (sends : List (Option Error))
    → StepAnswers sends (send_reply crate reply (new_side sends))
unfolding send_reply send and_then StepAnswers IsComplete IsCut IsUnended refuses
send_reply-answers crate reply [] =
    inl (inr (200, crate.empty_headers, reply, (λ e. omega arith), refl))
send_reply-answers crate reply (some e ∷ sends) = tt
send_reply-answers crate reply (none ∷ []) =
    inl (inr (200, crate.empty_headers, reply, (λ e. omega arith), refl))
send_reply-answers crate reply (none ∷ some e ∷ sends) = (refl, tt)
send_reply-answers crate reply (none ∷ none ∷ []) =
    inl (inr (200, crate.empty_headers, reply, (λ e. omega arith), refl))
send_reply-answers crate reply (none ∷ none ∷ some e ∷ sends) =
    inr ((200, crate.empty_headers, reply, (λ e. omega arith), refl), refl)
send_reply-answers crate reply (none ∷ none ∷ none ∷ sends) =
    inl (inr (200, crate.empty_headers, reply, (λ e. omega arith), refl))

configuration-answers :
    {H : Type 0} (crate : HttpCrate H) (parse_json : Bytes → Result String (List IngressRule))
    (parse_update : Bytes → Result String (ℤ × Bytes))
    (reply_text : UpdateConfigurationResponse → Bytes) (body : Result Error Bytes)
    (h : EdgeConfigurationHandler) (sends : List (Option Error))
    → StepAnswers sends
        (handle_h2_configuration crate parse_json parse_update reply_text body h (new_side sends)).0
unfolding handle_h2_configuration
configuration-answers crate parse_json parse_update reply_text (err e) h sends =
    unfold StepAnswers IsUnended in tt
configuration-answers crate parse_json parse_update reply_text (ok body) h sends =
    send_reply-answers crate _ sends

-- Whatever the origin answers and however the sends go, a stream that is not a control stream is
-- answered at most once. When its handler succeeds, one response of a status other than 101 was sent:
-- with the end of the stream, alone or behind data, or, only if some send was refused, with its data
-- and no end, or a pump follows the response. When the handler fails, nothing that was sent ends the
-- stream.
pub handle_stream-AnswersOnce :
    {H R S : Type 0} (crate : HttpCrate H) (encode_base64 : String → String)
    (content : Body R → Bytes × Option Error) (as_bytes : String → Bytes)
    (uri_host : String → Option String) (accept : String → String) (origin : Origin H R S)
    (parse_json : Bytes → Result String (List IngressRule))
    (parse_update : Bytes → Result String (ℤ × Bytes))
    (reply_text : UpdateConfigurationResponse → Bytes) (update : Result Error Bytes)
    (h : EdgeConfigurationHandler) (reader : R) (r : H2Request H) (sends : List (Option Error))
    → classify (request_headers crate r.headers) ≢ control
    → AnswersOnce sends (
        handle_stream crate encode_base64 content as_bytes uri_host accept origin
          (λ w. (handle_h2_configuration crate parse_json parse_update reply_text update h w).0)
          reader
          r
          (new_side sends))
unfolding handle_stream
handle_stream-AnswersOnce crate encode_base64 content as_bytes uri_host accept origin parse_json
      parse_update reply_text update h reader r sends n =
    by_kind (classify (request_headers crate r.headers)) n
  where
    by_kind :
        (kind : StreamType)
        → kind ≢ control
        → AnswersOnce sends (
            handle_as crate encode_base64 content as_bytes uri_host accept origin
              (λ w. (handle_h2_configuration crate parse_json parse_update reply_text update h w).0)
              kind
              reader
              r
              (new_side sends))
    by_kind http k =
        unfold AnswersOnce handle_as handle_h2_http in
        answer_http-answers crate encode_base64 content as_bytes
          (wait_outcome
            (origin.http (request_of crate encode_base64 content as_bytes r (from_reader reader))))
          sends
    by_kind websocket k =
        unfold handle_as in
        websocket-answers crate encode_base64 content as_bytes origin.websocket r sends
    by_kind tcp k =
        unfold handle_as in
        tcp-answers crate encode_base64 content as_bytes uri_host accept origin.tcp r sends
    by_kind configuration k =
        unfold AnswersOnce handle_as in
        configuration-answers crate parse_json parse_update reply_text update h sends
    by_kind control k = absurd (k refl)
