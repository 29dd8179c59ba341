-- ===== src/Edge/Serve/Answers.antt =====
-- How a data stream is answered.
use libcfd.Prelude.{[], ◌≡◌, ◌≤◌, ◌⊎◌, String, true, false, List, ◌∷◌, ◌++◌, ok, err, Bytes, length}
use libcfd.Rpc.Quic.{data_stream_protocol_signature, protocol_v1, http_status_key, ConnectResponse}
use libcfd.Edge.Error.{Error}
use libcfd.Edge.Serve.{Piece, raw, connect_response, Writer, Step, Answer, answered, pumps}
use libcfd.Origin.{Origin}
use libcfd.Origin.Body.{Body}

-- The pieces of a response.
abbrev preamble : ConnectResponse → List Piece
preamble response =
    raw data_stream_protocol_signature ∷ raw protocol_v1 ∷ connect_response response ∷ []

-- The whole response and its body were written, and then the end of the stream.
unfoldable pub IsComplete : Writer → Type 0
IsComplete w =
    (w.finished ≡ true)
    × (w.cancelled ≡ false)
    × ((metadata : List (String × String)) × (body : Bytes) × (w.sent
          ≡ preamble (record { error = ""; metadata = metadata }) ++ raw body ∷ []))

-- One error response was written, and then the reset.
unfoldable IsRefused : Writer → Type 0
IsRefused w =
    (w.finished ≡ false)
    × (w.cancelled ≡ true)
    × ((message : String) × (w.sent
          ≡ preamble (record { error = message; metadata = (http_status_key, "502") ∷ [] })))

-- The response is written and the stream is open for the bytes that follow it.
unfoldable pub IsOpened : Writer → Type 0
IsOpened w =
    (w.finished ≡ false)
    × (w.cancelled ≡ false)
    × ((metadata : List (String × String)) × (w.sent
          ≡ preamble (record { error = ""; metadata = metadata })))

-- What a step is to leave: after a failure the stream has no end, and it has no response either or
-- it is reset.
unfoldable pub StepAnswers : Step → Type 0
unfolding IsComplete IsRefused
StepAnswers (ok u, w) = IsComplete w ⊎ IsRefused w
StepAnswers (err e, w) = (w.finished ≡ false) × ((w.cancelled ≡ true) ⊎ (length w.sent ≤ 2))

unfoldable pub AnswersOnce : {S : Type 0} → Answer S → Type 0
unfolding StepAnswers IsOpened
AnswersOnce (answered step) = StepAnswers step
AnswersOnce (pumps stream w) = IsOpened w

-- The preamble of a response on a fresh stream.
unfoldable IsPreamble : ConnectResponse → Step → Type 0
IsPreamble r (ok u, w) = (w.finished ≡ false) × (w.cancelled ≡ false) × (w.sent ≡ preamble r)
IsPreamble r (err e, w) = (w.finished ≡ false) × (w.cancelled ≡ false) × (length w.sent ≤ 2)
