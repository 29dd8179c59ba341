-- ===== src/Edge/Discovery/Responses.antt =====
-- `parse_srv_response` reads back the response of a server.
use libcfd.Prelude.{
  [], ℕ, suc, ◌+◌, ◌/◌, ◌%◌, ◌≡◌, ◌≤◌, refl, sym, ap, ◌∙◌, List, ◌∷◌, ◌++◌, some, ok, length, arith,
  Bytes, append_assoc, length-append, map,
}
use libcfd.Edge.Discovery.{
  split, encode_name, skip_name, u16_at, then_with, SrvRecord, parse_records, parse_srv_response,
}
use libcfd.Edge.Discovery.Names.{AreKept, decode_name-encode_name}
use libcfd.Edge.Discovery.Skips.{decode_name-skip_name}
use libcfd.Edge.Discovery.Records.{
  Target, answers, AreTargets, halves, equals_itself, ltb-false, parse_records-answers,
}

-- The response to a question: a header with the identifier and the number of answers, the question, and
-- a record per target.
abbrev pub header : ℕ → ℕ → Bytes
header identifier count =
    (identifier / 256)
    ∷ (identifier % 256)
    ∷ 129
    ∷ 128
    ∷ 0
    ∷ 1
    ∷ (count / 256)
    ∷ (count % 256)
    ∷ 0
    ∷ 0
    ∷ 0
    ∷ 0
    ∷ []

unfoldable pub response : ℕ → Bytes → List Target → Bytes
response identifier question targets =
    header identifier (length targets) ++ (question ++ 0 ∷ 0 ∷ 33 ∷ 0 ∷ 1 ∷ answers targets)

parse_srv_response-at :
    (lossy : Bytes → Bytes) (fuel : ℕ) (bytes : Bytes) (identifier position count : ℕ)
    {records : List SrvRecord}
    → 12 ≤ length bytes
    → u16_at bytes 0 ≡ identifier
    → skip_name bytes 12 ≡ some (ok position)
    → u16_at bytes 6 ≡ count
    → parse_records lossy fuel bytes count (position + 4) ≡ some (ok records)
    → parse_srv_response lossy fuel bytes identifier ≡ some (ok records)
unfolding parse_srv_response then_with
parse_srv_response-at lossy fuel bytes identifier position count l i s c r =
    rw (ltb-false (length bytes) 12 l, i, equals_itself identifier, s, c) r

every-AreKept : (labels : List Bytes) → AreKept (λ label. label) labels
unfolding AreKept
every-AreKept [] = tt
every-AreKept (label ∷ labels) = (refl, every-AreKept labels)

-- The question is skipped.
skip_name-encode_name :
    (name pre post : Bytes) {encoded : Bytes}
    → encode_name [] name ≡ ok encoded
    → skip_name (pre ++ (encoded ++ 0 ∷ post)) (length pre)
      ≡ some (ok (length pre + length encoded + 1))
skip_name-encode_name name pre post {encoded} h =
    decode_name-skip_name (λ label. label) (suc (length (split name)))
      (pre ++ (encoded ++ 0 ∷ post)) (length pre) []
      (decode_name-encode_name (λ label. label) (suc (length (split name))) name pre post h
        (every-AreKept (split name)) (omega arith))

-- On fuel above the number of labels of each target, the response that a server makes to a
-- question, with the query's identifier and one SRV record for each target, whose names are encoded
-- by `encode_name` and kept by the lossy conversion, is parsed to the hosts and the ports of the
-- targets, in their order.
pub parse_srv_response-response :
    (from_utf8_lossy : Bytes → Bytes) (fuel identifier : ℕ) (name : Bytes) (targets : List Target)
    {question : Bytes}
    → encode_name [] name ≡ ok question
    → AreTargets from_utf8_lossy fuel targets
    → parse_srv_response from_utf8_lossy fuel (response identifier question targets) identifier
      ≡ some (ok (map (λ t. (t.host, t.port)) targets))
unfolding response
parse_srv_response-response from_utf8_lossy fuel identifier name targets {question} h a =
    let front = header identifier (length targets) in
    let rest = 0 ∷ 33 ∷ 0 ∷ 1 ∷ answers targets in
    let bytes = response identifier question targets in
    let pre = front ++ (question ++ 0 ∷ 0 ∷ 33 ∷ 0 ∷ 1 ∷ []) in
    let behind =
      ap (λ b. front ++ b)
        (sym (append_assoc question (0 ∷ 0 ∷ 33 ∷ 0 ∷ 1 ∷ []) (answers targets))) in
    let size = length-append question (0 ∷ 0 ∷ 33 ∷ 0 ∷ 1 ∷ []) in
    parse_srv_response-at from_utf8_lossy fuel bytes identifier (12 + length question + 1)
      (length targets) (omega arith) (halves identifier) (skip_name-encode_name name front rest h)
      (halves (length targets))
      (ap (parse_records from_utf8_lossy fuel bytes (length targets)) (omega arith)
        ∙ parse_records-answers from_utf8_lossy fuel targets bytes pre behind a)
