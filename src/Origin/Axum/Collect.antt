-- ===== src/Origin/Axum/Collect.antt =====
-- What `Body::collect` gives of the body of an axum response.
use libcfd.Prelude.{
  [], ℕ, zero, suc, ◌+◌, ◌≡◌, ◌≤◌, ◌<◌, refl, sym, ap, ◌∙◌, List, ◌∷◌, ◌++◌, some, inl, inr, ok,
  ltb, length, drop, arith, Bytes, Bool-cases, append_assoc, append-nil, length-append, length-drop,
  lt→ltb,
}
use libcfd.Prelude.Cuts.{drop-length}
use libcfd.Origin.Axum.{
  FramePoll, frame, frame_error, frame_pending, Polled, ready, failed, pending, AxumBodyReader, new,
  poll_read, copy_size, after_poll, collect,
}
use libcfd.Origin.Axum.Carried.{carried, held, content, AreFrames, IsReader, Takes, poll_read-Takes}

-- A turn of the copy, where what comes after it is copied.
after_poll-content :
    (fuel : ℕ) (r : AxumBodyReader) (collected : Bytes) (d : Polled Bytes × AxumBodyReader)
    → length r.stream + length (content r) < suc fuel
    → Takes (length r.stream) (content r) d
    → ((r' : AxumBodyReader) (collected' : Bytes)
        → IsReader r'
        → length r'.stream + length (content r') < fuel
        → collect fuel r' collected' ≡ some (ok (collected' ++ content r')))
    → after_poll (collect fuel) collected d ≡ some (ok (collected ++ content r))
after_poll-content fuel r collected (failed x, r') l t loop = absurd t
after_poll-content fuel r collected (pending, r') l (p, j, k) loop =
    loop r' collected j (omega (arith, ap length p)) ∙ ap (λ c. some (ok (collected ++ c))) (sym p)
after_poll-content fuel r collected (ready [], r') l (p, q, j, k) loop =
    ap (λ c. some (ok c)) (sym (ap (◌++◌ collected) (p ∙ q refl) ∙ append-nil collected))
after_poll-content fuel r collected (ready (b ∷ bytes), r') l (p, q, j, k) loop =
    loop r' (collected ++ b ∷ bytes) j
      (omega (arith, ap length p, length-append (b ∷ bytes) (content r')))
    ∙ ap (λ c. some (ok c))
        (append_assoc collected (b ∷ bytes) (content r') ∙ ap (◌++◌ collected) (sym p))

-- A reader of a stream that does not fail is read to its end: `collect` returns on fuel above the
-- polls and the bytes that are to come, and the bytes are what `carried` says.
collect-content :
    (fuel : ℕ) (r : AxumBodyReader) (collected : Bytes)
    → IsReader r
    → length r.stream + length (content r) < fuel
    → collect fuel r collected ≡ some (ok (collected ++ content r))
unfolding collect
collect-content zero r collected i l = absurd (omega arith)
collect-content (suc fuel) r collected i l =
    after_poll-content fuel r collected (poll_read copy_size r) l
      (poll_read-Takes copy_size r (omega arith) i)
      (λ r' collected'. collect-content fuel r' collected')

-- The bytes of the chunks.
unfoldable pub whole : List FramePoll → Bytes
whole [] = []
whole (frame chunk ∷ stream) = chunk ++ whole stream
whole (frame_error e ∷ stream) = whole stream
whole (frame_pending ∷ stream) = whole stream

carried-length :
    (position : ℕ) (stream : List FramePoll)
    → length (carried position stream) ≤ length (whole stream)
unfolding carried whole
carried-length position [] = omega arith
carried-length position (frame chunk ∷ stream) = ground (
  arith,
  length-append (drop position chunk) (carried (length chunk) stream),
  length-append chunk (whole stream),
  length-drop position chunk,
  carried-length (length chunk) stream,
  carried-length 0 stream,
)
carried-length position (frame_error e ∷ stream) = carried-length position stream
carried-length position (frame_pending ∷ stream) = carried-length position stream

-- Where the stream of an axum response does not fail, `collect` of its body returns on fuel above the
-- polls and the bytes of the chunks; the bytes it returns are those of `carried`, which reads each
-- chunk from where the one before ended.
pub collect-carried :
    (fuel : ℕ) (stream : List FramePoll)
    → AreFrames stream
    → length stream + length (whole stream) < fuel
    → collect fuel (new stream) [] ≡ some (ok (carried 0 stream))
unfolding held
collect-carried fuel stream a l =
    collect-content fuel (new stream) [] (tt, a, λ z. absurd (cc z))
      (omega (arith, carried-length 0 stream))

second_chunk :
    (chunk other : Bytes) → carried (length chunk) (frame other ∷ []) ≡ drop (length chunk) other
unfolding carried
second_chunk chunk other = elim (Bool-cases (ltb (length chunk) (length other))) [
  | inl longer ↦ rw longer (append-nil (drop (length chunk) other))
  | inr over ↦
      let short : length other ≤ length chunk = ground arith in
      rw over (sym (drop-length (length chunk) other short))
]

-- Of two chunks of which the first is not empty, the second comes without its front as long as the
-- first.
pub collect_loses :
    (fuel : ℕ) (chunk other : Bytes)
    → 0 < length chunk
    → 2 + (length chunk + length other) < fuel
    → collect fuel (new (frame chunk ∷ frame other ∷ [])) []
      ≡ some (ok (chunk ++ drop (length chunk) other))
unfolding carried whole
collect_loses fuel chunk other h l =
    collect-carried fuel (frame chunk ∷ frame other ∷ []) tt
      (omega (arith, length-append chunk (other ++ []), ap length (append-nil other)))
    ∙ ap (λ c. some (ok c))
        (rw (lt→ltb 0 (length chunk) h) (ap (◌++◌ chunk) (second_chunk chunk other)))
