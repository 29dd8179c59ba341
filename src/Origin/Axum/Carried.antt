-- ===== src/Origin/Axum/Carried.antt =====
-- What the reader of an axum body delivers: the position in a chunk is carried over into the next.
use libcfd.Prelude.{
  [], ℕ, suc, ◌+◌, ◌-◌, ◌≡◌, ◌≤◌, ◌<◌, refl, sym, ap, ◌∙◌, Bool, true, false, subst, List, ◌∷◌,
  ◌++◌, Option, none, some, inl, inr, ltb, if◌then◌else◌, min, length, take, drop, arith, Bytes,
  Bool-cases, append_assoc, append-nil, ltb→lt, lt→ltb,
}
use libcfd.Prelude.Cuts.{front, front_not_nil, drop-length}
use libcfd.Origin.Axum.{
  FramePoll, frame, frame_error, frame_pending, Polled, ready, failed, pending, AxumBodyReader,
  deliver, next_frame, read_held, poll_read,
}

-- The bytes of the chunks from a position on: each chunk is read from where the one before ended, and
-- one that is no longer is left out.
unfoldable pub carried : ℕ → List FramePoll → Bytes
carried position [] = []
carried position (frame_error e ∷ stream) = carried position stream
carried position (frame_pending ∷ stream) = carried position stream
carried position (frame chunk ∷ stream) =
    let rest = carried (length chunk) stream in
    let rest_over = carried 0 stream in
    if ltb position (length chunk) then drop position chunk ++ rest else rest_over

unfoldable pub held : Option Bytes → ℕ → List FramePoll → Bytes
unfolding carried
held none position stream = carried position stream
held (some chunk) position stream = drop position chunk ++ carried (length chunk) stream

abbrev pub content : AxumBodyReader → Bytes
content r = held r.chunk r.position r.stream

-- A stream that does not fail.
abbrev pub AreFrames : List FramePoll → Type 0
AreFrames [] = Unit
AreFrames (frame chunk ∷ stream) = AreFrames stream
AreFrames (frame_error e ∷ stream) = ⊥
AreFrames (frame_pending ∷ stream) = AreFrames stream

abbrev pub IsHeld : Option Bytes → ℕ → Type 0
IsHeld none position = Unit
IsHeld (some chunk) position = position < length chunk

abbrev pub IsReader : AxumBodyReader → Type 0
IsReader r =
    IsHeld r.chunk r.position
    × AreFrames r.stream
    × ((r.eof ≡ true) → (r.chunk ≡ none) × (r.stream ≡ []))

-- What a poll takes off, with `k` the polls that were to come.
abbrev pub Takes : ℕ → Bytes → Polled Bytes × AxumBodyReader → Type 0
Takes k before (ready bytes, r) =
    (before ≡ bytes ++ content r)
    × ((bytes ≡ []) → content r ≡ [])
    × IsReader r
    × (length r.stream ≤ k)
Takes k before (failed e, r) = ⊥
Takes k before (pending, r) = (before ≡ content r) × IsReader r × (length r.stream < k)

whole_chunk :
    (chunk : Bytes) (n position : ℕ) (stream : List FramePoll)
    → position + n ≤ length chunk
    → ltb (position + n) (length chunk) ≡ false
    → drop position chunk ++ carried (length chunk) stream
      ≡ take n (drop position chunk) ++ carried (position + n) stream
whole_chunk chunk n position stream hl done =
    let ends : length chunk ≡ position + n = ground arith in
    let all =
      front chunk position n
      ∙ ap (◌++◌ (take n (drop position chunk))) (drop-length (position + n) chunk (omega arith))
      ∙ append-nil (take n (drop position chunk)) in
    ap (λ d. d ++ carried (length chunk) stream) all
    ∙ ap (λ m. take n (drop position chunk) ++ carried m stream) ends

at_end : (r : AxumBodyReader) → r.chunk ≡ none → r.stream ≡ [] → content r ≡ []
unfolding held
at_end r n z = ap (λ c. held c r.position r.stream) n ∙ ap (carried r.position) z

deliver-Takes :
    (chunk : Bytes) (size k : ℕ) (r : AxumBodyReader)
    → r.position < length chunk
    → 0 < size
    → r.eof ≡ false
    → AreFrames r.stream
    → length r.stream ≤ k
    → Takes k
        (drop r.position chunk ++ carried (length chunk) r.stream)
        (deliver chunk (min (length chunk - r.position) size) r)
unfolding deliver held
deliver-Takes chunk size k r p h e a l =
    chosen (min (length chunk - r.position) size) (omega arith) (omega arith)
  where
    chosen :
        (n : ℕ)
        → 0 < n
        → r.position + n ≤ length chunk
        → Takes k (drop r.position chunk ++ carried (length chunk) r.stream) (deliver chunk n r)
    chosen n hn hl =
        let at = r.position in
        let rest = carried (length chunk) r.stream in
        let cut = front chunk at n in
        let some_bytes = front_not_nil chunk at n hn hl in
        elim (Bool-cases (ltb (at + n) (length chunk))) [
          | inl more ↦ rw more (
            ap (λ d. d ++ rest) cut
                ∙ append_assoc (take n (drop at chunk)) (drop (at + n) chunk) rest,
            λ z. absurd (some_bytes z),
            (ltb→lt (at + n) (length chunk) more, a, λ z. absurd (cc (z, e))),
            l,
          )
          | inr done ↦ rw done (
            whole_chunk chunk n r.position r.stream hl done,
            λ z. absurd (some_bytes z),
            (tt, a, λ z. absurd (cc (z, e))),
            l,
          )
        ]

next_frame-Takes :
    (stream : List FramePoll) (size : ℕ) (r : AxumBodyReader)
    → 0 < size
    → r.eof ≡ false
    → AreFrames stream
    → Takes (length stream) (carried r.position stream) (next_frame stream size r)
unfolding next_frame carried held
next_frame-Takes [] size r h e a = (refl, (λ z. refl), (tt, tt, λ z. (refl, refl)), omega arith)
next_frame-Takes (frame_error x ∷ stream) size r h e a = absurd a
next_frame-Takes (frame_pending ∷ stream) size r h e a =
    (refl, (tt, a, λ z. absurd (cc (z, e))), omega arith)
next_frame-Takes (frame chunk ∷ stream) size r h e a =
    elim (Bool-cases (ltb r.position (length chunk))) [
      | inl more ↦ rw more (
          deliver-Takes chunk size (suc (length stream)) (record r { stream = stream })
            (ltb→lt r.position (length chunk) more) h e a (omega arith))
      | inr over ↦ rw over (
          weaker (carried 0 stream) (next_frame stream size (record r { position = 0 }))
            (next_frame-Takes stream size (record r { position = 0 }) h e a))
    ]
  where
    weaker :
        (before : Bytes) (d : Polled Bytes × AxumBodyReader)
        → Takes (length stream) before d
        → Takes (suc (length stream)) before d
    weaker before (ready bytes, r') (p, q, i, l) = (p, q, i, omega arith)
    weaker before (failed x, r') t = absurd t
    weaker before (pending, r') (p, i, l) = (p, i, omega arith)

read_held-Takes :
    (chunk : Option Bytes) (size : ℕ) (r : AxumBodyReader)
    → IsHeld chunk r.position
    → 0 < size
    → r.eof ≡ false
    → AreFrames r.stream
    → Takes (length r.stream) (held chunk r.position r.stream) (read_held chunk size r)
unfolding read_held held
read_held-Takes none size r i h e a = next_frame-Takes r.stream size r h e a
read_held-Takes (some chunk) size r i h e a =
    rw (lt→ltb r.position (length chunk) i)
      (deliver-Takes chunk size (length r.stream) r i h e a (omega arith))

pub poll_read-Takes :
    (size : ℕ) (r : AxumBodyReader)
    → 0 < size
    → IsReader r
    → Takes (length r.stream) (content r) (poll_read size r)
unfolding poll_read
poll_read-Takes size r h (i, a, f) = elim (Bool-cases r.eof) [
  | inl end ↦ polled end (refl, (λ z. at_end r (f end).0 (f end).1), (i, a, f), omega arith)
  | inr going ↦ polled going (read_held-Takes r.chunk size r i h going a)
]
  where
    polled :
        {b : Bool}
        → r.eof ≡ b
        → Takes
            (length r.stream)
            (content r)
            (if b then (ready [], r) else read_held r.chunk size r)
        → Takes
            (length r.stream)
            (content r)
            (if r.eof then (ready [], r) else read_held r.chunk size r)
    polled e t =
        subst
          (λ c.
            Takes (length r.stream) (content r)
              (if c then (ready [], r) else read_held r.chunk size r))
          (sym e) t
