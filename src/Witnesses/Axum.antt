-- ===== src/Witnesses/Axum.antt =====
-- The theorems on the bodies of axum responses at concrete inputs.
use libcfd.Prelude.{[], ◌≡◌, refl, ◌∷◌, ◌++◌, List, some, ok, arith, Bytes, drop, length}
use libcfd.Origin.Axum.{FramePoll, frame, frame_pending, new, collect}
use libcfd.Origin.Axum.Carried.{carried}
use libcfd.Origin.Axum.Collect.{whole, collect-carried, collect_loses}

abbrev frames : List FramePoll
frames = frame (1 ∷ 2 ∷ []) ∷ frame_pending ∷ frame (3 ∷ 4 ∷ 5 ∷ []) ∷ []

collect-carried_example : collect 9 (new frames) [] ≡ some (ok (carried 0 frames))
collect-carried_example = collect-carried 9 frames tt (unfold whole in omega arith)

abbrev hello : Bytes
hello = b'h' ∷ b'i' ∷ []

abbrev world : Bytes
world = b'y' ∷ b'o' ∷ b'u' ∷ []

collect_loses_example :
    collect 8 (new (frame hello ∷ frame world ∷ [])) []
    ≡ some (ok (hello ++ drop (length hello) world))
collect_loses_example = collect_loses 8 hello world (omega arith) (omega arith)

-- Of "hi" and "you" only "hiu" arrives.
lost : hello ++ drop (length hello) world ≡ b'h' ∷ b'i' ∷ b'u' ∷ []
lost = refl
