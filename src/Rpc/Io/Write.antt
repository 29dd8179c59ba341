-- ===== src/Rpc/Io/Write.antt =====
-- What reaches the transport when a message is written, however the transport takes it.
use libcfd.Prelude.{
  [], ℕ, ◌≡◌, refl, sym, List, ◌∷◌, ◌++◌, inl, inr, ◌==◌, min, length, take, drop, Bytes,
  append_assoc, take-append-drop, Bool-cases, subst,
}
use libcfd.Rpc.Io.{
  WritePoll, wrote, refused, Written, done, failed_after, pending, prefixed, write_all,
}

-- All of the bytes after success; a front part of them after a failure or while the write waits.
abbrev pub Took : Bytes → Written → Type 0
Took bytes (done w polls) = w ≡ bytes
Took bytes (failed_after w e) = (rest : Bytes) × (bytes ≡ w ++ rest)
Took bytes (pending w) = (rest : Bytes) × (bytes ≡ w ++ rest)

prefixed-Took :
    (front back : Bytes) (w : Written) → Took back w → Took (front ++ back) (prefixed front w)
prefixed-Took front back (done w polls) t = rw t
prefixed-Took front back (failed_after w e) (rest, t) =
    (rest, rw t (sym (append_assoc front w rest)))
prefixed-Took front back (pending w) (rest, t) = (rest, rw t (sym (append_assoc front w rest)))

write_all-wrote :
    (b : ℕ) (bs : Bytes) (k : ℕ) (polls : List WritePoll)
    → Took
        (drop (min k (length (b ∷ bs))) (b ∷ bs))
        (write_all (drop (min k (length (b ∷ bs))) (b ∷ bs)) polls)
    → Took (b ∷ bs) (write_all (b ∷ bs) (wrote k ∷ polls))
unfolding write_all
write_all-wrote b bs k polls t =
    let n = min k (length (b ∷ bs)) in
    elim (Bool-cases (n == 0)) [
      | inl stuck ↦ rw stuck (b ∷ bs, refl)
      | inr moved ↦ rw moved (
          subst (λ x. Took x (prefixed (take n (b ∷ bs)) (write_all (drop n (b ∷ bs)) polls)))
            (take-append-drop n (b ∷ bs)) (prefixed-Took (take n (b ∷ bs)) (drop n (b ∷ bs)) _ t))
    ]

-- When `write_all` succeeds the transport has taken exactly the message, and when it fails or
-- still waits the transport has taken a front part of it: no byte is lost, doubled or reordered.
pub write_all-Took : (polls : List WritePoll) (bytes : Bytes) → Took bytes (write_all bytes polls)
unfolding write_all
write_all-Took polls [] = refl
write_all-Took [] (b ∷ bs) = (b ∷ bs, refl)
write_all-Took (refused e ∷ polls) (b ∷ bs) = (b ∷ bs, refl)
write_all-Took (wrote k ∷ polls) (b ∷ bs) =
    write_all-wrote b bs k polls (write_all-Took polls (drop (min k (length (b ∷ bs))) (b ∷ bs)))
