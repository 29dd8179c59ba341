-- ===== src/Edge/Quic/Quiche/Wakers.antt =====
-- The maps from streams to the wakers that wait on them, and the set of streams, of
-- src/edge/quic/quiche/mod.rs.
use libcfd.Prelude.{
  [], ℕ, Bool, true, false, List, ◌∷◌, ◌++◌, Option, none, some, ◌==◌, if◌then◌else◌, ◌≡◌, ◌≢◌, ◌⊎◌,
  inl, inr, refl, ◌∙◌, ap, arith, Bool-cases,
}

-- `HashMap<u64, Waker>`: the streams with their tasks, each stream once.
abbrev pub WakerMap : Type 0
WakerMap = List (ℕ × ℕ)

unfoldable pub lookup : ℕ → WakerMap → Option ℕ
lookup i [] = none
lookup i ((j, w) ∷ wakers) = if i == j then some w else lookup i wakers

unfoldable pub remove : ℕ → WakerMap → WakerMap
remove i [] = []
remove i ((j, w) ∷ wakers) = let rest = remove i wakers in if i == j then rest else (j, w) ∷ rest

unfoldable pub insert : ℕ → ℕ → WakerMap → WakerMap
unfolding remove
insert i w wakers = (i, w) ∷ remove i wakers

-- `values()`.
unfoldable pub tasks : WakerMap → List ℕ
tasks [] = []
tasks ((j, w) ∷ wakers) = w ∷ tasks wakers

-- `remove` on a waker map answers the waker it took out, if there was one.
unfoldable pub taken : Option ℕ → List ℕ
taken none = []
taken (some w) = w ∷ []

-- Removes the wakers of these streams and collects them.
unfoldable pub remove_each : List ℕ → WakerMap → List ℕ × WakerMap
unfolding lookup remove taken
remove_each [] wakers = ([], wakers)
remove_each (i ∷ streams) wakers =
    let (rest, left) = remove_each streams (remove i wakers) in
    (taken (lookup i wakers) ++ rest, left)

-- `HashSet<u64>`.
unfoldable pub is_member : ℕ → List ℕ → Bool
is_member i [] = false
is_member i (j ∷ set) = if i == j then true else is_member i set

unfoldable pub remove_all : ℕ → List ℕ → List ℕ
remove_all i [] = []
remove_all i (j ∷ set) = let rest = remove_all i set in if i == j then rest else j ∷ rest

-- A waker that is registered for a stream stays so until its entry is taken out, and is then among
-- the wakers that were.
pub is_member-left :
    (i : ℕ) (xs ys : List ℕ) → is_member i xs ≡ true → is_member i (xs ++ ys) ≡ true
unfolding is_member
is_member-left i [] ys h = absurd cc
is_member-left i (x ∷ xs) ys h = let rest = is_member-left i xs ys in ground (arith, rest)

pub is_member-right :
    (i : ℕ) (xs ys : List ℕ) → is_member i ys ≡ true → is_member i (xs ++ ys) ≡ true
unfolding is_member
is_member-right i [] ys h = h
is_member-right i (x ∷ xs) ys h = let rest = is_member-right i xs ys h in ground (arith, rest)

pub lookup-tasks :
    (i w : ℕ) (wakers : WakerMap) → lookup i wakers ≡ some w → is_member w (tasks wakers) ≡ true
unfolding lookup tasks is_member
lookup-tasks i w [] h = absurd cc
lookup-tasks i w ((j, v) ∷ wakers) h = let rest = lookup-tasks i w wakers in ground (arith, rest)

pub lookup-remove :
    (i j : ℕ) (wakers : WakerMap) → i ≢ j → lookup i (remove j wakers) ≡ lookup i wakers
unfolding lookup remove
lookup-remove i j [] n = refl
lookup-remove i j ((k, v) ∷ wakers) n =
    let rest = lookup-remove i j wakers n in ground (arith, rest)

pub lookup-insert : (i w : ℕ) (wakers : WakerMap) → lookup i (insert i w wakers) ≡ some w
unfolding lookup insert
lookup-insert i w wakers = ground arith

pub lookup-insert_other :
    (i j w : ℕ) (wakers : WakerMap) → i ≢ j → lookup i (insert j w wakers) ≡ lookup i wakers
unfolding lookup insert
lookup-insert_other i j w wakers n = let rest = lookup-remove i j wakers n in ground (arith, rest)

taken-member : (w : ℕ) (o : Option ℕ) → o ≡ some w → is_member w (taken o) ≡ true
unfolding is_member taken
taken-member w none h = absurd cc
taken-member w (some v) h = ground (arith, h)

same : (i j : ℕ) → (i == j) ≡ true → j ≡ i
same i j h = ground arith

different : (i j : ℕ) → (i == j) ≡ false → i ≢ j
different i j h = ground arith

taken-same :
    (i j w : ℕ) (wakers : WakerMap)
    → (i == j) ≡ true
    → lookup i wakers ≡ some w
    → is_member w (taken (lookup j wakers)) ≡ true
taken-same i j w wakers e h =
    taken-member w (lookup j wakers) (ap (λ k. lookup k wakers) (same i j e) ∙ h)

pub lookup-remove_each :
    (i w : ℕ) (streams : List ℕ) (wakers : WakerMap)
    → lookup i wakers ≡ some w
    → (lookup i (remove_each streams wakers).1 ≡ some w)
      ⊎ (is_member w (remove_each streams wakers).0 ≡ true)
unfolding remove_each
lookup-remove_each i w [] wakers h = inl h
lookup-remove_each i w (j ∷ streams) wakers h = elim (Bool-cases (i == j)) [
  | inl e ↦ inr (is_member-left w (taken (lookup j wakers)) _ (taken-same i j w wakers e h))
  | inr n ↦
      elim (lookup-remove_each i w streams (remove j wakers)
        (lookup-remove i j wakers (different i j n) ∙ h)) [
          | inl l ↦ inl l
          | inr m ↦ inr (is_member-right w (taken (lookup j wakers)) _ m)
        ]
]

pub remove_each-member :
    (i w : ℕ) (streams : List ℕ) (wakers : WakerMap)
    → lookup i wakers ≡ some w
    → is_member i streams ≡ true
    → is_member w (remove_each streams wakers).0 ≡ true
unfolding remove_each is_member
remove_each-member i w [] wakers h m = absurd cc
remove_each-member i w (j ∷ streams) wakers h m = elim (Bool-cases (i == j)) [
  | inl e ↦ is_member-left w (taken (lookup j wakers)) _ (taken-same i j w wakers e h)
  | inr n ↦ is_member-right w (taken (lookup j wakers)) _ (
      remove_each-member i w streams (remove j wakers)
        (lookup-remove i j wakers (different i j n) ∙ h) (ground arith))
]
