-- ===== src/Tunnel/Quick/Response/Plain.antt =====
-- Texts of a line: how they decode and how they are split.
use libcfd.Prelude.{
  [], ℕ, ◌<◌, ◌≡◌, ◌≢◌, refl, ap, ◌∙◌, ◌∷◌, ◌++◌, some, arith, false, lt→ltb, ◌==◌,
}
use libcfd.Prelude.Text.{Text, from_utf8, push_code, split_pair, split_once, push_front}

-- ASCII without a carriage return.
abbrev pub IsPlain : Text → Type 0
IsPlain [] = Unit
IsPlain (c ∷ text) = (c < 128) × (c ≢ b'\r') × IsPlain text

abbrev pub Lacks : ℕ → Text → Type 0
Lacks separator [] = Unit
Lacks separator (c ∷ text) = (c ≢ separator) × Lacks separator text

from_utf8-cons :
    (a : ℕ) (text : Text) → a < 128 → from_utf8 (a ∷ text) ≡ push_code a (from_utf8 text)
unfolding from_utf8
from_utf8-cons a [] h = rw (lt→ltb a 128 h)
from_utf8-cons a (b ∷ []) h = rw (lt→ltb a 128 h)
from_utf8-cons a (b ∷ c ∷ []) h = rw (lt→ltb a 128 h)
from_utf8-cons a (b ∷ c ∷ d ∷ text) h = rw (lt→ltb a 128 h)

abbrev pub IsAscii : Text → Type 0
IsAscii [] = Unit
IsAscii (c ∷ text) = (c < 128) × IsAscii text

pub from_utf8-ascii : (text : Text) → IsAscii text → from_utf8 text ≡ some text
from_utf8-ascii [] h = unfold from_utf8 in refl
from_utf8-ascii (c ∷ text) (a, h) = from_utf8-cons c text a ∙ rw (from_utf8-ascii text h)

==_ne : (c d : ℕ) → c ≢ d → (c == d) ≡ false
==_ne c d n = ground arith

pub split_pair-plain : (line : Text) → IsPlain line → split_pair b'\r' b'\n' line ≡ line ∷ []
unfolding split_pair
split_pair-plain [] h = refl
split_pair-plain (c ∷ []) h = refl
split_pair-plain (c ∷ d ∷ line) (a, n, h) = ground (arith, split_pair-plain (d ∷ line) h)

split_pair-cons :
    (c : ℕ) (text : Text)
    → c ≢ b'\r'
    → (d : ℕ)
    → split_pair b'\r' b'\n' (c ∷ d ∷ text) ≡ push_front c (split_pair b'\r' b'\n' (d ∷ text))
unfolding split_pair
split_pair-cons c text n d = rw (==_ne c b'\r' n)

pub split_pair-line :
    (line rest : Text)
    → IsPlain line
    → split_pair b'\r' b'\n' (line ++ b'\r' ∷ b'\n' ∷ rest) ≡ line ∷ split_pair b'\r' b'\n' rest
unfolding split_pair
split_pair-line [] rest h = refl
split_pair-line (c ∷ []) rest (a, n, h) =
    split_pair-cons c (b'\n' ∷ rest) n b'\r' ∙ ap (push_front c) (split_pair-line [] rest h)
split_pair-line (c ∷ d ∷ line) rest (a, n, h) =
    split_pair-cons c (line ++ b'\r' ∷ b'\n' ∷ rest) n d
    ∙ ap (push_front c) (split_pair-line (d ∷ line) rest h)

pub split_once-Lacks :
    (separator : ℕ) (front back : Text)
    → Lacks separator front
    → split_once separator (front ++ separator ∷ back) ≡ some (front, back)
unfolding split_once
split_once-Lacks separator [] back h = ground arith
split_once-Lacks separator (c ∷ front) back (n, h) =
    ground (arith, split_once-Lacks separator front back h)

pub IsPlain-append : (xs ys : Text) → IsPlain xs → IsPlain ys → IsPlain (xs ++ ys)
IsPlain-append [] ys h k = k
IsPlain-append (x ∷ xs) ys (a, n, h) k = (a, n, IsPlain-append xs ys h k)
