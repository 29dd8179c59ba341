-- ===== src/Prelude/Text.antt =====
-- Rust's `str` as the list of its code points, with the operations of the standard library that the
-- program uses on it.
use Prim.Native.Char.{code}
use Prim.Native.String.{String, char_at, [] as nil, ◌∷◌ as cons}
use libcfd.Prelude.{
  [], ℕ, zero, suc, ◌/◌, ◌%◌, ◌+◌, ◌-◌, ◌*◌, Bool, true, false, ◌&&◌, ◌||◌, List, ◌∷◌, Option, none,
  some, if◌then◌else◌, leb, ltb, ◌==◌, Bytes,
}

abbrev pub Text : Type 0
Text = List ℕ

-- The code points of a literal.
abbrev pub codes : String → Text
codes nil = []
codes (cons c s) = code c ∷ codes s

abbrev within : ℕ → ℕ → ℕ → Bool
within low high b = leb low b && leb b high

abbrev is_continuation : ℕ → Bool
is_continuation = within 0x80 0xbf

abbrev pub push_code : ℕ → Option Text → Option Text
push_code c none = none
push_code c (some text) = some (c ∷ text)

-- `str::from_utf8`: the well-formed sequences of one to four bytes.
unfoldable pub from_utf8 : Bytes → Option Text
from_utf8 [] = some []
from_utf8 (a ∷ []) = if ltb a 0x80 then some (a ∷ []) else none
from_utf8 (a ∷ b ∷ []) =
    let rest = from_utf8 (b ∷ []) in
    if ltb a 0x80
    then push_code a rest
    else if within 0xc2 0xdf a && is_continuation b
    then some (((a - 0xc0) * 64 + (b - 0x80)) ∷ [])
    else none
from_utf8 (a ∷ b ∷ c ∷ []) =
    let rest = from_utf8 (b ∷ c ∷ []) in
    let rest_two = from_utf8 (c ∷ []) in
    if ltb a 0x80
    then push_code a rest
    else if within 0xc2 0xdf a && is_continuation b
    then push_code ((a - 0xc0) * 64 + (b - 0x80)) rest_two
    else if within 0xe0 0xef a
        && within (if a == 0xe0 then 0xa0 else 0x80) (if a == 0xed then 0x9f else 0xbf) b
        && is_continuation c
    then some (((a - 0xe0) * 4_096 + (b - 0x80) * 64 + (c - 0x80)) ∷ [])
    else none
from_utf8 (a ∷ b ∷ c ∷ d ∷ bytes) =
    let rest = from_utf8 (b ∷ c ∷ d ∷ bytes) in
    let rest_two = from_utf8 (c ∷ d ∷ bytes) in
    let rest_three = from_utf8 (d ∷ bytes) in
    let rest_four = from_utf8 bytes in
    if ltb a 0x80
    then push_code a rest
    else if within 0xc2 0xdf a && is_continuation b
    then push_code ((a - 0xc0) * 64 + (b - 0x80)) rest_two
    else if within 0xe0 0xef a
        && within (if a == 0xe0 then 0xa0 else 0x80) (if a == 0xed then 0x9f else 0xbf) b
        && is_continuation c
    then push_code ((a - 0xe0) * 4_096 + (b - 0x80) * 64 + (c - 0x80)) rest_three
    else if within 0xf0 0xf4 a
        && within (if a == 0xf0 then 0x90 else 0x80) (if a == 0xf4 then 0x8f else 0xbf) b
        && is_continuation c
        && is_continuation d
    then push_code ((a - 0xf0) * 262_144 + (b - 0x80) * 4_096 + (c - 0x80) * 64 + (d - 0x80))
        rest_four
    else none

-- `char::is_whitespace`.
unfoldable pub is_whitespace : ℕ → Bool
is_whitespace c =
    within 9 13 c
    || c == 32
    || c == 0x85
    || c == 0xa0
    || c == 0x1680
    || within 0x2000 0x200a c
    || c == 0x2028
    || c == 0x2029
    || c == 0x202f
    || c == 0x205f
    || c == 0x3000

unfoldable pub trim_start : Text → Text
trim_start [] = []
trim_start (c ∷ text) = if is_whitespace c then trim_start text else c ∷ text

abbrev keep_end : ℕ → Text → Text
keep_end c [] = if is_whitespace c then [] else c ∷ []
keep_end c (d ∷ text) = c ∷ d ∷ text

unfoldable pub trim_end : Text → Text
trim_end [] = []
trim_end (c ∷ text) = keep_end c (trim_end text)

unfoldable pub trim : Text → Text
unfolding trim_start trim_end
trim text = trim_end (trim_start text)

abbrev pub push_front : ℕ → List Text → List Text
push_front c [] = (c ∷ []) ∷ []
push_front c (part ∷ parts) = (c ∷ part) ∷ parts

-- `split` at a pattern of one code point.
unfoldable pub split_at : (ℕ → Bool) → Text → List Text
split_at separates [] = [] ∷ []
split_at separates (c ∷ text) =
    let rest = split_at separates text in if separates c then [] ∷ rest else push_front c rest

-- `split` at a pattern of two code points.
unfoldable pub split_pair : ℕ → ℕ → Text → List Text
split_pair a b [] = [] ∷ []
split_pair a b (c ∷ []) = (c ∷ []) ∷ []
split_pair a b (c ∷ d ∷ text) =
    let after = split_pair a b text in
    let rest = split_pair a b (d ∷ text) in
    if c == a && d == b then [] ∷ after else push_front c rest

abbrev non_empty : List Text → List Text
non_empty [] = []
non_empty ([] ∷ parts) = non_empty parts
non_empty ((c ∷ part) ∷ parts) = (c ∷ part) ∷ non_empty parts

unfoldable pub split_whitespace : Text → List Text
unfolding split_at is_whitespace
split_whitespace text = non_empty (split_at is_whitespace text)

abbrev push_once : ℕ → Option (Text × Text) → Option (Text × Text)
push_once c none = none
push_once c (some (front, back)) = some (c ∷ front, back)

unfoldable pub split_once : ℕ → Text → Option (Text × Text)
split_once separator [] = none
split_once separator (c ∷ text) =
    let rest = split_once separator text in
    if c == separator then some ([], text) else push_once c rest

unfoldable pub to_ascii_lowercase : ℕ → ℕ
to_ascii_lowercase c = if within b'A' b'Z' c then c + 32 else c

unfoldable pub eq_ignore_ascii_case : Text → Text → Bool
unfolding to_ascii_lowercase
eq_ignore_ascii_case [] [] = true
eq_ignore_ascii_case [] (d ∷ other) = false
eq_ignore_ascii_case (c ∷ text) [] = false
eq_ignore_ascii_case (c ∷ text) (d ∷ other) =
    to_ascii_lowercase c == to_ascii_lowercase d && eq_ignore_ascii_case text other

-- Digits onto a number that has to stay within the type.
unfoldable pub parse_digits : ℕ → ℕ → Text → Option ℕ
parse_digits maximum n [] = some n
parse_digits maximum n (c ∷ text) =
    let n' = n * 10 + (c - b'0') in
    let rest = parse_digits maximum n' text in
    if within b'0' b'9' c && leb n' maximum then rest else none

-- `parse` into an unsigned integer: digits, after a `+` if there is one.
unfoldable pub parse_uint : ℕ → Text → Option ℕ
unfolding parse_digits
parse_uint maximum [] = none
parse_uint maximum (c ∷ []) = parse_digits maximum 0 (c ∷ [])
parse_uint maximum (c ∷ d ∷ text) =
    parse_digits maximum 0 (if c == b'+' then d ∷ text else c ∷ d ∷ text)

-- A number in decimal, on fuel of at least its digits.
abbrev decimal_from : ℕ → ℕ → String → String
decimal_from zero n digits = digits
decimal_from (suc fuel) n digits =
    let digits' = cons (char_at "0123456789" (n % 10)) digits in
    let rest = decimal_from fuel (n / 10) digits' in if ltb n 10 then digits' else rest

unfoldable pub decimal : ℕ → String
decimal n = decimal_from 20 n ""
