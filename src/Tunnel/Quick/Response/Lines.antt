-- ===== src/Tunnel/Quick/Response/Lines.antt =====
-- The lines of a response: its status line and its headers, each read back.
use libcfd.Prelude.{
  [], ℕ, ◌+◌, ◌*◌, ◌<◌, ◌≡◌, refl, sym, ap, ◌∙◌, List, ◌∷◌, ◌++◌, Option, none, some, ok, arith,
  Bytes, true, false, length, take, append_assoc, append-nil, subst, map, take-append, Bool-cases,
  inl, inr, if◌then◌else◌,
}
use libcfd.Prelude.Text.{
  Text, codes, split_pair, split_at, split_whitespace, is_whitespace, split_once, trim, trim_start,
  eq_ignore_ascii_case, parse_uint, parse_digits,
}
use libcfd.Tunnel.Quick.Response.{
  parse_status, Headers, add_header, read_headers, cut_body, content_length_name,
}
use libcfd.Tunnel.Quick.Response.Plain.{
  IsPlain, Lacks, IsAscii, split_pair-plain, split_pair-line, split_once-Lacks, IsPlain-append,
}

is_whitespace-digit : (a : ℕ) → a < 10 → is_whitespace (48 + a) ≡ false
unfolding is_whitespace
is_whitespace-digit a h = ground arith

-- A status line: the version, three digits and a reason.
unfoldable pub status_line : ℕ → ℕ → ℕ → Text → Text
status_line a b c reason = codes "HTTP/1.1 " ++ (48 + a) ∷ (48 + b) ∷ (48 + c) ∷ 32 ∷ reason

parse_uint-three :
    (a b c : ℕ)
    → a < 10
    → b < 10
    → c < 10
    → parse_uint 65_535 ((48 + a) ∷ (48 + b) ∷ (48 + c) ∷ []) ≡ some (100 * a + 10 * b + c)
unfolding parse_uint parse_digits
parse_uint-three a b c ha hb hc = ground arith

pub parse_status-status_line :
    (a b c : ℕ) (reason : Text)
    → a < 10
    → b < 10
    → c < 10
    → parse_status (status_line a b c reason) ≡ ok (100 * a + 10 * b + c)
unfolding parse_status status_line split_whitespace split_at
parse_status-status_line a b c reason ha hb hc = rw (
  is_whitespace-digit a ha,
  is_whitespace-digit b hb,
  is_whitespace-digit c hc,
  parse_uint-three a b c ha hb hc,
)

-- A header line.
unfoldable pub header_line : Text × Text → Text
header_line (name, value) = name ++ b':' ∷ b' ' ∷ value

-- A header whose name and value are texts of a line that need no trimming.
unfoldable pub IsHeader : Text × Text → Type 0
IsHeader (name, value) =
    IsPlain name × Lacks b':' name × (trim name ≡ name) × IsPlain value × (trim value ≡ value)

unfoldable pub AreHeaders : List (Text × Text) → Type 0
AreHeaders [] = Unit
AreHeaders (header ∷ headers) = IsHeader header × AreHeaders headers

-- Every header that gives a length gives this one.
unfoldable pub Announce : ℕ → List (Text × Text) → Type 0
Announce n [] = Unit
Announce n ((name, value) ∷ headers) =
    (eq_ignore_ascii_case name content_length_name ≡ true
      → parse_uint 18_446_744_073_709_551_615 value ≡ some n)
    × Announce n headers

-- No length, or this one.
abbrev IsLength : ℕ → Option ℕ → Type 0
IsLength n none = Unit
IsLength n (some m) = m ≡ n

pub cut_body-all : (o : Option ℕ) (body : Bytes) → IsLength (length body) o → cut_body o body ≡ body
unfolding cut_body
cut_body-all none body h = refl
cut_body-all (some n) body h =
    let whole : take (length body) body ≡ body =
      ap (take (length body)) (sym (append-nil body)) ∙ take-append body [] in
    ground (arith, h, whole)

trim_space : (text : Text) → trim (32 ∷ text) ≡ trim text
unfolding trim trim_start is_whitespace
trim_space text = refl

abbrev pub added : Headers → Text → Text → Headers
added h name value = record {
  headers = h.headers ++ (name, value) ∷ [];
  content_length =
      if eq_ignore_ascii_case name content_length_name
      then parse_uint 18_446_744_073_709_551_615 value
      else h.content_length;
}

add_header-line :
    (h : Headers) (name value : Text)
    → IsHeader (name, value)
    → add_header h (split_once b':' (header_line (name, value))) ≡ added h name value
unfolding header_line IsHeader
add_header-line h name value (pn, ln, tn, pv, tv) =
    ap (add_header h) (split_once-Lacks b':' name (32 ∷ value) ln) ∙ rw (trim_space value, tn, tv)

added-IsLength :
    (h : Headers) (n : ℕ) (name value : Text)
    → (eq_ignore_ascii_case name content_length_name ≡ true
        → parse_uint 18_446_744_073_709_551_615 value ≡ some n)
    → IsLength n h.content_length
    → IsLength n (added h name value).content_length
added-IsLength h n name value l i =
    elim (Bool-cases (eq_ignore_ascii_case name content_length_name)) [
      | inl is ↦ rw (is, l is) refl
      | inr is ↦ rw is i
    ]

pub read_headers-lines :
    (headers : List (Text × Text)) (n : ℕ) (h : Headers)
    → AreHeaders headers
    → Announce n headers
    → IsLength n h.content_length
    → let read = read_headers h (map header_line headers) in
      (read.headers ≡ h.headers ++ headers) × IsLength n read.content_length
unfolding read_headers AreHeaders Announce
read_headers-lines [] n h a l i = (sym (append-nil h.headers), i)
read_headers-lines ((name, value) ∷ headers) n h (is, a) (l, ls) i =
    let next = added h name value in
    let (all, j) = read_headers-lines headers n next a ls (added-IsLength h n name value l i) in
    let Reads : Headers → Type 0 = λ x.
      ((read_headers x (map header_line headers)).headers ≡ h.headers ++ (name, value) ∷ headers)
      × IsLength n (read_headers x (map header_line headers)).content_length in
    subst Reads (sym (add_header-line h name value is))
      (all ∙ append_assoc h.headers ((name, value) ∷ []) headers, j)

-- What stands behind the status line up to the blank line.
unfoldable pub joined : List (Text × Text) → Text
joined [] = []
joined (header ∷ headers) = b'\r' ∷ b'\n' ∷ (header_line header ++ joined headers)

pub header_line-IsPlain : (header : Text × Text) → IsHeader header → IsPlain (header_line header)
unfolding header_line IsHeader
header_line-IsPlain (name, value) (pn, ln, tn, pv, tv) =
    IsPlain-append name (b':' ∷ b' ' ∷ value) pn
      (omega arith, omega arith, (omega arith, omega arith, pv))

pub split_pair-joined :
    (line : Text) (headers : List (Text × Text))
    → IsPlain line
    → AreHeaders headers
    → split_pair b'\r' b'\n' (line ++ joined headers) ≡ line ∷ map header_line headers
unfolding joined AreHeaders
split_pair-joined line [] p a = rw (append-nil line) (split_pair-plain line p)
split_pair-joined line (header ∷ headers) p (is, a) =
    split_pair-line line (header_line header ++ joined headers) p
    ∙ ap (◌∷◌ line)
        (split_pair-joined (header_line header) headers (header_line-IsPlain header is) a)

pub IsAscii-append : (xs ys : Text) → IsPlain xs → IsAscii ys → IsAscii (xs ++ ys)
IsAscii-append [] ys h k = k
IsAscii-append (x ∷ xs) ys (a, n, h) k = (a, IsAscii-append xs ys h k)

pub joined-IsAscii : (headers : List (Text × Text)) → AreHeaders headers → IsAscii (joined headers)
unfolding joined AreHeaders
joined-IsAscii [] a = tt
joined-IsAscii (header ∷ headers) (is, a) = (
  omega arith,
  (
    omega arith,
    IsAscii-append (header_line header) (joined headers) (header_line-IsPlain header is)
        (joined-IsAscii headers a),
  ),
)
