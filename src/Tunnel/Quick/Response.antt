-- ===== src/Tunnel/Quick/Response.antt =====
-- src/tunnel/quick/api.rs: `parse_http_response`.
pub mod Plain
pub mod Lines
pub mod Position
pub mod RoundTrip
use libcfd.Prelude.{
  [], ℕ, String, zero, suc, ◌+◌, ◌∷◌, Bool, true, false, List, Option, none, some, Result, ok, err,
  ◌>>=◌, if◌then◌else◌, ◌==◌, ◌&&◌, leb, Bytes, take, drop, length, ◌++◌,
}
use libcfd.Prelude.Text.{
  Text, codes, from_utf8, split_pair, split_whitespace, split_once, trim, eq_ignore_ascii_case,
  parse_uint,
}
use libcfd.Edge.Error.{Error, tunnel, quick_tunnel_response}

abbrev malformed : String → Error
malformed message = tunnel (quick_tunnel_response message)

-- Whether the window at the front is the blank line.
abbrev is_terminator : Bytes → Bool
is_terminator (a ∷ b ∷ c ∷ d ∷ bytes) = a == b'\r' && b == b'\n' && c == b'\r' && d == b'\n'
is_terminator _ = false

abbrev pub next_position : Option ℕ → Option ℕ
next_position none = none
next_position (some n) = some (suc n)

-- `windows(4).position(...)`.
unfoldable pub header_position : Bytes → Option ℕ
header_position [] = none
header_position (a ∷ bytes) =
    let rest = header_position bytes in
    if is_terminator (a ∷ bytes) then some 0 else next_position rest

abbrev ok_or {ℓ} : {A : Type ℓ} → String → Option A → Result Error A
ok_or message none = err (malformed message)
ok_or message (some a) = ok a

-- `nth(1)`.
abbrev second : List Text → Option Text
second (a ∷ b ∷ rest) = some b
second _ = none

unfoldable pub parse_status : Text → Result Error ℕ
parse_status status_line = do
  code ← ok_or "malformed status line" (second (split_whitespace status_line))
  ok_or "malformed status code" (parse_uint 65_535 code)

abbrev content_length_name : Text
content_length_name = codes "content-length"

-- The variables of the loop over the lines.
pub record Headers : Type 0 where
  pub headers : List (Text × Text)
  pub content_length : Option ℕ

abbrev add_header : Headers → Option (Text × Text) → Headers
add_header h none = h
add_header h (some (name, value)) = record {
  headers = h.headers ++ (trim name, trim value) ∷ [];
  content_length =
      if eq_ignore_ascii_case name content_length_name
      then parse_uint 18_446_744_073_709_551_615 (trim value)
      else h.content_length;
}

unfoldable pub read_headers : Headers → List Text → Headers
read_headers h [] = h
read_headers h (line ∷ lines) = read_headers (add_header h (split_once b':' line)) lines

unfoldable pub cut_body : Option ℕ → Bytes → Bytes
cut_body none body = body
cut_body (some n) body = if leb n (length body) then take n body else body

-- The lines of the head; `split` gives one at least.
unfoldable pub parse_lines : Bytes → List Text → Result Error (ℕ × List (Text × Text) × Bytes)
unfolding parse_status read_headers cut_body
parse_lines body [] = err (malformed "empty status line")
parse_lines body (status_line ∷ lines) = do
  status ← parse_status status_line
  let read = read_headers (record { headers = []; content_length = none }) lines
  ok (status, read.headers, cut_body read.content_length body)

unfoldable pub parse_http_response : Bytes → Result Error (ℕ × List (Text × Text) × Bytes)
unfolding header_position parse_lines
parse_http_response bytes = do
  header_end ← ok_or "missing response headers" (header_position bytes)
  head ← ok_or "response headers not utf-8" (from_utf8 (take header_end bytes))
  parse_lines (drop (header_end + 4) bytes) (split_pair b'\r' b'\n' head)
