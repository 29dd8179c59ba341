-- ===== src/Tunnel/Quick/Response/Position.antt =====
-- Where the head of a response ends.
use libcfd.Prelude.{
  [], ℕ, ◌+◌, ◌≡◌, ◌≢◌, refl, ap, ◌∙◌, List, ◌∷◌, ◌++◌, Option, none, some, arith, Bytes, length,
  append_assoc, length-append,
}
use libcfd.Prelude.Text.{Text}
use libcfd.Tunnel.Quick.Response.{header_position}
use libcfd.Tunnel.Quick.Response.Plain.{IsPlain}
use libcfd.Tunnel.Quick.Response.Lines.{AreHeaders, header_line, header_line-IsPlain, joined}

abbrev pub advance : ℕ → Option ℕ → Option ℕ
advance n none = none
advance n (some m) = some (n + m)

abbrev pub terminator : Bytes
terminator = b'\r' ∷ b'\n' ∷ b'\r' ∷ b'\n' ∷ []

header_position-plain :
    (line rest : Bytes)
    → IsPlain line
    → header_position (line ++ rest) ≡ advance (length line) (header_position rest)
unfolding header_position
header_position-plain [] rest h = ground (arith, header_position rest)
header_position-plain (c ∷ line) rest (a, n, h) = ground (arith, header_position-plain line rest h)

header_position-break :
    (d : ℕ) (rest : Bytes)
    → d ≢ b'\r'
    → header_position (b'\r' ∷ b'\n' ∷ d ∷ rest) ≡ advance 2 (header_position (d ∷ rest))
unfolding header_position
header_position-break d [] n = refl
header_position-break d (e ∷ []) n = ground arith
header_position-break d (e ∷ f ∷ rest) n = ground (arith, header_position (e ∷ f ∷ rest))

header_line-front :
    (header : Text × Text) → (d : ℕ) × (text : Text) × (header_line header ≡ d ∷ text)
unfolding header_line
header_line-front ([], value) = (58, 32 ∷ value, refl)
header_line-front (c ∷ name, value) = (c, name ++ b':' ∷ b' ' ∷ value, refl)

header_position-next :
    (line rest : Bytes) (d : ℕ) (text : Text)
    → line ≡ d ∷ text
    → IsPlain line
    → header_position (b'\r' ∷ b'\n' ∷ (line ++ rest)) ≡ advance 2 (header_position (line ++ rest))
header_position-next [] rest d text e p = cc
header_position-next (c ∷ line) rest d text e (a, n, p) = header_position-break c (line ++ rest) n

header_position-terminator : (body : Bytes) → header_position (terminator ++ body) ≡ some 0
unfolding header_position
header_position-terminator body = refl

pub header_position-joined :
    (line : Text) (headers : List (Text × Text)) (body : Bytes)
    → IsPlain line
    → AreHeaders headers
    → header_position (line ++ (joined headers ++ (terminator ++ body)))
      ≡ some (length line + length (joined headers))
unfolding joined AreHeaders
header_position-joined line [] body p a =
    header_position-plain line (terminator ++ body) p
    ∙ ap (advance (length line)) (header_position-terminator body)
header_position-joined line (header ∷ headers) body p (is, a) =
    let shown = header_line header in
    let rest = terminator ++ body in
    let plain = header_line-IsPlain header is in
    let (d, text, e) = header_line-front header in
    header_position-plain line (joined (header ∷ headers) ++ rest) p
    ∙ ap (advance (length line)) (
        ap (λ (t : Text). header_position (b'\r' ∷ b'\n' ∷ t))
          (append_assoc shown (joined headers) rest)
        ∙ header_position-next shown (joined headers ++ rest) d text e plain
        ∙ ap (advance 2) (header_position-joined shown headers body plain a))
    ∙ ap some (omega (arith, length-append shown (joined headers)))
