-- ===== src/Tunnel/Quick/Response/RoundTrip.antt =====
-- A response that is written out reads back.
use libcfd.Prelude.{
  [], ℕ, ◌+◌, ◌*◌, ◌<◌, ◌≡◌, sym, ap, ◌∙◌, List, ◌∷◌, ◌++◌, none, some, ok, arith, Bytes, length,
  take, drop, append_assoc, map, take-append, drop-append, length-append,
}
use libcfd.Prelude.Text.{Text, codes}
use libcfd.Tunnel.Quick.Response.{
  header_position, Headers, read_headers, parse_lines, parse_http_response,
}
use libcfd.Tunnel.Quick.Response.Plain.{IsAscii, IsPlain, IsPlain-append, from_utf8-ascii}
use libcfd.Tunnel.Quick.Response.Lines.{
  Announce, AreHeaders, IsAscii-append, cut_body-all, header_line, joined, joined-IsAscii,
  parse_status-status_line, read_headers-lines, split_pair-joined, status_line,
}
use libcfd.Tunnel.Quick.Response.Position.{header_position-joined, terminator}

status_line-IsPlain :
    (a b c : ℕ) (reason : Text)
    → a < 10
    → b < 10
    → c < 10
    → IsPlain reason
    → IsPlain (status_line a b c reason)
unfolding status_line
status_line-IsPlain a b c reason ha hb hc p =
    IsPlain-append (codes "HTTP/1.1 ") ((48 + a) ∷ (48 + b) ∷ (48 + c) ∷ 32 ∷ reason) (omega arith)
      (
        omega arith,
        omega arith,
        (omega arith, omega arith, (omega arith, omega arith, (omega arith, omega arith, p))),
      )

-- A response: its status line, its headers, the blank line and its body.
pub print : ℕ → ℕ → ℕ → Text → List (Text × Text) → Bytes → Bytes
print a b c reason headers body =
    (status_line a b c reason ++ joined headers) ++ (terminator ++ body)

module _ (a b c : ℕ) (reason : Text) (headers : List (Text × Text)) (body : Bytes) (ha : a < 10)
    (hb : b < 10) (hc : c < 10) (plain : IsPlain reason) (are : AreHeaders headers) where
  abbrev head : Text
  head = status_line a b c reason ++ joined headers

  line-IsPlain : IsPlain (status_line a b c reason)
  line-IsPlain = status_line-IsPlain a b c reason ha hb hc plain

  header_position-print : header_position (print a b c reason headers body) ≡ some (length head)
  unfolding print
  header_position-print =
      ap header_position
        (append_assoc (status_line a b c reason) (joined headers) (terminator ++ body))
      ∙ header_position-joined (status_line a b c reason) headers body line-IsPlain are
      ∙ ap some (sym (length-append (status_line a b c reason) (joined headers)))

  drop-print : drop (length head + 4) (print a b c reason headers body) ≡ body
  unfolding print
  drop-print =
      ap (λ n. drop n (head ++ (terminator ++ body))) (sym (length-append head terminator))
      ∙ ap (drop (length (head ++ terminator))) (sym (append_assoc head terminator body))
      ∙ drop-append (head ++ terminator) body

  parse_lines-print :
      Announce (length body) headers
      → parse_lines body (status_line a b c reason ∷ map header_line headers)
        ≡ ok (100 * a + 10 * b + c, headers, body)
  unfolding parse_lines
  parse_lines-print announce =
      let start : Headers = record { headers = []; content_length = none } in
      let (all, n) = read_headers-lines headers (length body) start are announce tt in
      rw (parse_status-status_line a b c reason ha hb hc) (
        rw (all, cut_body-all (read_headers start (map header_line headers)).content_length body n))

  -- A response of a three-digit status, a plain reason, headers that need no trimming and a body that
  -- is as long as every length among the headers says reads back: as its status, its headers in order
  -- and its body.
  pub parse_http_response-print :
      Announce (length body) headers
      → parse_http_response (print a b c reason headers body)
        ≡ ok (100 * a + 10 * b + c, headers, body)
  unfolding parse_http_response
  parse_http_response-print announce = rw header_position-print (
      rw
        (
          drop-print,
          take_head,
          from_utf8-ascii head head-IsAscii,
          split_pair-joined (status_line a b c reason) headers line-IsPlain are,
        )
        (parse_lines-print announce))
    where
      take_head : take (length head) (print a b c reason headers body) ≡ head
      take_head = unfold print in take-append head (terminator ++ body)

      head-IsAscii : IsAscii head
      head-IsAscii =
          IsAscii-append (status_line a b c reason) (joined headers) line-IsPlain
            (joined-IsAscii headers are)
