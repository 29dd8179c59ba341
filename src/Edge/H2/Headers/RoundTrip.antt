-- ===== src/Edge/H2/Headers/RoundTrip.antt =====
-- The serialized headers read back.
use Prim.Native.Char.{char, code}
use Prim.Native.String.{[] as nil, ◌∷◌ as cons}
use Prim.Native.String.append
use text.Mathlib.TextLemmas.{append_assoc as text_assoc, append-nil as text-nil}
use libcfd.Prelude.{
  [], ℕ, ◌≡◌, refl, sym, ap, ◌∙◌, subst, String, false, List, ◌∷◌, map, some, Result, ok,
  str_append, str_eq, eq_iff, if◌then◌else◌, ◌==◌, Bool-cases, inl, inr,
}
use libcfd.Edge.H2.Headers.{
  split, split_once, serialize_from, serialize_headers, deserialize_pairs, deserialize_headers,
}

-- The text has no character of this number.
unfoldable pub Lacks : ℕ → String → Type 0
Lacks separator nil = Unit
Lacks separator (cons c text) = ((code c == separator) ≡ false) × Lacks separator text

HasText : String → Type 0
HasText nil = ⊥
HasText (cons c text) = Unit

not_empty : (text : String) → HasText text → str_eq text "" ≡ false
unfolding HasText
not_empty text h = elim (Bool-cases (str_eq text "")) [
  | inl e ↦ absurd (subst HasText ((eq_iff text "").0 e) h)
  | inr n ↦ n
]

HasText-append : (front back : String) → HasText back → HasText (str_append front back)
HasText-append nil back h = rw (append.nil back) h
HasText-append (cons c front) back h = unfold HasText in rw (append.cons c front back) tt

Lacks-append :
    (separator : ℕ) (front back : String)
    → Lacks separator front
    → Lacks separator back
    → Lacks separator (str_append front back)
unfolding Lacks
Lacks-append separator nil back f b = rw (append.nil back) b
Lacks-append separator (cons c front) back (n, f) b =
    rw (append.cons c front back) (n, Lacks-append separator front back f b)

split-Lacks :
    (separator : ℕ) (text : String) → Lacks separator text → split separator text ≡ text ∷ []
unfolding split Lacks
split-Lacks separator nil l = refl
split-Lacks separator (cons c text) (n, l) = rw (n, split-Lacks separator text l)

-- A text up to the first separator. The separators of the code are the texts of one character.
append-semicolon : (back : String) → str_append ";" back ≡ cons (char 59 tt) back
append-semicolon back = rw (append.cons (char 59 tt) "" back, append.nil back)

append-colon : (back : String) → str_append ":" back ≡ cons (char 58 tt) back
append-colon back = rw (append.cons (char 58 tt) "" back, append.nil back)

split-front :
    (front back : String)
    → Lacks 59 front
    → split 59 (str_append front (str_append ";" back)) ≡ front ∷ split 59 back
unfolding split Lacks
split-front nil back l = rw (append.nil (str_append ";" back), append-semicolon back)
split-front (cons c front) back (n, l) =
    rw (append.cons c front (str_append ";" back), n, split-front front back l)

split_once-front :
    (front back : String)
    → Lacks 58 front
    → split_once 58 (str_append front (str_append ":" back)) ≡ some (front, back)
unfolding split_once Lacks
split_once-front nil back l = rw (append.nil (str_append ":" back), append-colon back)
split_once-front (cons c front) back (n, l) =
    rw (append.cons c front (str_append ":" back), n, split_once-front front back l)

-- What the base64 crate documents, here of one text: it decodes to what it encodes, and is encoded in
-- characters of the alphabet alone.
pub record IsBase64 (encode : String → String) (decode : String → Result String String)
    (text : String) : Type 0 where
  pub decodes : decode (encode text) ≡ ok text
  pub no_semicolon : Lacks 59 (encode text)
  pub no_colon : Lacks 58 (encode text)

unfoldable pub AreBase64 :
    (String → String) → (String → Result String String) → List (String × String) → Type 0
AreBase64 encode decode [] = Unit
AreBase64 encode decode ((name, value) ∷ headers) =
    IsBase64 encode decode name × IsBase64 encode decode value × AreBase64 encode decode headers

module _ (encode : String → String) (decode : String → Result String String) where
  abbrev pair : String × String → String
  pair (name, value) = str_append (encode name) (str_append ":" (encode value))

  -- What the pairs add behind the first.
  tail : List (String × String) → String
  tail [] = ""
  tail (header ∷ headers) = str_append ";" (str_append (pair header) (tail headers))

  pair-HasText : (header : String × String) → HasText (pair header)
  pair-HasText (name, value) =
      HasText-append (encode name) (str_append ":" (encode value))
        (subst HasText (sym (append-colon (encode value))) (unfold HasText in tt))

  pair-Lacks :
      (name value : String)
      → IsBase64 encode decode name
      → IsBase64 encode decode value
      → Lacks 59 (pair (name, value))
  pair-Lacks name value n v =
      Lacks-append 59 (encode name) (str_append ":" (encode value)) n.no_semicolon (
        subst (Lacks 59) (sym (append-colon (encode value)))
          (unfold Lacks in (refl, v.no_semicolon)))

  serialize_from-tail :
      (out : String) (headers : List (String × String))
      → HasText out
      → serialize_from encode out headers ≡ str_append out (tail headers)
  unfolding serialize_from tail
  serialize_from-tail out [] h = sym (text-nil out)
  serialize_from-tail out ((name, value) ∷ headers) h =
      ap
        (λ b.
          serialize_from encode
            (str_append (if b then out else str_append out ";") (pair (name, value))) headers)
        (not_empty out h)
      ∙ serialize_from-tail (str_append (str_append out ";") (pair (name, value))) headers
          (HasText-append (str_append out ";") (pair (name, value)) (pair-HasText (name, value)))
      ∙ text_assoc (str_append out ";") (pair (name, value)) (tail headers)
      ∙ text_assoc out ";" (str_append (pair (name, value)) (tail headers))

  split-tail :
      (name value : String) (headers : List (String × String))
      → AreBase64 encode decode ((name, value) ∷ headers)
      → split 59 (str_append (pair (name, value)) (tail headers))
        ≡ pair (name, value) ∷ map pair headers
  unfolding tail AreBase64
  split-tail name value [] (n, v, b) =
      ap (split 59) (text-nil (pair (name, value)))
      ∙ split-Lacks 59 (pair (name, value)) (pair-Lacks name value n v)
  split-tail name value ((name', value') ∷ headers) (n, v, b) =
      split-front (pair (name, value)) (str_append (pair (name', value')) (tail headers))
        (pair-Lacks name value n v)
      ∙ ap (λ parts. pair (name, value) ∷ parts) (split-tail name' value' headers b)

  deserialize_pairs-map :
      (headers : List (String × String))
      → AreBase64 encode decode headers
      → deserialize_pairs decode (map pair headers) ≡ headers
  unfolding deserialize_pairs AreBase64
  deserialize_pairs-map [] b = refl
  deserialize_pairs-map ((name, value) ∷ headers) (n, v, b) = rw (
    not_empty (pair (name, value)) (pair-HasText (name, value)),
    split_once-front (encode name) (encode value) n.no_colon,
    n.decodes,
    v.decodes,
    deserialize_pairs-map headers b,
  )

  -- Where base64 decodes the texts of the headers to what it encoded and keeps to its alphabet, the
  -- headers that were serialized are read back as they were, in their order, empty names and values
  -- included.
  pub deserialize_headers-serialize_headers :
      (headers : List (String × String))
      → AreBase64 encode decode headers
      → deserialize_headers decode (serialize_headers encode headers) ≡ headers
  unfolding deserialize_headers serialize_headers serialize_from
  deserialize_headers-serialize_headers [] b = refl
  deserialize_headers-serialize_headers ((name, value) ∷ headers) b =
      ap (λ out. deserialize_pairs decode (split 59 (serialize_from encode out headers)))
        (append.nil (pair (name, value)))
      ∙ ap (λ text. deserialize_pairs decode (split 59 text))
          (serialize_from-tail (pair (name, value)) headers (pair-HasText (name, value)))
      ∙ ap (deserialize_pairs decode) (split-tail name value headers b)
      ∙ deserialize_pairs-map ((name, value) ∷ headers) b
