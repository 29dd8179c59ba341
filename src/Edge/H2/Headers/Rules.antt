-- ===== src/Edge/H2/Headers/Rules.antt =====
-- Which names of response headers are passed on to the edge.
use text.Mathlib.TextBridge.{IsPrefix}
use text.Mathlib.TextEquality.{starts_with_iff}
use libcfd.Prelude.{
  ◌≡◌, ◌⊎◌, ◌||◌, arith, refl, String, Bool, true, false, eq_iff, Bool-cases, inl, inr,
}
use libcfd.Edge.H2.Headers.{is_control_response_header, is_websocket_client_header, is_user_header}

-- The rules of cloudflared, on a name in lower case: control headers are kept back by their prefixes, and
-- those of a websocket handshake are passed on in any case.
pub ControlName : String → Type 0
ControlName lower =
    IsPrefix ":" lower
    ⊎ (IsPrefix "cf-int-" lower ⊎ (IsPrefix "cf-cloudflared-" lower ⊎ IsPrefix "cf-proxy-" lower))

pub HandshakeName : String → Type 0
HandshakeName lower =
    (lower ≡ "sec-websocket-accept") ⊎ ((lower ≡ "connection") ⊎ (lower ≡ "upgrade"))

pub Passes : String → Type 0
unfolding ControlName HandshakeName
Passes lower = HandshakeName lower ⊎ (ControlName lower → ⊥)

is_control-ControlName :
    (lower : String) → ControlName lower → is_control_response_header lower ≡ true
unfolding is_control_response_header ControlName
is_control-ControlName lower (inl p) = let e = (starts_with_iff lower ":").1 p in ground (arith, e)
is_control-ControlName lower (inr (inl p)) =
    let e = (starts_with_iff lower "cf-int-").1 p in ground (arith, e)
is_control-ControlName lower (inr (inr (inl p))) =
    let e = (starts_with_iff lower "cf-cloudflared-").1 p in ground (arith, e)
is_control-ControlName lower (inr (inr (inr p))) =
    let e = (starts_with_iff lower "cf-proxy-").1 p in ground (arith, e)

or-true : (a b : Bool) → (a || b) ≡ true → (a ≡ true) ⊎ (b ≡ true)
or-true true b h = inl refl
or-true false b h = inr h

ControlName-is_control :
    (lower : String) → is_control_response_header lower ≡ true → ControlName lower
unfolding is_control_response_header ControlName
ControlName-is_control lower h = elim (or-true _ _ h) [
  | inr a ↦ inr (inr (inr ((starts_with_iff lower "cf-proxy-").0 a)))
  | inl h ↦ elim (or-true _ _ h) [
    | inr a ↦ inr (inr (inl ((starts_with_iff lower "cf-cloudflared-").0 a)))
    | inl h ↦ elim (or-true _ _ h) [
      | inl a ↦ inl ((starts_with_iff lower ":").0 a)
      | inr a ↦ inr (inl ((starts_with_iff lower "cf-int-").0 a))
    ]
  ]
]

is_handshake-HandshakeName :
    (lower : String) → HandshakeName lower → is_websocket_client_header lower ≡ true
unfolding is_websocket_client_header HandshakeName
is_handshake-HandshakeName lower (inl p) =
    let e = (eq_iff lower "sec-websocket-accept").1 p in ground (arith, e)
is_handshake-HandshakeName lower (inr (inl p)) =
    let e = (eq_iff lower "connection").1 p in ground (arith, e)
is_handshake-HandshakeName lower (inr (inr p)) =
    let e = (eq_iff lower "upgrade").1 p in ground (arith, e)

HandshakeName-is_handshake :
    (lower : String) → is_websocket_client_header lower ≡ true → HandshakeName lower
unfolding is_websocket_client_header HandshakeName
HandshakeName-is_handshake lower h = elim (or-true _ _ h) [
  | inr a ↦ inr (inr ((eq_iff lower "upgrade").0 a))
  | inl h ↦ elim (or-true _ _ h) [
    | inl a ↦ inl ((eq_iff lower "sec-websocket-accept").0 a)
    | inr a ↦ inr (inl ((eq_iff lower "connection").0 a))
  ]
]

pub is_user_header-Passes : (lower : String) → Passes lower → is_user_header lower ≡ true
unfolding is_user_header Passes
is_user_header-Passes lower (inl h) =
    let e = is_handshake-HandshakeName lower h in ground (arith, e)
is_user_header-Passes lower (inr n) = elim (Bool-cases (is_control_response_header lower)) [
  | inl c ↦ absurd (n (ControlName-is_control lower c))
  | inr c ↦ ground (arith, c)
]

pub Passes-is_user_header : (lower : String) → is_user_header lower ≡ true → Passes lower
unfolding is_user_header Passes
Passes-is_user_header lower e = elim (Bool-cases (is_websocket_client_header lower)) [
  | inl h ↦ inl (HandshakeName-is_handshake lower h)
  | inr n ↦ inr (λ c. let k = is_control-ControlName lower c in absurd (ground (arith, k, n, e)))
]
