-- ===== src/Origin/Body.antt =====
-- src/origin/http/body.rs: the body of a request or a response. The readers behind it are of a type
-- `R`.
use libcfd.Prelude.{ℕ, Option, none, some, Bytes, length}

pub data BodyInner (R : Type 0) : Type 0 where
  empty_body : BodyInner R
  bytes : Bytes → BodyInner R
  reader : R → BodyInner R

pub record Body (R : Type 0) : Type 0 where
  pub inner : BodyInner R
  pub size_hint : Option ℕ

abbrev pub empty : {R : Type 0} → Body R
empty = record { inner = empty_body; size_hint = some 0 }

abbrev pub from_bytes : {R : Type 0} → Bytes → Body R
from_bytes b = record { inner = bytes b; size_hint = some (length b) }

abbrev pub from_reader : {R : Type 0} → R → Body R
from_reader r = record { inner = reader r; size_hint = none }
