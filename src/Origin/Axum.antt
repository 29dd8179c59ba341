-- ===== src/Origin/Axum.antt =====
-- src/origin/axum/mod.rs: an origin over an axum router. The router, its body streams and the http
-- crate's request builder are parameters.
pub mod Carried
pub mod Collect
use libcfd.Prelude.{
  [], ℕ, zero, suc, ◌+◌, ◌-◌, String, Bool, true, false, List, ◌∷◌, ◌++◌, Option, none, some,
  Result, ok, err, ◌>>=◌, ltb, ◌==◌, if◌then◌else◌, min, length, take, drop, Bytes, str_append,
}
use libcfd.Prelude.Text.{decimal}
use libcfd.Rpc.Error.{Message}
use libcfd.Edge.Error.{Error, origin, handler}
use libcfd.Edge.Error.Display.{to_string}
use libcfd.Origin.{HttpCrate, Request, Response, Handler}
use libcfd.Origin.Body.{Body, from_reader}

-- An answer of the stream's `poll_next`; the end of the list is the end of the stream.
pub data FramePoll : Type 0 where
  frame : Bytes → FramePoll
  frame_error : String → FramePoll
  frame_pending : FramePoll

pub data Polled (A : Type 0) : Type 0 where
  ready : A → Polled A
  failed : String → Polled A
  pending : Polled A

pub record AxumBodyReader : Type 0 where
  pub stream : List FramePoll
  pub chunk : Option Bytes
  pub position : ℕ
  pub eof : Bool

abbrev pub new : List FramePoll → AxumBodyReader
new stream = record { stream = stream; chunk = none; position = 0; eof = false }

-- `n` bytes of the chunk at `position`; the chunk is put back if more of it is left.
unfoldable pub deliver : Bytes → ℕ → AxumBodyReader → Polled Bytes × AxumBodyReader
deliver chunk n r = (
  ready (take n (drop r.position chunk)),
  record r {
    position = r.position + n;
    chunk = if ltb (r.position + n) (length chunk) then some chunk else none;
  },
)

-- The loop from `poll_next` on.
unfoldable pub next_frame : List FramePoll → ℕ → AxumBodyReader → Polled Bytes × AxumBodyReader
next_frame [] size r = (ready [], record r { stream = []; chunk = none; eof = true })
next_frame (frame_error e ∷ stream) size r = (failed e, record r { stream = stream; chunk = none })
next_frame (frame_pending ∷ stream) size r = (pending, record r { stream = stream; chunk = none })
next_frame (frame chunk ∷ stream) size r =
    let rest = next_frame stream size (record r { position = 0 }) in
    if ltb r.position (length chunk)
    then deliver chunk (min (length chunk - r.position) size) (record r { stream = stream })
    else rest

unfoldable pub read_held : Option Bytes → ℕ → AxumBodyReader → Polled Bytes × AxumBodyReader
unfolding deliver next_frame
read_held none size r = next_frame r.stream size r
read_held (some chunk) size r =
    if ltb r.position (length chunk)
    then deliver chunk (min (length chunk - r.position) size) r
    else next_frame r.stream size (record r { position = 0 })

unfoldable pub poll_read : ℕ → AxumBodyReader → Polled Bytes × AxumBodyReader
unfolding read_held
poll_read size r = if r.eof then (ready [], r) else read_held r.chunk size r

-- `Body::collect` of a body behind this reader: `io::copy`, whose buffer is of this size, on fuel.
abbrev pub copy_size : ℕ
copy_size = 8_192

abbrev is_empty : Bytes → Bool
is_empty [] = true
is_empty (b ∷ bytes) = false

-- The turn of the copy after a poll.
abbrev pub after_poll :
    (AxumBodyReader → Bytes → Option (Result String Bytes))
    → Bytes
    → Polled Bytes × AxumBodyReader
    → Option (Result String Bytes)
after_poll loop collected (ready bytes, r) =
    let rest = loop r (collected ++ bytes) in if is_empty bytes then some (ok collected) else rest
after_poll loop collected (failed e, r) = some (err e)
after_poll loop collected (pending, r) = loop r collected

unfoldable pub collect : ℕ → AxumBodyReader → Bytes → Option (Result String Bytes)
collect zero r collected = none
collect (suc fuel) r collected = after_poll (collect fuel) collected (poll_read copy_size r)

-- The stream of a request's body: a poll reads the body, of readers of the type `R`, into the buffer
-- and hands the bytes on. The end is `none`.
unfoldable poll_next :
    {R : Type 0}
    → (Body R → Polled Bytes × Body R)
    → Body R
    → Polled (Option (Result String Bytes)) × Body R
poll_next poll body =
    let (polled, body') = poll body in
    (
      elim polled [
        | ready [] ↦ ready none
        | ready (b ∷ bytes) ↦ ready (some (ok (b ∷ bytes)))
        | failed e ↦ ready (some (err e))
        | pending ↦ pending
      ],
      body',
    )

abbrev origin_handler : String → String → Error
origin_handler context e = origin (handler (str_append context e))

abbrev map_err : String → {A : Type 0} → Result String A → Result Error A
map_err context (ok a) = ok a
map_err context (err e) = err (origin_handler context e)

-- The parts of an axum response; `B` is the type of its body.
pub record AxumResponse (H B : Type 0) : Type 0 where
  pub status : ℕ
  pub headers : H
  pub body : B

-- `A` is the type of the axum requests, `R` that of the readers.
module _ {H R A : Type 0} (crate : HttpCrate H) (build : String → String → Body R → Result String A)
    (with_headers : H → A → A) (reader : List FramePoll → R)
    (call : A → Result String (AxumResponse H (List FramePoll))) (show : Message → String) where
  -- The length is announced where the body has one.
  abbrev with_length : Option ℕ → H → Result Error H
  with_length none headers = ok headers
  with_length (some size) headers = elim (crate.header_value_from_str (decimal size)) [
    | none ↦ err (origin_handler "bad content length: " (decimal size))
    | some value ↦ ok (crate.insert "content-length" value headers)
  ]

  unfoldable serve_router : Request H R → Result Error (Response H R)
  unfolding decimal
  serve_router request = do
    headers ← with_length request.body.size_hint request.headers
    built ← map_err "failed to build axum request: " (build request.method request.uri request.body)
    response ← map_err "axum router failed: " (call (with_headers headers built))
    ok (record {
      status = response.status;
      headers = response.headers;
      body = from_reader (reader response.body);
    })

  abbrev answer : Result Error (Response H R) → Option (Result String (Response H R))
  answer (ok response) = some (ok response)
  answer (err e) = some (err (to_string show e))

  -- Where the router does not panic.
  unfoldable handle : Handler H R (Response H R)
  unfolding serve_router
  handle request = answer (serve_router request)
