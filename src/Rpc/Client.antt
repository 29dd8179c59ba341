-- ===== src/Rpc/Client.antt =====
-- rpc/src/rpc.rs: the RPC client of a control stream. Cap'n Proto's own coding of a message is the
-- library's; a message stands here as the values that the schema's accessors give, with an error
-- where an accessor fails. `P` and `C` are the types of the parameters and results of calls.
pub mod Monitor
use libcfd.Prelude.{
  [], ℕ, ◌+◌, ◌%◌, String, Bool, true, false, not, List, ◌∷◌, Option, none, some, ok, err, ◌>>=◌,
  ◌>>◌, ◌==◌, if◌then◌else◌,
}
use libcfd.Rpc.Error.{RpcError, eof, protocol, abort, remote_call, RpcResult, text, format}

-- What the client hands to the transport: `build_bootstrap`, `build_call`, `build_finish` and
-- `build_release`, by the values that they set.
pub data Sent (P : Type 0) : Type 0 where
  bootstrap : ℕ → Sent P
  call : ℕ → ℕ → ℕ → ℕ → P → Sent P
  finish : ℕ → Bool → Sent P
  release : ℕ → ℕ → Sent P

pub data CapDescriptor : Type 0 where
  sender_hosted sender_promise other_descriptor : CapDescriptor
  bad_descriptor : RpcError → CapDescriptor

pub data ReturnBody (C : Type 0) : Type 0 where
  results : C → List CapDescriptor → ReturnBody C
  exception : String → ReturnBody C
  other_return : ReturnBody C

pub data Received (C : Type 0) : Type 0 where
  return : ℕ → RpcResult (ReturnBody C) → Received C
  aborted : RpcResult (String × ℕ) → Received C
  other_message : Received C

-- `writes` has the outcome of each coming write (past the list they succeed), `inbox` what each
-- coming `read_message` gives, `sent` what was handed to the transport, the newest first.
pub record RpcClient (P C : Type 0) : Type 0 where
  pub next_question : ℕ
  pub has_bootstrap : Bool
  pub sent : List (Sent P)
  pub writes : List (Option RpcError)
  pub inbox : List (RpcResult (Received C))

pub data BootstrapOutcome : Type 0 where
  capability no_capability unexpected_kind : BootstrapOutcome
  exception : String → BootstrapOutcome

pub data CallOutcome (T : Type 0) : Type 0 where
  value : T → CallOutcome T
  exception : String → CallOutcome T
  unexpected_kind : CallOutcome T

module _ {P C : Type 0} where
  unfoldable pub new : List (Option RpcError) → List (RpcResult (Received C)) → RpcClient P C
  new writes inbox = record {
    next_question = 0;
    has_bootstrap = false;
    sent = [];
    writes = writes;
    inbox = inbox;
  }

  unfoldable pub write_on :
      List (Option RpcError) → Sent P → RpcClient P C → RpcResult (Unit {0}) × RpcClient P C
  write_on [] x c = (ok tt, record c { sent = x ∷ c.sent })
  write_on (none ∷ w) x c = (ok tt, record c { sent = x ∷ c.sent; writes = w })
  write_on (some e ∷ w) x c = (err e, record c { sent = x ∷ c.sent; writes = w })

  -- `write_raw` of a built message.
  unfoldable pub write : Sent P → RpcClient P C → RpcResult (Unit {0}) × RpcClient P C
  unfolding write_on
  write x c = write_on c.writes x c

  unfoldable pub read_on :
      List (RpcResult (Received C)) → RpcClient P C → RpcResult (Received C) × RpcClient P C
  read_on [] c = (err eof, c)
  read_on (m ∷ rest) c = (m, record c { inbox = rest })

  unfoldable pub read : RpcClient P C → RpcResult (Received C) × RpcClient P C
  unfolding read_on
  read c = read_on c.inbox c

  -- `send_finish` followed by the value that the caller returns.
  unfoldable pub finish_with :
      {T : Type 0} → ℕ → Bool → RpcResult T → RpcClient P C → RpcResult T × RpcClient P C
  finish_with question release_result_caps r c =
      let (w, c') = write (finish question release_result_caps) c in (w >> r, c')

unfoldable pub expect_return : {C : Type 0} → Received C → ℕ → RpcResult (RpcResult (ReturnBody C))
expect_return (return answer body) question =
    if answer == question
    then ok body
    else err (protocol (format "answer id does not match question" (answer ∷ question ∷ [])))
expect_return (aborted r) question = r >>= λ e. err (abort e.0 e.1)
expect_return other_message question = err (protocol (text "expected return message"))

unfoldable pub bootstrap_descriptor : List CapDescriptor → RpcResult BootstrapOutcome
bootstrap_descriptor [] = ok no_capability
bootstrap_descriptor (sender_hosted ∷ ds) = ok capability
bootstrap_descriptor (sender_promise ∷ ds) = ok capability
bootstrap_descriptor (other_descriptor ∷ ds) = ok unexpected_kind
bootstrap_descriptor (bad_descriptor e ∷ ds) = err e

unfoldable pub bootstrap_body : {C : Type 0} → ReturnBody C → RpcResult BootstrapOutcome
unfolding bootstrap_descriptor
bootstrap_body (results content descriptors) = bootstrap_descriptor descriptors
bootstrap_body (exception reason) = ok (exception reason)
bootstrap_body other_return = ok unexpected_kind

unfoldable pub decode_bootstrap : {C : Type 0} → Received C → ℕ → RpcResult BootstrapOutcome
unfolding bootstrap_body expect_return
decode_bootstrap m question = do
  answer ← expect_return m question
  body ← answer
  bootstrap_body body

unfoldable pub call_body :
    {C T : Type 0} → (C → RpcResult T) → ReturnBody C → RpcResult (CallOutcome T)
call_body decode (results content descriptors) = decode content >>= λ v. ok (value v)
call_body decode (exception reason) = ok (exception reason)
call_body decode other_return = ok unexpected_kind

unfoldable pub decode_call :
    {C T : Type 0} → (C → RpcResult T) → Received C → ℕ → RpcResult (CallOutcome T)
unfolding call_body expect_return
decode_call decode m question = do
  answer ← expect_return m question
  body ← answer
  call_body decode body

module _ {P C : Type 0} where
  unfoldable pub settle_bootstrap :
      ℕ → BootstrapOutcome → RpcClient P C → RpcResult ℕ × RpcClient P C
  unfolding finish_with write
  settle_bootstrap question capability c =
      finish_with question false (ok 0) (record c { has_bootstrap = true })
  settle_bootstrap question (exception reason) c =
      finish_with question true (err (remote_call reason)) c
  settle_bootstrap question no_capability c =
      finish_with question true (err (protocol (text "bootstrap return carried no capability"))) c
  settle_bootstrap question unexpected_kind c =
      finish_with question true (err (protocol (text "bootstrap got unexpected return kind"))) c

  unfoldable pub settle_call :
      {T : Type 0} → ℕ → CallOutcome T → RpcClient P C → RpcResult T × RpcClient P C
  unfolding finish_with write
  settle_call question (value v) c = finish_with question false (ok v) c
  settle_call question (exception reason) c = finish_with question true (err (remote_call reason)) c
  settle_call question unexpected_kind c =
      finish_with question true (err (protocol (text "call got unexpected return kind"))) c

  -- What follows the decoding of the answer: on an error nothing is sent.
  unfoldable pub settled :
      {O T : Type 0}
      → (O → RpcClient P C → RpcResult T × RpcClient P C)
      → RpcResult O
      → RpcClient P C
      → RpcResult T × RpcClient P C
  settled settle (err e) c = (err e, c)
  settled settle (ok o) c = settle o c

  -- The rest of an exchange once its question has been written, with its `?` after each step.
  unfoldable pub exchange :
      {O T : Type 0}
      → (Received C → RpcResult O)
      → (O → RpcClient P C → RpcResult T × RpcClient P C)
      → RpcResult (Unit {0})
      → RpcClient P C
      → RpcResult T × RpcClient P C
  unfolding read settled
  exchange decode settle (err e) c = (err e, c)
  exchange decode settle (ok _) c = let (m, c') = read c in settled settle (m >>= decode) c'

  -- `next_question += 1`, on a u32.
  abbrev advance : RpcClient P C → RpcClient P C
  advance c = record c { next_question = (c.next_question + 1) % 4_294_967_296 }

  -- The question of `bootstrap`, behind its guard.
  unfoldable pub bootstrap_exchange : RpcClient P C → RpcResult ℕ × RpcClient P C
  unfolding write exchange decode_bootstrap settle_bootstrap
  bootstrap_exchange c =
      let question = c.next_question in
      let (w, c') = write (bootstrap question) (advance c) in
      exchange (λ m. decode_bootstrap m question) (settle_bootstrap question) w c'

  unfoldable pub bootstrap_call : RpcClient P C → RpcResult ℕ × RpcClient P C
  bootstrap_call c =
      if c.has_bootstrap
      then (err (protocol (text "bootstrap called twice")), c)
      else bootstrap_exchange c

  -- The question of `call`, behind its guard. `parameters` is what `fill_parameters` builds; its
  -- failure stops the call before the write.
  unfoldable pub call_exchange :
      {T : Type 0}
      → ℕ
      → ℕ
      → ℕ
      → RpcResult P
      → (C → RpcResult T)
      → RpcClient P C
      → RpcResult T × RpcClient P C
  unfolding write exchange decode_call settle_call
  call_exchange import_identifier interface_identifier method_identifier (err e) decode c =
      (err e, advance c)
  call_exchange import_identifier interface_identifier method_identifier (ok p) decode c =
      let question = c.next_question in
      let (w, c') =
        write (call question import_identifier interface_identifier method_identifier p)
          (advance c) in
      exchange (λ m. decode_call decode m question) (settle_call question) w c'

  unfoldable pub method_call :
      {T : Type 0}
      → ℕ
      → ℕ
      → ℕ
      → RpcResult P
      → (C → RpcResult T)
      → RpcClient P C
      → RpcResult T × RpcClient P C
  method_call import_identifier interface_identifier method_identifier parameters decode c =
      if not c.has_bootstrap
      then (err (protocol (text "call before bootstrap")), c)
      else call_exchange import_identifier interface_identifier method_identifier parameters decode
          c

  -- `close`: what is left of the client is its stream; the flag shows that it was released.
  unfoldable pub close : RpcClient P C → RpcResult (Unit {0}) × RpcClient P C
  unfolding write
  close c =
      if c.has_bootstrap
      then (let (w, c') = write (release 0 1) c in
          elim w [ err e ↦ (err e, c') | ok _ ↦ (ok tt, record c' { has_bootstrap = false }) ])
      else (ok tt, c)
