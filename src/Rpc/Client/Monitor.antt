-- ===== src/Rpc/Client/Monitor.antt =====
-- The order of the messages that a client sends, as the peer sees it.
use libcfd.Prelude.{
  [], ℕ, ◌+◌, ◌%◌, ◌≡◌, ◌≢◌, refl, Bool, true, false, not, ◌&&◌, ◌||◌, List, ◌∷◌, Option, none,
  some, ok, err, ◌>>=◌, ◌==◌, if◌then◌else◌, arith,
}
use libcfd.Rpc.Error.{RpcError, RpcResult, eof, protocol, text}
use libcfd.Rpc.Client.{
  Sent, bootstrap, call, finish, release, RpcClient, Received, new, write, BootstrapOutcome,
  capability, CallOutcome, value, exchange, settled, read_on, advance, settle_bootstrap,
  settle_call, decode_bootstrap, decode_call, bootstrap_exchange, call_exchange, bootstrap_call,
  method_call, close,
}

-- What a peer keeps of a client: the next question id, the question that may still be finished,
-- whether that question is a bootstrap, and whether the client has the main interface.
pub record Peer : Type 0 where
  pub next : ℕ
  pub asked : Option ℕ
  pub booting : Bool
  pub granted : Bool

abbrev pub fresh : Peer
fresh = record { next = 0; asked = none; booting = false; granted = false }

abbrev is_asked : Option ℕ → ℕ → Bool
is_asked none question = false
is_asked (some q) question = q == question

-- Questions come in order, a bootstrap only without the interface, a call and a
-- release only with it; a finish is for the last question and comes at most once.
abbrev observe : {P : Type 0} → Peer → Sent P → Option Peer
observe p (bootstrap question) =
    if question == p.next && not p.granted
    then some
        (record p { next = (p.next + 1) % 4_294_967_296; asked = some question; booting = true })
    else none
observe p (call question import_identifier interface_identifier method_identifier parameters) =
    if question == p.next && p.granted
    then some
        (record p { next = (p.next + 1) % 4_294_967_296; asked = some question; booting = false })
    else none
observe p (finish question release_result_caps) =
    if is_asked p.asked question
    then some
        (record p { asked = none; granted = p.granted || (p.booting && not release_result_caps) })
    else none
observe p (release identifier reference_count) =
    if p.granted && identifier == 0 && reference_count == 1
    then some (record p { granted = false })
    else none

-- The peer, from `start` on, after a client's messages (the newest first), if it accepts each of them.
abbrev pub watch : {P : Type 0} → Peer → List (Sent P) → Option Peer
watch start [] = some start
watch start (x ∷ older) = elim (watch start older) [ none ↦ none | some p ↦ observe p x ]

-- The peer accepts what was sent, and agrees with the client on the question and the interface.
abbrev pub Agrees : {P C : Type 0} → Option Peer → RpcClient P C → Type 0
Agrees none c = ⊥
Agrees (some p) c = (p.next ≡ c.next_question) × (p.granted ≡ c.has_bootstrap)

abbrev IsAccepted : {P C : Type 0} → Peer → RpcClient P C → Type 0
IsAccepted start c = Agrees (watch start c.sent) c

module _ {P C : Type 0} (start : Peer) where
  -- The last message of the client is question `question`, still to be finished.
  abbrev Awaits : Bool → ℕ → Option Peer → RpcClient P C → Type 0
  Awaits boot question none c = ⊥
  Awaits boot question (some p) c =
      (p.next ≡ c.next_question)
      × (p.granted ≡ c.has_bootstrap)
      × (p.asked ≡ some question)
      × (p.booting ≡ boot)
      × (p.granted ≡ not boot)

  abbrev IsAwaiting : Bool → ℕ → RpcClient P C → Type 0
  IsAwaiting boot question c = Awaits boot question (watch start c.sent) c

  settle_bootstrap-IsAccepted :
      (question : ℕ) (o : BootstrapOutcome) (c : RpcClient P C)
      → IsAwaiting true question c
      → IsAccepted start (settle_bootstrap question o c).1
  unfolding settle_bootstrap
  settle_bootstrap-IsAccepted question capability c h = ground arith
  settle_bootstrap-IsAccepted question _ c h = ground arith

  settle_call-IsAccepted :
      {T : Type 0} (question : ℕ) (o : CallOutcome T) (c : RpcClient P C)
      → IsAwaiting false question c
      → IsAccepted start (settle_call question o c).1
  unfolding settle_call
  settle_call-IsAccepted question (value v) c h = ground arith
  settle_call-IsAccepted question _ c h = ground arith

  IsAccepted-of_awaiting :
      (boot : Bool) (question : ℕ) (c : RpcClient P C)
      → IsAwaiting boot question c
      → IsAccepted start c
  IsAccepted-of_awaiting boot question c h = ground arith

  module _ {O T : Type 0} (boot : Bool) (question : ℕ)
      (settle : O → RpcClient P C → RpcResult T × RpcClient P C)
      (keep : (o : O) (c : RpcClient P C)
        → IsAwaiting boot question c
        → IsAccepted start (settle o c).1) where
    settled-IsAccepted :
        (o : RpcResult O) (c : RpcClient P C)
        → IsAwaiting boot question c
        → IsAccepted start (settled settle o c).1
    unfolding settled
    settled-IsAccepted (err e) c h = IsAccepted-of_awaiting boot question c h
    settled-IsAccepted (ok o) c h = keep o c h

    read_on-IsAccepted :
        (decode : Received C → RpcResult O) (inbox : List (RpcResult (Received C)))
        (c : RpcClient P C)
        → IsAwaiting boot question c
        → IsAccepted start (settled settle ((read_on inbox c).0 >>= decode) (read_on inbox c).1).1
    unfolding read_on
    read_on-IsAccepted decode [] c h = settled-IsAccepted (err eof) c h
    read_on-IsAccepted decode (m ∷ rest) c h =
        settled-IsAccepted (m >>= decode) (record c { inbox = rest }) (ground arith)

    exchange-IsAccepted :
        (decode : Received C → RpcResult O) (w : RpcResult (Unit {0})) (c : RpcClient P C)
        → IsAwaiting boot question c
        → IsAccepted start (exchange decode settle w c).1
    unfolding exchange
    exchange-IsAccepted decode (err e) c h = IsAccepted-of_awaiting boot question c h
    exchange-IsAccepted decode (ok u) c h = read_on-IsAccepted decode c.inbox c h

  write-bootstrap :
      (c : RpcClient P C)
      → c.has_bootstrap ≡ false
      → IsAccepted start c
      → IsAwaiting true c.next_question (write (bootstrap c.next_question) (advance c)).1
  unfolding write
  write-bootstrap c b h = ground arith

  write-call :
      (c : RpcClient P C) (target interface_identifier method_identifier : ℕ) (p : P)
      → c.has_bootstrap ≡ true
      → IsAccepted start c
      → IsAwaiting false c.next_question
          (write
            (call c.next_question target interface_identifier method_identifier p)
            (advance c)).1
  unfolding write
  write-call c target i m p b h = ground arith

  guarded-IsAccepted :
      {T : Type 0} (b : Bool) (x y : RpcResult T × RpcClient P C)
      → IsAccepted start x.1
      → (b ≡ false → IsAccepted start y.1)
      → IsAccepted start (if b then x else y).1
  guarded-IsAccepted true x y h k = h
  guarded-IsAccepted false x y h k = k refl

  bootstrap_call-IsAccepted :
      (c : RpcClient P C) → IsAccepted start c → IsAccepted start (bootstrap_call c).1
  unfolding bootstrap_call
  bootstrap_call-IsAccepted c h =
      guarded-IsAccepted c.has_bootstrap (err (protocol (text "bootstrap called twice")), c)
        (bootstrap_exchange c) h
        (λ b.
          unfold bootstrap_exchange in
          exchange-IsAccepted true c.next_question (settle_bootstrap c.next_question)
            (settle_bootstrap-IsAccepted c.next_question) (λ m. decode_bootstrap m c.next_question)
            (write (bootstrap c.next_question) (advance c)).0
            (write (bootstrap c.next_question) (advance c)).1 (write-bootstrap c b h))

  method_call-IsAccepted :
      {T : Type 0} (c : RpcClient P C) (target i m : ℕ) (p : P) (decode : C → RpcResult T)
      → IsAccepted start c
      → IsAccepted start (method_call target i m (ok p) decode c).1
  unfolding method_call
  method_call-IsAccepted c target i m p decode h =
      guarded-IsAccepted (not c.has_bootstrap) (err (protocol (text "call before bootstrap")), c)
        (call_exchange target i m (ok p) decode c) h
        (λ b.
          unfold call_exchange in
          exchange-IsAccepted false c.next_question (settle_call c.next_question)
            (settle_call-IsAccepted c.next_question) (λ x. decode_call decode x c.next_question)
            (write (call c.next_question target i m p) (advance c)).0
            (write (call c.next_question target i m p) (advance c)).1
            (write-call c target i m p (ground arith) h))

  -- The peer takes the release too; after it the client is gone.
  close-IsHeard : (c : RpcClient P C) → IsAccepted start c → watch start (close c).1.sent ≢ none
  unfolding close
  close-IsHeard c h = ground arith

-- A use of the client: bootstraps and calls, whose parameters may fail to be built.
pub data Use (P C T : Type 0) : Type 0 where
  boot : Use P C T
  invoke : ℕ → ℕ → ℕ → RpcResult P → (C → RpcResult T) → Use P C T

-- The client with the messages that it has sent left out: its next ones are those of its next use.
abbrev unsent : {P C : Type 0} → RpcClient P C → RpcClient P C
unsent c = record c { sent = [] }

-- The peer after the close.
pub watch_close : {P C : Type 0} → Option Peer → RpcClient P C → Option Peer
watch_close none c = none
watch_close (some p) c = watch p (close (unsent c)).1.sent

watch_close-heard :
    {P C : Type 0} (p : Option Peer) (c : RpcClient P C) → Agrees p c → watch_close p c ≢ none
unfolding watch_close
watch_close-heard none c h = absurd h
watch_close-heard (some p) c h = close-IsHeard p (unsent c) h

module _ {P C T : Type 0} where
  abbrev pub use_once : RpcClient P C → Use P C T → RpcClient P C
  use_once c boot = (bootstrap_call c).1
  use_once c (invoke target i m parameters decode) = (method_call target i m parameters decode c).1

  -- A call on the interface whose parameters fail uses a question id up and sends nothing.
  abbrev skip : Use P C T → Bool → Peer → Peer
  skip (invoke target i m (err e) decode) true p = record p { next = (p.next + 1) % 4_294_967_296 }
  skip _ granted p = p

  abbrev watch_use : Option Peer → RpcClient P C → Use P C T → Option Peer
  watch_use none c u = none
  watch_use (some p) c u = watch (skip u c.has_bootstrap p) (use_once (unsent c) u).sent

  -- The client after its uses, and the peer after the messages of each use, in turn.
  pub use_client : Option Peer → RpcClient P C → List (Use P C T) → Option Peer × RpcClient P C
  use_client p c [] = (p, c)
  use_client p c (u ∷ us) = use_client (watch_use p c u) (use_once (unsent c) u) us

  skipped-Agrees :
      (b : Bool) (p : Peer) (c : RpcClient P C) (target i m : ℕ) (e : RpcError)
      (decode : C → RpcResult T)
      → c.has_bootstrap ≡ b
      → Agrees (some p) c
      → Agrees
          (watch
            (skip (invoke target i m (err e) decode) b p)
            (method_call target i m (err e) decode (unsent c)).1.sent)
          (method_call target i m (err e) decode (unsent c)).1
  unfolding method_call call_exchange
  skipped-Agrees true p c target i m e decode b h = ground (arith, b)
  skipped-Agrees false p c target i m e decode b h = ground (arith, b)

  watch_use-Agrees :
      (p : Peer) (c : RpcClient P C) (u : Use P C T)
      → Agrees (some p) c
      → Agrees (watch_use (some p) c u) (use_once (unsent c) u)
  watch_use-Agrees p c boot h = bootstrap_call-IsAccepted p (unsent c) h
  watch_use-Agrees p c (invoke target i m (ok parameters) decode) h =
      method_call-IsAccepted p (unsent c) target i m parameters decode h
  watch_use-Agrees p c (invoke target i m (err e) decode) h =
      skipped-Agrees c.has_bootstrap p c target i m e decode refl h

  use_client-Agrees :
      (us : List (Use P C T)) (p : Option Peer) (c : RpcClient P C)
      → Agrees p c
      → Agrees (use_client p c us).0 (use_client p c us).1
  unfolding use_client
  use_client-Agrees [] p c h = h
  use_client-Agrees (u ∷ us) none c h = absurd h
  use_client-Agrees (u ∷ us) (some p) c h =
      use_client-Agrees us (watch_use (some p) c u) (use_once (unsent c) u)
        (watch_use-Agrees p c u h)

  -- Whatever the peer answers, whatever fails, and in whatever order the client is used and then
  -- closed, its messages keep to the protocol that `observe` states: question ids count up from
  -- zero, with one left out at each call on the interface whose parameters fail to be built and with
  -- no other gap, calls and the release come only while the client holds the main interface, and each
  -- question is finished at most once, before the next question.
  pub use_client-close :
      (writes : List (Option RpcError)) (inbox : List (RpcResult (Received C)))
      (us : List (Use P C T))
      → let (p, c) = use_client (some fresh) (new writes inbox) us in
        Agrees p c × (watch_close p c ≢ none)
  unfolding new
  use_client-close writes inbox us =
      let start : RpcClient P C = record {
        next_question = 0;
        has_bootstrap = false;
        sent = [];
        writes = writes;
        inbox = inbox;
      } in
      let h = use_client-Agrees us (some fresh) start (refl, refl) in (h, watch_close-heard _ _ h)
