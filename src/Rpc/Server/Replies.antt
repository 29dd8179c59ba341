-- ===== src/Rpc/Server/Replies.antt =====
-- Which questions of the edge the server answers.
use libcfd.Prelude.{
  [], ℕ, ◌≡◌, refl, ap, List, ◌∷◌, ◌++◌, Option, none, some, ok, err, bind-eq-ok, arith, map,
}
use libcfd.Rpc.Error.{RpcError, eof, RpcResult}
use libcfd.Rpc.Server.{
  CloudflaredHandler, Method, update_configuration, CallParameters, Frame, bootstrap, call, Reply,
  bootstrap_return, update_configuration_return, register_udp_session_return,
  unregister_udp_session_return, exception_return, classify, run_method, reply_to, Served,
  continue_with, serve_cloudflared,
}

-- The question that a reply answers.
abbrev pub answered : Reply → ℕ
answered (bootstrap_return question) = question
answered (update_configuration_return question response) = question
answered (register_udp_session_return question response) = question
answered (unregister_udp_session_return question) = question
answered (exception_return question reason) = question

-- The question that a message asks: bootstraps and calls ask, finishes and releases do not.
abbrev pub asked : Frame → List ℕ
asked (bootstrap question) = question ∷ []
asked (call question i m parameters) = question ∷ []
asked _ = []

-- The questions of the messages up to the first read that fails.
abbrev pub questions : List (RpcResult Frame) → List ℕ
questions [] = []
questions (err e ∷ inbox) = []
questions (ok frame ∷ inbox) = asked frame ++ questions inbox

-- All of the questions after a clean end; after an error a front part of them.
abbrev pub Answers : RpcResult (Unit {0}) → List Reply → List ℕ → Type 0
Answers (ok _) replies qs = map answered replies ≡ qs
Answers (err e) replies qs = (rest : List ℕ) × (qs ≡ map answered replies ++ rest)

abbrev to_list : Option Reply → List Reply
to_list none = []
to_list (some r) = r ∷ []

module _ {S : Type 0} (handler : CloudflaredHandler S) where
  run_method-answered :
      (m : Method) (question : ℕ) (parameters : CallParameters) (s : S) {r : Reply × S}
      → run_method handler m question parameters s ≡ ok r
      → answered r.0 ≡ question
  unfolding run_method
  run_method-answered update_configuration question parameters s e = ground arith
  run_method-answered _ question parameters s e = ground arith

  reply_to-answered :
      (frame : Frame) (s : S) {r : Option Reply × S}
      → reply_to handler frame s ≡ ok r
      → map answered (to_list r.0) ≡ asked frame
  unfolding reply_to
  reply_to-answered (call question i m parameters) s e =
      let (r, good, same) =
        bind-eq-ok (run_method handler (classify i m) question parameters s) _ e in
      ground (arith, run_method-answered (classify i m) question parameters s good)
  reply_to-answered _ s e = ground arith

  Answers-replied :
      (r : Reply) (frame : Frame) (result : RpcResult (Unit {0})) (replies : List Reply)
      (qs : List ℕ)
      → answered r ∷ [] ≡ asked frame
      → Answers result replies qs
      → Answers result (r ∷ replies) (asked frame ++ qs)
  Answers-replied r frame (ok u) replies qs e h = rw (← e) (ap (◌∷◌ (answered r)) h)
  Answers-replied r frame (err x) replies qs e (rest, h) =
      (rest, rw (← e) (ap (◌∷◌ (answered r)) h))

  continue_with-Answers :
      (frame : Frame) (qs : List ℕ) (next : List (Option RpcError) → S → Served S)
      → ((writes : List (Option RpcError)) (s : S)
          → Answers (next writes s).result (next writes s).replies qs)
      → (r : RpcResult (Option Reply × S)) (s : S) (writes : List (Option RpcError))
      → ((q : Option Reply × S) → r ≡ ok q → map answered (to_list q.0) ≡ asked frame)
      → Answers
          (continue_with r s writes next).result
          (continue_with r s writes next).replies
          (asked frame ++ qs)
  unfolding continue_with
  continue_with-Answers frame qs next h (err e) s writes k = (asked frame ++ qs, refl)
  continue_with-Answers frame qs next h (ok (none, s')) s writes k = rw (← k _ refl) (h writes s')
  continue_with-Answers frame qs next h (ok (some r, s')) s [] k =
      Answers-replied r frame (next [] s').result (next [] s').replies qs (k _ refl) (h [] s')
  continue_with-Answers frame qs next h (ok (some r, s')) s (none ∷ ws) k =
      Answers-replied r frame (next ws s').result (next ws s').replies qs (k _ refl) (h ws s')
  continue_with-Answers frame qs next h (ok (some r, s')) s (some e ∷ ws) k =
      (asked frame ++ qs, refl)

  -- Whatever the handler and the transport do, the replies written answer the edge's questions
  -- one each, in the order asked: all of them if serving ends cleanly, a front part of them if it
  -- ends by an error. Finishes, releases and other messages get no reply.
  pub serve_cloudflared-Answers :
      (inbox : List (RpcResult Frame)) (writes : List (Option RpcError)) (s : S)
      → let served = serve_cloudflared handler inbox writes s in
        Answers served.result served.replies (questions inbox)
  unfolding serve_cloudflared
  serve_cloudflared-Answers [] writes s = refl
  serve_cloudflared-Answers (err eof ∷ inbox) writes s = refl
  serve_cloudflared-Answers (err e ∷ inbox) writes s = ([], refl)
  serve_cloudflared-Answers (ok frame ∷ inbox) writes s =
      continue_with-Answers frame (questions inbox) (serve_cloudflared handler inbox)
        (serve_cloudflared-Answers inbox) (reply_to handler frame s) s writes
        (λ q. reply_to-answered frame s)
