-- ===== src/Edge/H2/Session/Safe.antt =====
-- What holds in every state that the loop and the task reach.
use libcfd.Prelude.{
  ◌≡◌, ◌≢◌, inl, inr, refl, subst, sym, Bool, true, List, [], ◌∷◌, none, some, Result, ok, err,
  Bool-cases,
}
use libcfd.Edge.Error.{Error}
use libcfd.Edge.Event.{Notify, fire}
use libcfd.Edge.Control.{Process}
use libcfd.Edge.H2.{registration, Serving, Turn, goes_on, returns, drains, panicked, turn}
use libcfd.Edge.H2.Register.{H2Shared}
use libcfd.Edge.H2.Session.{
  Control, idle, spawned, registered, settled, died, Session, begin, spawn, Step, serves, notifies,
  fails, registers, sends, dies, receives, loses, Reaches, here, next,
}
use libcfd.Edge.H2.Session.Linked.{IsSent, IsWaiting, IsLinked, IsConsistent, turn-IsLinked}
use libcfd.Rpc.Tunnel.{TunnelClient}
use libcfd.Tunnel.{Codecs}

spawn-IsSent :
    (c : Control) (t : Turn) (sent : List (Result Error (Unit {0}))) (fired : Bool)
    → IsSent c sent fired
    → IsSent (spawn c t) sent fired
spawn-IsSent idle (goes_on v) sent fired h = elim (Bool-cases v.registration_tx) [
  | inl held ↦ rw held h
  | inr taken ↦ rw taken h
]
spawn-IsSent idle (returns r v) sent fired h = h
spawn-IsSent idle (drains v) sent fired h = h
spawn-IsSent idle panicked sent fired h = h
spawn-IsSent spawned t sent fired h = h
spawn-IsSent registered t sent fired h = h
spawn-IsSent settled t sent fired h = h
spawn-IsSent died t sent fired h = h

settled-IsLinked : (t : Turn) (fired : Bool) → IsWaiting t → IsLinked settled fired t
settled-IsLinked (goes_on v) fired (tx, task, d) = (tx, task, λ z. cc (z, d))
settled-IsLinked (returns r v) fired l = tt
settled-IsLinked (drains v) fired l = tt
settled-IsLinked panicked fired l = l

-- A channel that is closed without a result ends the loop.
lost-IsWaiting : (v : Serving) → IsWaiting (goes_on v) → IsWaiting (turn (registration none) v)
unfolding turn
lost-IsWaiting v (tx, task, d) = rw d tt

received-IsLinked :
    (c : Control) (fired : Bool) (sent : List (Result Error (Unit {0}))) (v : Serving)
    (r : Result Error (Unit {0}))
    → IsSent c sent fired
    → sent ≡ r ∷ []
    → IsLinked c fired (goes_on v)
    → IsLinked c fired (turn (registration (some r)) v)
unfolding turn
received-IsLinked idle fired sent v r h e l = cc
received-IsLinked spawned fired sent v r h e l = cc
received-IsLinked registered fired sent v r (h, f) e l = cc
received-IsLinked died fired sent v r h e l = cc
received-IsLinked settled fired sent v (ok u) (inl (s, f)) e (tx, task, d) =
    elim (Bool-cases v.registration_done) [
      | inl done ↦ rw done (tx, task, λ z. f)
      | inr first ↦ rw first (tx, task, λ z. f)
    ]
received-IsLinked settled fired sent v (ok u) (inr (x, s)) e l = cc
received-IsLinked settled fired sent v (err x) h e (tx, task, d) =
    elim (Bool-cases v.registration_done) [
      | inl done ↦ rw done (tx, task, λ z. d done)
      | inr first ↦ rw first tt
    ]

not_lost :
    (sent : List (Result Error (Unit {0}))) (fired : Bool) → IsSent settled sent fired → sent ≢ []
not_lost sent fired (inl (s, f)) e = cc
not_lost sent fired (inr (x, s)) e = cc

module _ {N S : Type 0} (notify : Notify N) (codecs : Codecs) (process : Process)
    (new_client : S → TunnelClient) where
  Step-IsConsistent :
      {s t : Session N}
      → Step notify codecs process new_client s t
      → IsConsistent s
      → IsConsistent t
  Step-IsConsistent (serves s v event e o) i =
      let fired = s.shared.registered.fired in
      record {
        sends = spawn-IsSent s.control (turn event v) s.sent fired i.sends;
        linked =
            turn-IsLinked s.control fired v event o (subst (IsLinked s.control fired) e i.linked);
      }
  Step-IsConsistent (notifies s n) i = record { sends = i.sends; linked = i.linked }
  Step-IsConsistent (fails s opened x c failed) i = record {
    sends = inr (x, refl);
    linked =
        settled-IsLinked s.serving s.shared.registered.fired
          (subst (λ d. IsLinked d s.shared.registered.fired s.serving) c i.linked);
  }
  Step-IsConsistent (registers s opened c done) i = record {
    sends = (subst (λ d. IsSent d s.sent s.shared.registered.fired) c i.sends, unfold fire in refl);
    linked = subst (λ d. IsLinked d s.shared.registered.fired s.serving) c i.linked;
  }
  Step-IsConsistent (sends s c) i =
      let fired = s.shared.registered.fired in
      let (none_sent, f) = subst (λ d. IsSent d s.sent fired) c i.sends in
      record {
        sends = inl (refl, f);
        linked =
            settled-IsLinked s.serving fired (subst (λ d. IsLinked d fired s.serving) c i.linked);
      }
  Step-IsConsistent (dies s (inl c)) i = record {
    sends = subst (λ d. IsSent d s.sent s.shared.registered.fired) c i.sends;
    linked = subst (λ d. IsLinked d s.shared.registered.fired s.serving) c i.linked;
  }
  Step-IsConsistent (dies s (inr c)) i = record {
    sends = (subst (λ d. IsSent d s.sent s.shared.registered.fired) c i.sends).0;
    linked = subst (λ d. IsLinked d s.shared.registered.fired s.serving) c i.linked;
  }
  Step-IsConsistent (receives s v r e given) i =
      let fired = s.shared.registered.fired in
      record {
        sends = i.sends;
        linked =
            received-IsLinked s.control fired s.sent v r i.sends given
              (subst (IsLinked s.control fired) e i.linked);
      }
  Step-IsConsistent (loses s v e (inl c) none_sent) i = absurd (
      not_lost s.sent s.shared.registered.fired
        (subst (λ d. IsSent d s.sent s.shared.registered.fired) c i.sends) none_sent)
  Step-IsConsistent (loses s v e (inr c) none_sent) i =
      let fired = s.shared.registered.fired in
      record {
        sends = i.sends;
        linked =
            subst (λ d. IsLinked d fired (turn (registration none) v)) (sym c)
              (lost-IsWaiting v
                (subst (λ t. IsWaiting t) e (subst (λ d. IsLinked d fired s.serving) c i.linked)));
      }

  Reaches-IsConsistent :
      {shared : H2Shared N} {s : Session N}
      → Reaches notify codecs process new_client (begin shared) s
      → IsConsistent s
  Reaches-IsConsistent here = record { sends = refl; linked = (refl, refl, refl) }
  Reaches-IsConsistent (next r st) = Step-IsConsistent st (Reaches-IsConsistent r)

  not_panicked : (c : Control) (fired : Bool) (t : Turn) → IsLinked c fired t → t ≢ panicked
  not_panicked idle fired t l e = subst (IsLinked idle fired) e l
  not_panicked spawned fired t l e = subst (IsLinked spawned fired) e l
  not_panicked registered fired t l e = subst (IsLinked registered fired) e l
  not_panicked died fired t l e = subst (IsLinked died fired) e l
  not_panicked settled fired t l e = subst (IsLinked settled fired) e l

  after_registration :
      (c : Control) (fired : Bool) (v : Serving)
      → IsLinked c fired (goes_on v)
      → v.registration_done ≡ true
      → fired ≡ true
  after_registration idle fired v (tx, n, d) e = cc
  after_registration spawned fired v (tx, t, d) e = cc
  after_registration registered fired v (tx, t, d) e = cc
  after_registration died fired v (tx, t, d) e = cc
  after_registration settled fired v (tx, t, d) e = d e

  after_success :
      (c : Control) (sent : List (Result Error (Unit {0}))) (fired : Bool)
      → IsSent c sent fired
      → sent ≡ ok tt ∷ []
      → fired ≡ true
  after_success idle sent fired h e = cc
  after_success spawned sent fired h e = cc
  after_success registered sent fired (h, f) e = f
  after_success died sent fired h e = cc
  after_success settled sent fired (inl (h, f)) e = f
  after_success settled sent fired (inr (x, h)) e = cc

  -- In whatever order the loop of an HTTP/2 connection and its control task take their steps, the fire
  -- of the event and the send of the result apart, and even where the task dies: the loop does not
  -- panic on the sender; a task that has come past its registration has sent a result, so the loop
  -- finds the channel closed only where the task died; a success is never in the channel before its
  -- event has been fired; and while the loop goes on after the registration, that event has been fired.
  pub Reaches-IsSafe :
      {shared : H2Shared N} {s : Session N}
      → Reaches notify codecs process new_client (begin shared) s
      → (s.serving ≢ panicked)
        × ((s.control ≡ settled) → s.sent ≢ [])
        × ((s.sent ≡ ok tt ∷ []) → s.shared.registered.fired ≡ true)
        × ((v : Serving)
            → s.serving ≡ goes_on v
            → v.registration_done ≡ true
            → s.shared.registered.fired ≡ true)
  Reaches-IsSafe {s} r =
      let i = Reaches-IsConsistent r in
      let fired = s.shared.registered.fired in
      (
        not_panicked s.control fired s.serving i.linked,
        (λ c e. not_lost s.sent fired (subst (λ c'. IsSent c' s.sent fired) c i.sends) e),
        (λ e. after_success s.control s.sent fired i.sends e),
        (λ v e. after_registration s.control fired v (subst (IsLinked s.control fired) e i.linked)),
      )
