-- ===== src/Edge/H2/Opens.antt =====
-- Where the streams that the edge opens go.
use libcfd.Prelude.{
  [], ℕ, ◌≡◌, refl, sym, ap, ◌∙◌, Bool, true, false, List, ◌∷◌, ◌++◌, Option, none, some, Result,
  ok, err, if◌then◌else◌, append_assoc, append-nil,
}
use libcfd.Edge.Error.{Error}
use libcfd.Edge.H2.{
  StreamType, http, websocket, tcp, control, configuration, classify, ServeEvent, accepted,
  accept_error, accept_end, registration, registration_timeout, shutdown, registered, give_up,
  take_sender, accept_control, Serving, start, Turn, goes_on, returns, drains, panicked, accept,
  turn, after_turn, serve_loop, after_drain, serve,
}
use libcfd.Edge.H2.Serves.{IsServing}

-- The streams that the edge opens: the control streams, and the others.
abbrev is_control : StreamType → Bool
is_control control = true
is_control _ = false

abbrev opened_by : Bool → ServeEvent → List ℕ
opened_by true (accepted id headers) = if is_control (classify headers) then id ∷ [] else []
opened_by false (accepted id headers) = if is_control (classify headers) then [] else id ∷ []
opened_by b _ = []

pub opened : Bool → List ServeEvent → List ℕ
opened b [] = []
opened b (event ∷ events) = opened_by b event ++ opened b events

-- The control streams that `serve` has: the one of the control task, then those rejected.
abbrev task_of : Option ℕ → List ℕ
task_of none = []
task_of (some id) = id ∷ []

abbrev pub controls : Serving → List ℕ
controls s = task_of s.control_task ++ s.rejected

-- A turn that goes on adds the stream that it opened.
Adds : Serving → List ℕ → List ℕ → Turn → Type 0
unfolding IsServing
Adds s cs rs (goes_on s') =
    (controls s' ≡ controls s ++ cs) × (s'.stream_tasks ≡ s.stream_tasks ++ rs) × IsServing s'
Adds s cs rs _ = Unit

taken-Adds :
    (id : ℕ) (b : Bool) (s : Serving)
    → IsServing s
    → s.control_task ≡ none
    → s.rejected ≡ []
    → b ≡ true
    → Adds s (id ∷ []) [] (take_sender id b s)
unfolding Adds IsServing
taken-Adds id true s (n, h) q r b =
    (rw (q, r) refl, sym (append-nil s.stream_tasks), (n, λ z. absurd (cc z)))
taken-Adds id false s i q r b = tt

control-Adds :
    (id : ℕ) (o : Option ℕ) (s : Serving)
    → s.control_task ≡ o
    → IsServing s
    → Adds s (id ∷ []) [] (accept_control id o s)
unfolding Adds IsServing
control-Adds id none s q (n, h) = let (t, r) = h q in taken-Adds id s.registration_tx s (n, h) q r t
control-Adds id (some task) s q (n, h) = (
  sym (append_assoc _ s.rejected (id ∷ [])),
  sym (append-nil s.stream_tasks),
  (n, λ z. absurd (cc (z, q))),
)

accept-Adds :
    (id : ℕ) (t : StreamType) (s : Serving)
    → IsServing s
    → Adds s
        (if is_control t then id ∷ [] else [])
        (if is_control t then [] else id ∷ [])
        (accept id t s)
unfolding Adds accept IsServing
accept-Adds id control s (n, h) = control-Adds id s.control_task s refl (n, h)
accept-Adds id http s i = (sym (append-nil (controls s)), refl, i)
accept-Adds id websocket s i = (sym (append-nil (controls s)), refl, i)
accept-Adds id tcp s i = (sym (append-nil (controls s)), refl, i)
accept-Adds id configuration s i = (sym (append-nil (controls s)), refl, i)

turn-Adds :
    (e : ServeEvent) (s : Serving)
    → IsServing s
    → Adds s (opened_by true e) (opened_by false e) (turn e s)
unfolding turn Adds IsServing
turn-Adds (accepted id headers) s i = accept-Adds id (classify headers) s i
turn-Adds (accept_error e) s i = tt
turn-Adds accept_end s i = tt
turn-Adds (registration r) s i = registered-Adds s.registration_done r
  where
    same : (controls s ≡ controls s ++ []) × (s.stream_tasks ≡ s.stream_tasks ++ []) × IsServing s
    same = (sym (append-nil (controls s)), sym (append-nil s.stream_tasks), i)

    registered-Adds :
        (b : Bool) (r : Option (Result Error (Unit {0})))
        → Adds s [] []
            (if b then goes_on s else registered r (record s { registration_done = true }))
    registered-Adds true r = same
    registered-Adds false none = tt
    registered-Adds false (some (ok u)) = same
    registered-Adds false (some (err e)) = tt
turn-Adds registration_timeout s i = timeout-Adds s.registration_done _
  where
    timeout-Adds :
        (b : Bool) (r : Result Error (Unit {0}))
        → Adds s [] [] (if b then goes_on s else give_up r s)
    timeout-Adds true r = (sym (append-nil (controls s)), sym (append-nil s.stream_tasks), i)
    timeout-Adds false r = tt
turn-Adds shutdown s i = tt

serve_loop-opened :
    (events : List ServeEvent) (s : Serving) {s' : Serving}
    → IsServing s
    → serve_loop events s ≡ goes_on s'
    → (controls s' ≡ controls s ++ opened true events)
      × (s'.stream_tasks ≡ s.stream_tasks ++ opened false events)
unfolding serve_loop opened after_turn Adds
serve_loop-opened [] s i h = (cc (h, append-nil (controls s)), cc (h, append-nil s.stream_tasks))
serve_loop-opened (e ∷ events) s {s'} i h =
    went (turn e s) (turn-Adds e s i) h (λ u i'. serve_loop-opened events u i')
  where
    went :
        (t : Turn)
        → Adds s (opened_by true e) (opened_by false e) t
        → after_turn t (serve_loop events) ≡ goes_on s'
        → ((u : Serving)
            → IsServing u
            → serve_loop events u ≡ goes_on s'
            → (controls s' ≡ controls u ++ opened true events)
              × (s'.stream_tasks ≡ u.stream_tasks ++ opened false events))
        → (controls s' ≡ controls s ++ (opened_by true e ++ opened true events))
          × (s'.stream_tasks ≡ s.stream_tasks ++ (opened_by false e ++ opened false events))
    went (goes_on u) (c, r, i') h rest =
        let (c', r') = rest u i' h in
        (
          c'
              ∙ ap (λ x. x ++ opened true events) c
              ∙ append_assoc (controls s) (opened_by true e) (opened true events),
          r'
              ∙ ap (λ x. x ++ opened false events) r
              ∙ append_assoc s.stream_tasks (opened_by false e) (opened false events),
        )
    went (returns r u) a h rest = cc
    went (drains u) a h rest = cc
    went panicked a h rest = cc

-- While a connection is served, the control stream taken first and the rejected ones after it are
-- the control streams that the edge opened, in order, and the streams given to the handlers are
-- the others, in order.
pub serve-opened :
    (events : List ServeEvent) {s : Serving}
    → serve events ≡ goes_on s
    → (controls s ≡ opened true events) × (s.stream_tasks ≡ opened false events)
unfolding serve IsServing
serve-opened events {s} h =
    serve_loop-opened events start (refl, λ z. (refl, refl)) (waiting (serve_loop events start) h)
  where
    waiting : (t : Turn) → after_drain t ≡ goes_on s → t ≡ goes_on s
    waiting (goes_on u) h = h
    waiting (returns r u) h = h
    waiting (drains u) h = cc
    waiting panicked h = h
