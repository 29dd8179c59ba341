-- ===== src/Edge/Serve/Active.antt =====
-- The streams that are being served.
use libcfd.Prelude.{
  [], ℕ, ◌≡◌, refl, ap, ◌∙◌, Bool, true, false, List, ◌∷◌, Option, none, some, if◌then◌else◌, ◌==◌,
  ◌||◌, arith, subst, Bool-cases, inl, inr,
}
use libcfd.Edge.Quic.Quiche.{
  Connection, accept_stream, find_new, after_find, release, connected, answered, with_inner,
}
use libcfd.Edge.Quic.Quiche.Wakers.{is_member, remove_all}
use libcfd.Edge.Quic.Quiche.Accepted.{perform-accepted}
use libcfd.Edge.Serve.Requests.{
  Serving, ServeEvent, accepting, joining, task_ends, task_panics, performs, ServeTurn, returns,
  goes_on, remove_first, end_task, panic_task, unserved, after_accept, serve_turn, and_serve,
  serve_requests, AreForeign, AreDistinct, IsActive, TurnIsActive,
}

FoundNew : Option ℕ × List ℕ → List ℕ → Type 0
FoundNew (none, accepted') accepted = accepted' ≡ accepted
FoundNew (some i, accepted') accepted = (accepted' ≡ i ∷ accepted) × (is_member i accepted ≡ false)

find_new-FoundNew : (readable accepted : List ℕ) → FoundNew (find_new readable accepted) accepted
unfolding find_new FoundNew
find_new-FoundNew [] accepted = refl
find_new-FoundNew (i ∷ readable) accepted =
    chosen (is_member i accepted) refl (find_new-FoundNew readable accepted)
  where
    chosen :
        (b : Bool)
        → is_member i accepted ≡ b
        → FoundNew (find_new readable accepted) accepted
        → FoundNew (if b then find_new readable accepted else (some i, i ∷ accepted)) accepted
    chosen true e rest = rest
    chosen false e rest = (refl, e)

remove_all-absent : (i : ℕ) (xs : List ℕ) → is_member i xs ≡ false → remove_all i xs ≡ xs
unfolding is_member remove_all
remove_all-absent i [] h = refl
remove_all-absent i (x ∷ xs) h = let rest = remove_all-absent i xs in ground (arith, rest)

same_member :
    (i j : ℕ) (xs : List ℕ) → (i == j) ≡ true → is_member j xs ≡ false → is_member i xs ≡ false
same_member i j xs e h = subst (λ k. is_member k xs ≡ false) (same i j e) h
  where
    same : (i j : ℕ) → (i == j) ≡ true → j ≡ i
    same i j h = ground arith

remove_all-member : (i : ℕ) (xs : List ℕ) → is_member i (remove_all i xs) ≡ false
unfolding is_member remove_all
remove_all-member i [] = refl
remove_all-member i (x ∷ xs) = let rest = remove_all-member i xs in ground (arith, rest)

is_member-remove_all :
    (j i : ℕ) (xs : List ℕ)
    → is_member j (remove_all i xs) ≡ (if i == j then false else is_member j xs)
unfolding is_member remove_all
is_member-remove_all j i [] = ground arith
is_member-remove_all j i (x ∷ xs) = let rest = is_member-remove_all j i xs in ground (arith, rest)

remove_first-absent :
    (i j : ℕ) (tasks : List ℕ)
    → is_member j tasks ≡ false
    → is_member j (remove_first i tasks) ≡ false
unfolding remove_first is_member
remove_first-absent i j [] h = h
remove_first-absent i j (k ∷ tasks) h =
    let rest = remove_first-absent i j tasks in ground (arith, rest)

remove_first-AreDistinct :
    (i : ℕ) (tasks : List ℕ) → AreDistinct tasks → AreDistinct (remove_first i tasks)
unfolding remove_first AreDistinct
remove_first-AreDistinct i [] d = d
remove_first-AreDistinct i (j ∷ tasks) (a, d) = elim (Bool-cases (i == j)) [
  | inl e ↦ rw e d
  | inr n ↦ rw n (remove_first-absent i j tasks a, remove_first-AreDistinct i tasks d)
]

is_member-remove_first :
    (j i : ℕ) (tasks : List ℕ)
    → AreDistinct tasks
    → is_member j (remove_first i tasks) ≡ (if i == j then false else is_member j tasks)
unfolding remove_first AreDistinct is_member
is_member-remove_first j i [] d = ground arith
is_member-remove_first j i (k ∷ tasks) (a, d) =
    let rest = is_member-remove_first j i tasks d in
    let gone = same_member j k tasks in ground (arith, rest, gone)

same_task :
    (i j : ℕ) (tasks : List ℕ)
    → is_member i tasks ≡ true
    → (i == j) ≡ true
    → is_member j tasks ≡ true
same_task i j tasks h e = subst (λ k. is_member k tasks ≡ true) (same i j e) h
  where
    same : (i j : ℕ) → (i == j) ≡ true → i ≡ j
    same i j h = ground arith

module _ {Q : Type 0} where
  after_accept-active :
      (s : Serving Q) (found : Option ℕ × List ℕ)
      → FoundNew found s.connection.inner.accepted
      → IsActive s
      → TurnIsActive (after_accept (after_find s.connection found) s)
  unfolding FoundNew TurnIsActive after_accept after_find is_member
  after_accept-active s (none, accepted') f a = record {
    members = λ i. ap (is_member i) f ∙ a.members i;
    distinct = a.distinct;
    apart = a.apart;
  }
  after_accept-active s (some i, accepted') (f, n) a = record {
    members = λ j. ap (is_member j) f ∙ added j;
    distinct = unfold AreDistinct in (fresh, a.distinct);
    apart = alone;
  }
    where
      added :
          (j : ℕ)
          → is_member j (i ∷ s.connection.inner.accepted)
            ≡ (is_member j (i ∷ s.tasks) || is_member j (unserved s))
      added j = let m = a.members j in ground (arith, m)

      fresh : is_member i s.tasks ≡ false
      fresh = let m = a.members i in ground (arith, m, n)

      alone : (j : ℕ) → is_member j (i ∷ s.tasks) ≡ true → is_member j (unserved s) ≡ false
      alone j h =
          let m = a.members j in
          let other = a.apart j in
          let same : (j == i) ≡ true → is_member j s.connection.inner.accepted ≡ false =
            λ e. same_member j i s.connection.inner.accepted e n in
          ground (arith, m, other, same, h)

  end_task-IsActive : (i : ℕ) (s : Serving Q) → IsActive s → IsActive (end_task i s)
  unfolding end_task release
  end_task-IsActive i s a = chosen (is_member i s.tasks) refl
    where
      chosen :
          (b : Bool)
          → is_member i s.tasks ≡ b
          → IsActive (
              if b
              then (record s {
                connection = release i s.connection;
                tasks = remove_first i s.tasks;
              })
              else s)
      chosen false e = a
      chosen true e = record {
        members = λ j.
            let r = is_member-remove_all j i s.connection.inner.accepted in
            let t = is_member-remove_first j i s.tasks a.distinct in
            let m = a.members j in
            let u = a.apart j in
            let same = same_task i j s.tasks e in ground (arith, r, t, m, u, same);
        distinct = remove_first-AreDistinct i s.tasks a.distinct;
        apart = λ j h.
            let t = is_member-remove_first j i s.tasks a.distinct in
            let u = a.apart j in ground (arith, t, u, h);
      }

  panic_task-IsActive : (i : ℕ) (s : Serving Q) → IsActive s → IsActive (panic_task i s)
  unfolding panic_task is_member
  panic_task-IsActive i s a = chosen (is_member i s.tasks) refl
    where
      chosen :
          (b : Bool)
          → is_member i s.tasks ≡ b
          → IsActive
              (if b then (record s { tasks = remove_first i s.tasks; lost = i ∷ s.lost }) else s)
      chosen false e = a
      chosen true e = record {
        members = λ j.
            let t = is_member-remove_first j i s.tasks a.distinct in
            let m = a.members j in let same = same_task i j s.tasks e in ground (arith, t, m, same);
        distinct = remove_first-AreDistinct i s.tasks a.distinct;
        apart = λ j h.
            let t = is_member-remove_first j i s.tasks a.distinct in
            let u = a.apart j in ground (arith, t, u, h);
      }

module _ {Q : Type 0} (quiche : Connection Q) where
  accept-active : (s : Serving Q) → IsActive s → TurnIsActive (serve_turn quiche accepting s)
  unfolding serve_turn accept_stream
  accept-active s a = chosen s.connection.inner.closed
    where
      chosen :
          (b : Bool)
          → TurnIsActive (
              after_accept
                (if b
                  then (answered none, s.connection)
                  else after_find s.connection (
                      find_new
                        (quiche.readable s.connection.inner.connection)
                        s.connection.inner.accepted))
                s)
      chosen true = unfold after_accept TurnIsActive in tt
      chosen false = after_accept-active s _ (find_new-FoundNew _ _) a

  turn-active :
      (e : ServeEvent) (events : List ServeEvent) (s : Serving Q)
      → AreForeign (e ∷ events)
      → IsActive s
      → TurnIsActive (serve_turn quiche e s)
  unfolding AreForeign
  turn-active accepting events s f a = accept-active s a
  turn-active joining events s f a = unfold serve_turn TurnIsActive in a
  turn-active (task_ends i) events s f a = unfold serve_turn TurnIsActive in end_task-IsActive i s a
  turn-active (task_panics i) events s f a =
      unfold serve_turn TurnIsActive in panic_task-IsActive i s a
  turn-active (performs o) events s (f, fs) a =
      unfold serve_turn TurnIsActive in
      record {
        members = λ i. ap (is_member i) (perform-accepted quiche o s.connection f) ∙ a.members i;
        distinct = a.distinct;
        apart = a.apart;
      }

  AreForeign-rest :
      (e : ServeEvent) (events : List ServeEvent) → AreForeign (e ∷ events) → AreForeign events
  unfolding AreForeign
  AreForeign-rest accepting events f = f
  AreForeign-rest joining events f = f
  AreForeign-rest (task_ends i) events f = f
  AreForeign-rest (task_panics i) events f = f
  AreForeign-rest (performs o) events (f, fs) = fs

  and_serve-active :
      (t : ServeTurn Q) (loop : Serving Q → ServeTurn Q)
      → TurnIsActive t
      → ((s : Serving Q) → IsActive s → TurnIsActive (loop s))
      → TurnIsActive (and_serve quiche t loop)
  unfolding and_serve TurnIsActive
  and_serve-active (returns e) loop t h = tt
  and_serve-active (goes_on s) loop t h = h s t

  loop-active :
      (events : List ServeEvent) (s : Serving Q)
      → AreForeign events
      → IsActive s
      → TurnIsActive (serve_requests quiche events s)
  unfolding serve_requests TurnIsActive
  loop-active [] s f a = a
  loop-active (e ∷ events) s f a =
      and_serve-active (serve_turn quiche e s) (serve_requests quiche events)
        (turn-active e events s f a) (λ t. loop-active events t (AreForeign-rest e events f))

  -- From the handshake on, where nobody else accepts or releases streams, the accepted set is at
  -- every time that of the streams of the running tasks, each once, and, apart from them, of the control
  -- stream and the streams whose tasks have panicked: a stream has one task at most, the control stream
  -- is never served, and the stream of a task that panicked is neither released nor served again.
  pub serve_requests-IsActive :
      (q : Q) (events : List ServeEvent)
      → AreForeign events
      → TurnIsActive (
          serve_requests quiche events (record { connection = connected q; tasks = []; lost = [] }))
  serve_requests-IsActive q events f = loop-active events _ f (record {
    members = λ i. unfold is_member in refl;
    distinct = unfold AreDistinct in tt;
    apart = λ i. unfold is_member in λ h. absurd cc;
  })

  -- A stream whose task has ended while the stream is still readable is given to a second task by
  -- the next turn of the loop that finds it first.
  pub serve_turn-again :
      (i : ℕ) (rest : List ℕ) (s : Serving Q)
      → is_member i s.tasks ≡ true
      → s.connection.inner.closed ≡ false
      → quiche.readable s.connection.inner.connection ≡ i ∷ rest
      → (s' : Serving Q) × (serve_turn quiche accepting (end_task i s) ≡ goes_on s')
        × (s'.tasks ≡ i ∷ remove_first i s.tasks)
  unfolding serve_turn end_task release accept_stream find_new after_find after_accept
  serve_turn-again i rest s m c r =
      let released = release i s.connection in
      let accepted = i ∷ remove_all i s.connection.inner.accepted in
      (
        record {
          connection = with_inner released (record released.inner { accepted = accepted });
          tasks = i ∷ remove_first i s.tasks;
          lost = s.lost;
        },
        rw (m, c, r, remove_all-member i s.connection.inner.accepted) refl,
        refl,
      )
