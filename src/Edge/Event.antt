-- ===== src/Edge/Event.antt =====
-- src/edge/event.rs: a one-shot event. The waiters are tokio's `Notify`: of a type `N`, with the
-- operations that the code uses.
use libcfd.Prelude.{ℕ, ◌≡◌, ◌≢◌, refl, ap, ◌∙◌, Bool, true, false, ◌||◌, List, [], ◌∷◌}

-- `notified` begins the wait of a task; `is_woken` tells whether its future is ready.
pub record Notify (N : Type 0) : Type 0 where
  pub new : N
  pub notified : ℕ → N → N
  pub notify_waiters : N → N
  pub is_woken : ℕ → N → Bool

-- What tokio documents: `notify_waiters` completes every wait that has begun, and stores no permit,
-- so a wait that begins later is not complete.
pub record StoresNoPermit {N : Type 0} (notify : Notify N) : Type 0 where
  pub begins : (w : ℕ) (n : N) → notify.is_woken w (notify.notified w n) ≡ false
  pub others :
      (w v : ℕ) (n : N) → w ≢ v → notify.is_woken w (notify.notified v n) ≡ notify.is_woken w n
  pub wakes : (w : ℕ) (n : N) → notify.is_woken w (notify.notify_waiters n) ≡ true

pub record Event (N : Type 0) : Type 0 where
  pub fired : Bool
  pub waiters : N

-- The uses of an event that its clones share.
pub data EventUse : Type 0 where
  fires : EventUse
  waits : ℕ → EventUse

module _ {N : Type 0} (notify : Notify N) where
  unfoldable pub new : Event N
  new = record { fired = false; waiters = notify.new }

  unfoldable pub fire : Event N → Event N
  fire e = record { fired = true; waiters = notify.notify_waiters e.waiters }

  unfoldable pub is_fired : Event N → Bool
  is_fired e = e.fired

  unfoldable pub notified : ℕ → Event N → Event N
  notified w e = record e { waiters = notify.notified w e.waiters }

  unfoldable pub use_event : List EventUse → Event N → Event N
  unfolding fire notified
  use_event [] e = e
  use_event (fires ∷ uses) e = use_event uses (fire e)
  use_event (waits w ∷ uses) e = use_event uses (notified w e)

unfoldable pub has_fire : List EventUse → Bool
has_fire [] = false
has_fire (fires ∷ uses) = true
has_fire (waits w ∷ uses) = has_fire uses

-- The task does not wait again.
unfoldable pub AreOthers : ℕ → List EventUse → Type 0
AreOthers w [] = Unit
AreOthers w (fires ∷ uses) = AreOthers w uses
AreOthers w (waits v ∷ uses) = (w ≢ v) × AreOthers w uses

or_false : (b : Bool) → b ≡ (b || false)
or_false true = refl
or_false false = refl

or_true : (b : Bool) → true ≡ (b || true)
or_true true = refl
or_true false = refl

module _ {N : Type 0} (notify : Notify N) (laws : StoresNoPermit notify) where
  abbrev pub woken : ℕ → Event N → Bool
  woken w e = notify.is_woken w e.waiters

  use_event-woken :
      (w : ℕ) (uses : List EventUse) (e : Event N)
      → AreOthers w uses
      → woken w (use_event notify uses e) ≡ (woken w e || has_fire uses)
  unfolding use_event has_fire AreOthers fire notified
  use_event-woken w [] e a = or_false (woken w e)
  use_event-woken w (fires ∷ uses) e a =
      use_event-woken w uses (fire notify e) a
      ∙ ap (λ b. b || has_fire uses) (laws.wakes w e.waiters)
      ∙ or_true (woken w e)
  use_event-woken w (waits v ∷ uses) e (n, a) =
      use_event-woken w uses (notified notify v e) a
      ∙ ap (λ b. b || has_fire uses) (laws.others w v e.waiters n)

  use_event-fired :
      (uses : List EventUse) (e : Event N)
      → is_fired notify (use_event notify uses e) ≡ (is_fired notify e || has_fire uses)
  unfolding use_event has_fire is_fired fire notified
  use_event-fired [] e = or_false e.fired
  use_event-fired (fires ∷ uses) e = use_event-fired uses (fire notify e) ∙ or_true e.fired
  use_event-fired (waits v ∷ uses) e = use_event-fired uses (notified notify v e)

  -- Where `Notify` completes the waits that have begun and stores no permit, a task that waits on an
  -- event is woken just when the event is fired after the wait has begun: of the fires before it, the
  -- flag tells, and no wait.
  pub notified-woken :
      (w : ℕ) (uses : List EventUse) (e : Event N)
      → AreOthers w uses
      → (woken w (use_event notify uses (notified notify w e)) ≡ has_fire uses)
        × (is_fired notify (use_event notify uses (notified notify w e))
            ≡ (is_fired notify e || has_fire uses))
  unfolding notified is_fired
  notified-woken w uses e a = (
    use_event-woken w uses (notified notify w e) a
        ∙ ap (λ b. b || has_fire uses) (laws.begins w e.waiters),
    use_event-fired uses (notified notify w e),
  )
