-- ===== src/Edge/Runtime.antt =====
-- src/edge/connector/runtime.rs: the run of a connection over QUIC and over HTTP/2. What the transport,
-- the serve task and the clock answer comes as data.
use libcfd.Prelude.{
  ℕ, ◌≡◌, ◌↔◌, refl, ap, String, Bool, true, false, not, Option, none, some, Result, ok, err,
  if◌then◌else◌, arith, str_append,
}
use libcfd.Edge.Error.{Error, edge, quic, h2}
use libcfd.Edge.Connector.{ServeAttempt}

-- The join of the serve task: its result, or the failure of the task.
pub data Joined : Type 0 where
  joined : Result Error (Unit {0}) → Joined
  task_failed : String → Joined

-- Which branch of the `select!` comes first.
pub data Selected : Type 0 where
  shutdown_first : Selected
  served_first : Joined → Selected

unfoldable pub failed : Error → ServeAttempt
failed e = record { result = err e; registered_at = none; quic_timed_out = false }

-- What a run over QUIC meets: the registration (`none` if it times out), the time of it, the
-- `select!`, whether the shutdown has fired after the unregistration, and the idle timeout.
pub record QuicWorld : Type 0 where
  pub registration : Option (Result Error (Unit {0}))
  pub now : ℕ
  pub selected : Selected
  pub fired_later : Bool
  pub timed_out : Bool

-- The shutdown flag stays up once the select has seen it.
abbrev pub is_fired : Selected → Bool → Bool
is_fired shutdown_first later = true
is_fired (served_first j) later = later

abbrev quic_result : Selected → Result Error (Unit {0})
quic_result shutdown_first = ok tt
quic_result (served_first (joined (ok _))) = err (edge (quic "serve loop ended unexpectedly"))
quic_result (served_first (joined (err e))) = err e
quic_result (served_first (task_failed e)) = err (edge (quic (str_append "serve task failed: " e)))

-- What a run leaves: the attempt, and what was done to end it.
pub record QuicRun : Type 0 where
  pub attempt : ServeAttempt
  pub unregistered : Bool
  pub waited_grace : Bool
  pub closed : Bool
  pub aborted : Bool

abbrev unregistered_run : Error → QuicRun
unregistered_run e = record {
  attempt = failed e;
  unregistered = false;
  waited_grace = false;
  closed = false;
  aborted = false;
}

unfoldable run_registered : QuicWorld → QuicRun
run_registered w =
    let shutdown_fired = is_fired w.selected w.fired_later in
    record {
      attempt = record {
        result = quic_result w.selected;
        registered_at = some w.now;
        quic_timed_out = w.timed_out;
      };
      unregistered = true;
      waited_grace = shutdown_fired;
      closed = true;
      aborted = not shutdown_fired;
    }

unfoldable after_registration : QuicWorld → Option (Result Error (Unit {0})) → QuicRun
unfolding run_registered failed
after_registration w none = unregistered_run (edge (quic "registration timed out"))
after_registration w (some (err e)) = unregistered_run e
after_registration w (some (ok _)) = run_registered w

unfoldable pub run_quic : QuicWorld → QuicRun
unfolding after_registration
run_quic w = after_registration w w.registration

-- What a run over HTTP/2 meets: whether the registration was seen in time, the `select!`, what the
-- serve task answers within the grace period after the shutdown, and the shutdown flag.
pub record H2World : Type 0 where
  pub saw_registration : Bool
  pub now : ℕ
  pub selected : Selected
  pub drained : Option Joined
  pub fired_later : Bool

abbrev drain_result : Option Joined → Result Error (Unit {0})
drain_result none = ok tt
drain_result (some (joined r)) = r
drain_result (some (task_failed e)) = err (edge (h2 (str_append "serve task failed: " e)))

abbrev h2_result : H2World → Selected → Result Error (Unit {0})
h2_result w shutdown_first = drain_result w.drained
h2_result w (served_first (joined (ok _))) =
    if w.fired_later then ok tt else err (edge (h2 "edge closed the connection"))
h2_result w (served_first (joined (err e))) = err e
h2_result w (served_first (task_failed e)) = err (edge (h2 (str_append "serve task failed: " e)))

unfoldable pub run_h2 : H2World → ServeAttempt
run_h2 w = record {
  result = h2_result w w.selected;
  registered_at = if w.saw_registration then some w.now else none;
  quic_timed_out = false;
}

h2_result-fired :
    (w : H2World) (s : Selected) → h2_result w s ≡ ok tt → is_fired s w.fired_later ≡ true
h2_result-fired w shutdown_first h = refl
h2_result-fired w (served_first (joined (ok u))) h = ground (arith, h)
h2_result-fired w (served_first (joined (err e))) h = cc
h2_result-fired w (served_first (task_failed e)) h = cc

-- A run over HTTP/2 succeeds only if the shutdown has fired.
pub run_h2-fired :
    (w : H2World) → (run_h2 w).result ≡ ok tt → is_fired w.selected w.fired_later ≡ true
unfolding run_h2
run_h2-fired w h = h2_result-fired w w.selected h

-- How a run over QUIC ends in order.
abbrev IsOrderly : QuicWorld → QuicRun → Type 0
IsOrderly w r =
    (r.attempt.result ≡ ok tt
      → (w.selected ≡ shutdown_first) × (r.waited_grace ≡ true) × (r.aborted ≡ false))
    × (r.closed ≡ r.unregistered)
    × ((r.unregistered ≡ true) ↔ (r.attempt.registered_at ≡ some w.now))

quic_result-shutdown : (s : Selected) → quic_result s ≡ ok tt → s ≡ shutdown_first
quic_result-shutdown shutdown_first h = refl
quic_result-shutdown (served_first (joined (ok u))) h = cc
quic_result-shutdown (served_first (joined (err e))) h = cc
quic_result-shutdown (served_first (task_failed e)) h = cc

after_registration-IsOrderly :
    (w : QuicWorld) (r : Option (Result Error (Unit {0}))) → IsOrderly w (after_registration w r)
unfolding after_registration run_registered failed
after_registration-IsOrderly w none =
    ((λ h. absurd (cc h)), refl, ((λ h. absurd (cc h)), (λ h. absurd (cc h))))
after_registration-IsOrderly w (some (err e)) =
    ((λ h. absurd (cc h)), refl, ((λ h. absurd (cc h)), (λ h. absurd (cc h))))
after_registration-IsOrderly w (some (ok u)) = (
  (λ h.
      let s = quic_result-shutdown w.selected h in
      (s, ap (λ x. is_fired x w.fired_later) s, ap (λ x. not (is_fired x w.fired_later)) s)),
  refl,
  ((λ h. refl), (λ h. refl)),
)

-- A run over QUIC succeeds only after the shutdown, and then it has waited out the grace period
-- and aborted nothing; it closes the connection exactly when it has unregistered, which is exactly
-- when the connection had registered.
pub run_quic-IsOrderly : (w : QuicWorld) → IsOrderly w (run_quic w)
unfolding run_quic
run_quic-IsOrderly w = after_registration-IsOrderly w w.registration
