-- ===== src/Edge/H2/Register.antt =====
-- src/edge/h2/register.rs: the task that registers the connection on its control stream, waits for
-- the shutdown and unregisters.
use libcfd.Prelude.{
  ℕ, ◌≡◌, ◌⊎◌, refl, sym, ap, ◌∙◌, String, Bool, true, false, List, [], ◌∷◌, Option, none, some,
  Result, inl, inr, ok, err, Bytes, if◌then◌else◌, str_append,
}
use libcfd.Edge.Error.{Error, edge, h2}
use libcfd.Edge.Event.{
  Notify, StoresNoPermit, Event, EventUse, fires, waits, fire, notified, use_event, has_fire,
  AreOthers, notified-woken,
}
use libcfd.Edge.Control.{RegistrationOptions, Process, register_on_stream, unregister}
use libcfd.Rpc.Tunnel.{TunnelClient, ConnectionDetails}
use libcfd.Tunnel.{Tunnel, Codecs}

-- What the connection's tasks share, as far as this task uses it.
pub record H2Shared (N : Type 0) : Type 0 where
  pub tunnel : Tunnel
  pub registration_options : RegistrationOptions
  pub configuration_json : Bytes
  pub registered : Event N
  pub control_shutdown : N

-- How far the task came: the results it sent to `serve`, the shared state, its client, and whether
-- it unregistered.
pub record ControlRun (N : Type 0) : Type 0 where
  pub sent : List (Result Error (Unit {0}))
  pub shared : H2Shared N
  pub client : Option TunnelClient
  pub unregistered : Bool

module _ {N : Type 0} (notify : Notify N) where
  -- What the other tasks do to `control_shutdown` while this one waits.
  unfoldable use_notify : List EventUse → N → N
  use_notify [] n = n
  use_notify (fires ∷ uses) n = use_notify uses (notify.notify_waiters n)
  use_notify (waits w ∷ uses) n = use_notify uses (notify.notified w n)

  abbrev gives_up : Error → H2Shared N → Option TunnelClient → ControlRun N
  gives_up e shared client = record {
    sent = err e ∷ [];
    shared = shared;
    client = client;
    unregistered = false;
  }

  -- Past the wait, if it is over.
  abbrev after_wait : Bool → H2Shared N → TunnelClient → ControlRun N
  after_wait woken shared client = record {
    sent = ok tt ∷ [];
    shared = shared;
    client = some (if woken then unregister client else client);
    unregistered = woken;
  }

  unfoldable wait_shutdown : ℕ → List EventUse → H2Shared N → TunnelClient → ControlRun N
  unfolding use_notify
  wait_shutdown task uses shared client =
      let waiters = use_notify uses (notify.notified task shared.control_shutdown) in
      after_wait (notify.is_woken task waiters) (record shared { control_shutdown = waiters })
        client

  unfoldable after_register :
      ℕ → List EventUse → H2Shared N → Result Error ConnectionDetails × TunnelClient → ControlRun N
  unfolding wait_shutdown fire
  after_register task uses shared (err e, client) = gives_up e shared (some client)
  after_register task uses shared (ok _, client) =
      wait_shutdown task uses (record shared { registered = fire notify shared.registered }) client

  -- The response that opens the stream gives the sending half; `new_client` is the client over
  -- both halves. `during` is what the others do to `control_shutdown` while the registration is
  -- under way, and `uses` what they do from the wait on.
  unfoldable pub handle_control_stream :
      {S : Type 0}
      → Codecs
      → Process
      → (S → TunnelClient)
      → ℕ
      → List EventUse
      → List EventUse
      → Result String S
      → H2Shared N
      → ControlRun N
  unfolding after_register
  handle_control_stream codecs process new_client task during uses (err e) shared =
      gives_up (edge (h2 (str_append "control stream response failed: " e))) shared none
  handle_control_stream codecs process new_client task during uses (ok send) shared =
      after_register task uses
        (record shared { control_shutdown = use_notify during shared.control_shutdown })
        (register_on_stream codecs process shared.tunnel shared.registration_options
          shared.configuration_json (new_client send))

  -- What a run of the task tells `serve` and the others. A registration that succeeds is told by the
  -- event as by the result, and is undone just when the shutdown is notified after the wait began;
  -- one that fails leaves the event alone and is not undone.
  abbrev pub Settles : List EventUse → Event N → ControlRun N → Type 0
  Settles uses before run =
      ((run.sent ≡ ok tt ∷ [])
        × (run.shared.registered.fired ≡ true)
        × (run.unregistered ≡ has_fire uses))
      ⊎ ((e : Error) × ((run.sent ≡ err e ∷ [])
            × (run.shared.registered ≡ before)
            × (run.unregistered ≡ false)))

  use_notify-use_event :
      (uses : List EventUse) (e : Event N)
      → (use_event notify uses e).waiters ≡ use_notify uses e.waiters
  unfolding use_notify use_event fire notified
  use_notify-use_event [] e = refl
  use_notify-use_event (fires ∷ uses) e = use_notify-use_event uses (fire notify e)
  use_notify-use_event (waits w ∷ uses) e = use_notify-use_event uses (notified notify w e)

module _ {N : Type 0} (notify : Notify N) (laws : StoresNoPermit notify) where
  use_notify-woken :
      (task : ℕ) (uses : List EventUse) (n : N)
      → AreOthers task uses
      → notify.is_woken task (use_notify notify uses (notify.notified task n)) ≡ has_fire uses
  unfolding notified
  use_notify-woken task uses n others =
      let e : Event N = record { fired = false; waiters = n } in
      ap (notify.is_woken task) (sym (use_notify-use_event notify uses (notified notify task e)))
      ∙ (notified-woken notify laws task uses e others).0

  after_register-Settles :
      (task : ℕ) (uses : List EventUse) (shared : H2Shared N)
      → AreOthers task uses
      → (r : Result Error ConnectionDetails × TunnelClient)
      → Settles notify uses shared.registered (after_register notify task uses shared r)
  unfolding after_register wait_shutdown fire
  after_register-Settles task uses shared others (err e, client) = inr (e, (refl, refl, refl))
  after_register-Settles task uses shared others (ok _, client) =
      inl (refl, refl, use_notify-woken task uses shared.control_shutdown others)

  -- Where `Notify` stores no permit, the control task sends exactly one result, however the response
  -- and the registration end: a success with the event fired, or a failure without it. It
  -- unregisters just when the registration succeeded and the shutdown is notified after its wait
  -- began, whatever was notified before.
  pub handle_control_stream-Settles :
      {S : Type 0} (codecs : Codecs) (process : Process) (new_client : S → TunnelClient) (task : ℕ)
      (during uses : List EventUse) (opened : Result String S) (shared : H2Shared N)
      → AreOthers task uses
      → Settles notify uses shared.registered
          (handle_control_stream notify codecs process new_client task during uses opened shared)
  unfolding handle_control_stream
  handle_control_stream-Settles codecs process new_client task during uses (err e) shared others =
      inr (_, (refl, refl, refl))
  handle_control_stream-Settles codecs process new_client task during uses (ok send) shared others =
      after_register-Settles task uses
        (record shared { control_shutdown = use_notify notify during shared.control_shutdown })
        others
        (register_on_stream codecs process shared.tunnel shared.registration_options
          shared.configuration_json (new_client send))
