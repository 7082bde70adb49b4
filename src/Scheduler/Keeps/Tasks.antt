-- ===== src/Scheduler/Keeps/Tasks.antt =====
-- What the other goroutines, and the attempts for another action, leave of an action.
use valve_controller.Common.{ℕ, ◌<◌, ◌≡◌, ◌≢◌, Bool, true, false, Option, arith}
use valve_controller.Device.{Time, Duration}
use valve_controller.Scheduler.Action.{waiting_confirmation, Action, ActionState, ActionType}
use valve_controller.Scheduler.World.{Ptr, World, write, emit, set_action}
use valve_controller.Scheduler.Shared.{
  finish_wait, record_state, alloc, enqueue, submit, update_config,
}
use valve_controller.Scheduler.Keeps.{
  PhaseKeeps, Any, script-Any, WaitKeeps, RestKeeps, AttemptKeeps,
}
use valve_controller.Scheduler.Keeps.Waits.{one_phase}

pub write_ne : (h : Ptr → Action) (p q : Ptr) (a : Action) → p ≢ q → write h p a q ≡ h q
write_ne h p q a n = ground arith

pub write_self : (h : Ptr → Action) (p : Ptr) (a : Action) → write h p a p ≡ a
write_self h p a = ground arith

module _ (R : Action → Type 0) (p : Ptr) where
  -- The object at `p` is allocated, and `R` holds of it.
  abbrev pub Holds : World → Type 0
  Holds w = R (w.heap p) × (p < w.next_ptr)

  submit-Holds : (type : ActionType) (d : Duration) (w : World) → Holds w → Holds (submit type d w)
  unfolding submit alloc enqueue
  submit-Holds type d w (r, lt) =
      (rw (write_ne w.heap w.next_ptr p _ (λ e. absurd (omega arith))) r, omega arith)

  pub Holds-wait : WaitKeeps Any Holds
  unfolding emit update_config record_state finish_wait
  Holds-wait = record {
    scripted = λ w _. script-Any w.script;
    submits = λ type d w _ h. submit-Holds type d w h;
    configures = λ info w h. h;
    stops = λ w _ h. h;
    pings = λ b w h. h;
    closes = λ w _ h. h;
    scripts = λ w h. h;
    emits = λ o w h. h;
    finishes = λ x r w e n h. h;
    clocks = λ t w h. h;
  }

  abbrev pub Holds-phase : PhaseKeeps Any Holds
  Holds-phase = one_phase Holds (λ d x w h. h) Holds-wait

  record_state-Holds : (power : Bool) (w : World) → Holds w → Holds (record_state power w)
  unfolding record_state
  record_state-Holds true w h = h
  record_state-Holds false w h = h

  -- The attempts for another action.
  pub Holds-other : (q : Ptr) (power : Bool) → q ≢ p → AttemptKeeps Any Holds q power
  unfolding set_action
  Holds-other q power n = record {
    rest_keeps = record {
      wait_keeps = Holds-wait;
      phase = Holds-phase;
      marks = λ w (r, lt). (rw (write_ne w.heap q p _ n) r, lt);
      states = λ s w (r, lt). (rw (write_ne w.heap q p _ n) r, lt);
      records = record_state-Holds power;
    };
    attempts = λ m t w (r, lt). (rw (write_ne w.heap q p _ n) r, lt);
  }

  -- An attempt for the action itself, where `R` is not about the state.
  pub Holds-rest :
      (power : Bool)
      → ((a : Action) (s : ActionState) → R a → R (record a { state = s }))
      → RestKeeps Any Holds p power
  unfolding set_action
  Holds-rest power f = record {
    wait_keeps = Holds-wait;
    phase = Holds-phase;
    marks = λ w (r, lt). (rw (write_self w.heap p _) (f (w.heap p) waiting_confirmation r), lt);
    states = λ s w (r, lt). (rw (write_self w.heap p _) (f (w.heap p) s r), lt);
    records = record_state-Holds power;
  }

  -- The attempts for the action itself, where `R` is not about what they change.
  pub Holds-self :
      (power : Bool)
      → ((a : Action) (s : ActionState) → R a → R (record a { state = s }))
      → ((a : Action) (n : ℕ) (t : Option Time)
          → R a
          → R (record a { attempts = n; last_attempt = t }))
      → AttemptKeeps Any Holds p power
  unfolding set_action
  Holds-self power f g = record {
    rest_keeps = Holds-rest power f;
    attempts = λ m t w (r, lt). (rw (write_self w.heap p _) (g (w.heap p) m t r), lt);
  }
