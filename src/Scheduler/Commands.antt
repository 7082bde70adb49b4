-- ===== src/Scheduler/Commands.antt =====
-- internal/scheduler/pipeline.go: the commands that an action hands to the MQTT client.
pub mod Closes
pub mod TimedOpens
pub mod Stop
use valve_controller.Common.{
  ℕ, zero, suc, ◌+◌, ◌<◌, ℤ, pos, pos_part, Bool, true, false, List, [], ◌∷◌, ◌++◌, Option, none,
  ltb, ◌≡◌, refl, sym, ap, subst, ◌∙◌, In, inl, inr, arith, if◌then◌else◌,
}
use valve_controller.Common.Text.{Text}
use valve_controller.Device.{Duration, ValveConfig, command_target}
use valve_controller.Scheduler.Action.{
  Failure, open_timed, close, sending, waiting_confirmation, fulfilled, is_open_timed,
}
use valve_controller.Scheduler.World.{
  Ptr, Output, command, Ctx, action_ctx, close_ctx, timeout_ctx, World, ◌>>◌, when, emit,
  set_action,
}
use valve_controller.Scheduler.Shared.{
  finish_wait, record_state, update_config, submit, alloc, enqueue, add_to_history,
}
use valve_controller.Scheduler.Wait.{after, wait_for_power, send_zb_send, pause_step}
use valve_controller.Scheduler.Execute.{
  fulfil_action, timed_wait, timed_close, complete, conclude_action, run_action, claim, release,
  check_closed, refused, powers, close_limit, upgrade, execute,
}
use valve_controller.Scheduler.Execute.Attempt.{
  send_count, send_loop, power_value, start_attempt, conclude, attempt_once, resume, attempt_loop,
  attempt_with_retry,
}
use valve_controller.Scheduler.Keeps.{Any, AnyPtr, script-Any, WaitKeeps, RunKeeps}
use valve_controller.Scheduler.Keeps.Waits.{one_phase, pause_step-keeps, wait_for_power-keeps}
use valve_controller.Scheduler.Keeps.Attempts.{
  send_loop-keeps, conclude-keeps, start_attempt-keeps, attempt_loop-keeps, resume-keeps,
  attempt_with_retry-keeps,
}
use valve_controller.Scheduler.Keeps.Tasks.{Holds-wait, Holds-self}
use valve_controller.Scheduler.Keeps.Runs.{
  attempts, check_closed-keeps, fulfil_action-keeps, timed_wait-keeps, settle_timed-keeps,
  update_action_id-keeps,
}
use valve_controller.Scheduler.Keeps.Whole.{ExecuteKeeps, release-keeps}
use valve_controller.Scheduler.Ending.{IsTyped, Typed, At, InState, fulfil_action-InState}
use valve_controller.Scheduler.Ending.Final.{checked, upgrade-Typed}

-- Every bridge has a client.
abbrev pub AllReachable : World → Type 0
AllReachable w = (b : Text) → w.bridges b ≡ true

-- A statement about what was put out since the log was `base`, kept when the log grows.
module _ (base : List Output) (G : List Output → Type 0)
    (grows : (o : Output) (newer : List Output) → G newer → G (o ∷ newer)) where
  abbrev pub Since : World → Type 0
  Since w = AllReachable w × ((newer : List Output) × (w.output ≡ newer ++ base) × G newer)

  record_state-Since : (power : Bool) (w : World) → Since w → Since (record_state power w)
  unfolding record_state
  record_state-Since true w h = h
  record_state-Since false w h = h

  emit-Since : (o : Output) (w : World) → Since w → Since (emit o w)
  unfolding emit
  emit-Since o w (r, (newer, e, g)) = (r, (o ∷ newer, ap (λ os. o ∷ os) e, grows o newer g))

  pub Since-wait : WaitKeeps Any Since
  unfolding update_config submit alloc enqueue finish_wait
  Since-wait = record {
    scripted = λ w _. script-Any w.script;
    submits = λ type d w _ h. h;
    configures = λ info w h. h;
    stops = λ w _ h. h;
    pings = λ b w h. h;
    closes = λ w _ h. record_state-Since false w h;
    scripts = λ w h. h;
    emits = emit-Since;
    finishes = λ x r w e n h. h;
    clocks = λ t w h. h;
  }

  pub Since-execute : ExecuteKeeps Any AnyPtr Since
  unfolding alloc set_action claim add_to_history
  Since-execute = record {
    run_keeps = record {
      run_wait_keeps = Since-wait;
      run_phase = one_phase Since (λ d x w h. h) Since-wait;
      run_marks = λ q w _ h. h;
      acts = λ q f w _ h. h;
      fresh = λ w _. tt;
      records = record_state-Since;
      allocs = λ name namespace type d w h. h;
      forgets = λ w h. h;
      names = λ id w h. h;
    };
    claims = λ p w h. h;
    frees = λ w h. h;
    remembers = λ p w h. h;
  }

abbrev pub HasClose : List Output → Type 0
HasClose newer = (bridge : Text) × (target : Text) × In (command bridge target false) newer

pub HasClose-grows : (o : Output) (newer : List Output) → HasClose newer → HasClose (o ∷ newer)
HasClose-grows o newer (b, t, i) = (b, t, inr i)

at_least_one : (n : ℕ) → (m : ℕ) × ((if ltb n 1 then 1 else n) ≡ suc m)
at_least_one zero = (0, refl)
at_least_one (suc n) = (n, ground arith)

pub send_count-positive : (c : ℤ) → (m : ℕ) × (send_count false c ≡ suc m)
unfolding send_count
send_count-positive c = at_least_one (pos_part c)
