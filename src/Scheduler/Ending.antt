-- ===== src/Scheduler/Ending.antt =====
-- internal/scheduler/pipeline.go: the state of an action along `run_action`, whatever happens
-- meanwhile. Internal lemmas.
pub mod Parts
pub mod Actions
pub mod Final
pub mod Fulfilled
use valve_controller.Common.{
  ◌<◌, ◌+◌, ℤ, ◌-◌, pos, ◌≡◌, refl, ◌≢◌, Bool, true, false, not, [], Option, none, some, arith,
  Bool-cases, inl, inr, ◌⊎◌, sym, ◌∙◌, ap, subst,
}
use valve_controller.Common.Text.{Text, text}
use valve_controller.Device.{ValveState, Time, Duration, ValveConfig, closed}
use valve_controller.Scheduler.Action.{
  Action, ActionType, open_valve, open_timed, close, keep_close, is_open_valve, ActionState,
  fulfilled, failed, cancelled, Failure, is_terminal, is_open_timed, is_internal_safety_ping,
}
use valve_controller.Scheduler.World.{
  Ptr, Output, action_counted, duration_observed, Ctx, close_ctx, World, ◌>>◌, modify, when, emit,
  set_action,
}
use valve_controller.Scheduler.Shared.{
  finish_wait, record_state, alloc, submit, enqueue, update_config, add_to_history, set_gauge,
  write_status,
}
use valve_controller.Scheduler.Wait.{pause_step}
use valve_controller.Scheduler.Execute.{
  as_failed, as_fulfilled, as_closing, as_closed, as_unconfirmed, fail_action, fulfil_action,
  if_cancelled, count_unless_ping, settle_timed, timed_wait, timed_close, complete, conclude_action,
  run_action, claim, release, check_closed, update_action_id, mark_close_unconfirmed, close_limit,
  powers,
}
use valve_controller.Scheduler.Execute.Attempt.{attempt_with_retry}
use valve_controller.Scheduler.Keeps.{AnyPtr, Any, script-Any, WaitKeeps, RunKeeps}
use valve_controller.Scheduler.Keeps.Waits.{if_either, pause_step-keeps, sleep_step-keeps}
use valve_controller.Scheduler.Keeps.Attempts.{
  when-keeps, attempt_with_retry-keeps, attempt_with_retry-settles,
}
use valve_controller.Scheduler.Keeps.Tasks.{
  write_self, write_ne, Holds, Holds-wait, Holds-other, Holds-self,
}
use valve_controller.Scheduler.Keeps.Runs.{
  attempts, check_closed-keeps, fulfil_action-keeps, timed_wait-keeps,
}
use valve_controller.Scheduler.Ending.Parts.{
  if_cancelled-keeps, count-keeps, mark-Holds, set_action-Holds, alloc-Holds, count-Holds,
  powers_of_other,
}

-- `S` of the world at the start is kept by all steps, and gives `C` of the recorded state after a
-- confirmed close.
pub record Confirms (S : World → Type 0) (C : ValveState → Type 0) : Type 1 where
  pub run_keeps : RunKeeps Any AnyPtr S
  pub open run_keeps use *
  pub claims : (p : Ptr) (w : World) → S w → S (claim p w)
  pub stays : (s : ValveState) → C s → C closed
  pub confirm :
      (ctx : Ctx) (q : Ptr) (retry_count : ℤ) (timeout : Duration) (w : World)
      → S w
      → (attempt_with_retry ctx q false retry_count timeout w).0 ≡ none
      → C (attempt_with_retry ctx q false retry_count timeout w).1.info.state

module _ (t : ActionType) (p : Ptr) where
  abbrev pub IsTyped : Action → Type 0
  IsTyped a = a.type ≡ t

  -- The action at `p` is of type `t`.
  abbrev pub Typed : World → Type 0
  Typed = Holds IsTyped p

  -- A type and a state of the action at `p`.
  abbrev pub At : ActionState → Action → Type 0
  At s a = (a.type ≡ t) × (a.state ≡ s)

  abbrev pub InState : ActionState → World → Type 0
  InState s = Holds (At s) p

  pub fulfil_action-InState : (w : World) → Typed w → InState fulfilled (fulfil_action p w)
  unfolding fulfil_action
  fulfil_action-InState w (r, lt) =
      let k = set_action-Holds (At fulfilled) p (as_fulfilled w.now) w lt (r, refl) in
      let k' =
        count-Holds (At fulfilled) p (λ a. action_counted a.type (text "fulfilled"))
          (set_action p (as_fulfilled w.now) w) k in
      count-Holds (At fulfilled) p (λ a. duration_observed a.type (w.now - a.requested_at))
        (count_unless_ping p (λ a. action_counted a.type (text "fulfilled"))
          (set_action p (as_fulfilled w.now) w))
        k'

module _ (S : World → Type 0) (C : ValveState → Type 0) (given : Confirms S C) where
  abbrev pub Recorded : World → Type 0
  Recorded w = C w.info.state

  pub Recorded-wait : WaitKeeps Any Recorded
  unfolding emit update_config submit alloc enqueue record_state finish_wait
  Recorded-wait = record {
    scripted = λ w _. script-Any w.script;
    submits = λ type d w _ h. h;
    configures = λ info w h. h;
    stops = λ w _ h. h;
    pings = λ b w h. h;
    closes = λ w _ h. given.stays w.info.state h;
    scripts = λ w h. h;
    emits = λ o w h. h;
    finishes = λ x r w e n h. h;
    clocks = λ t w h. h;
  }

  pub fulfil_action-Recorded : (p : Ptr) (w : World) → Recorded w → Recorded (fulfil_action p w)
  unfolding fulfil_action set_action emit
  fulfil_action-Recorded p w h =
      let u = set_action p (as_fulfilled w.now) w in
      let o = λ (a : Action). action_counted a.type (text "fulfilled") in
      let k = count-keeps Recorded p o u h h in
      count-keeps Recorded p (λ a. duration_observed a.type (w.now - a.requested_at))
        (count_unless_ping p o u) k k

  module _ (t : ActionType) (p : Ptr) where
    -- It is fulfilled, and unless `t` is an indefinite open `C` holds of the recorded
    -- state; or it has failed, or was cancelled.
    abbrev pub Ended : World → Type 0
    Ended w =
        (InState t p fulfilled w × (is_open_valve t ≡ false → Recorded w))
        ⊎ (InState t p failed w ⊎ InState t p cancelled w)

    pub settle_timed-Ended :
        (e : Option Failure) (w : World)
        → (e ≡ none → Recorded w)
        → Typed t p w
        → Ended (settle_timed p e w)
    unfolding settle_timed set_action emit
    settle_timed-Ended none w c (r, lt) =
        inl
          (set_action-Holds (At t p fulfilled) p (as_closed w.now) w lt (r, refl), λ _. closed_kept)
      where
        closed_kept : Recorded (settle_timed p none w)
        closed_kept = c refl
    settle_timed-Ended (some e) w c (r, lt) = inr (
        inl (
          mark-Holds (At t p failed) p _
            (set_action-Holds (At t p failed) p (as_unconfirmed w.now e) w lt (r, refl))))

    pub timed_wait-Typed :
        (ctx : Ctx) (now : Time) (w : World) → Typed t p w → Typed t p (timed_wait ctx p now w).1
    unfolding timed_wait update_action_id write_status emit
    timed_wait-Typed ctx now w (r, lt) = sleep_step-keeps (Typed t p) typed ctx _ _ (
        pause_step-keeps (Typed t p) typed _
          (set_action-Holds (IsTyped t p) p (as_closing _) w lt r))
      where
        typed : WaitKeeps Any (Typed t p)
        typed = Holds-wait (IsTyped t p) p

    pub timed_close-Ended :
        (cfg : ValveConfig) (w : World) → S w → Typed t p w → Ended (timed_close p cfg w).1
    unfolding timed_close check_closed emit
    timed_close-Ended cfg w h (r, lt) =
        let start = alloc (w.heap p).valve_name (w.heap p).namespace close (pos 0) w in
        let ctx = close_ctx (w.now + close_limit) in
        let n : w.next_ptr ≢ p = λ e. absurd (omega arith) in
        let v =
          (attempt_with_retry ctx w.next_ptr false cfg.retry_count cfg.command_timeout start).1 in
        settle_timed-Ended _ _
          (λ e. pause_step-keeps Recorded Recorded-wait (check_closed v) (
            given.confirm ctx w.next_ptr cfg.retry_count cfg.command_timeout start
              (given.allocs (w.heap p).valve_name (w.heap p).namespace close (pos 0) w h) e))
          (pause_step-keeps (Typed t p) (Holds-wait (IsTyped t p) p) (check_closed v) (
            attempt_with_retry-keeps (Typed t p) w.next_ptr false
              (Holds-other (IsTyped t p) p w.next_ptr false n) ctx cfg.retry_count
              cfg.command_timeout start (alloc-Holds (IsTyped t p) p _ _ close (pos 0) w (r, lt))))

    pub fail_action-Ended :
        (power : Bool) (e : Failure) (w : World) → Typed t p w → Ended (fail_action p power e w)
    unfolding fail_action
    fail_action-Ended power e w (r, lt) =
        let failed_counted =
          count-Holds (At t p failed) p (λ a. action_counted a.type (text "failed"))
            (set_action p (as_failed w.now e) w)
            (set_action-Holds (At t p failed) p (as_failed w.now e) w lt (r, refl)) in
        if_cancelled-keeps Ended (w.heap p).state _ _ (λ c. inr (inr ((r, c), lt)))
          (if_either Ended power _ _ (inr (inl failed_counted))
            (inr (inl (mark-Holds (At t p failed) p _ failed_counted))))

    pub update_action_id-Ended : (id : Text) (w : World) → Ended w → Ended (update_action_id id w)
    unfolding update_action_id write_status emit
    update_action_id-Ended id w e = e
