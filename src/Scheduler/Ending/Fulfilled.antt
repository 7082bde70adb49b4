-- ===== src/Scheduler/Ending/Fulfilled.antt =====
-- internal/scheduler/pipeline.go: a close whose attempts end in a confirmation, to the end of
-- `execute`. Internal lemmas.
use valve_controller.Common.{
  ℕ, suc, ℤ, pos_part, ◌≡◌, sym, ap, subst, ◌∙◌, Bool, false, Option, none, arith, [],
}
use valve_controller.Common.Text.{Text}
use valve_controller.Device.{Duration, ValveConfig}
use valve_controller.Scheduler.Action.{
  close, sending, fulfilled, Failure, is_internal_safety_ping, is_open_timed,
}
use valve_controller.Scheduler.World.{Ptr, Ctx, action_ctx, World, ◌>>◌, when, emit, set_action}
use valve_controller.Scheduler.Shared.{add_to_history, write_status}
use valve_controller.Scheduler.Wait.{pause_step}
use valve_controller.Scheduler.Execute.{
  fulfil_action, timed_wait, timed_close, complete, conclude_action, run_action, claim, release,
  check_closed, update_action_id, refused, powers, execute,
}
use valve_controller.Scheduler.Execute.Attempt.{
  return, attempt_once, resume, attempt_loop, attempt_with_retry,
}
use valve_controller.Scheduler.Keeps.Waits.{if_either, pause_step-keeps}
use valve_controller.Scheduler.Keeps.Attempts.{attempt_with_retry-keeps}
use valve_controller.Scheduler.Keeps.Tasks.{Holds-wait, Holds-self}
use valve_controller.Scheduler.Ending.{IsTyped, Typed, At, InState, fulfil_action-InState}
use valve_controller.Scheduler.Ending.Final.{checked}

-- A round that returns ends the attempt loop.
pub attempt_with_retry-first :
    (ctx : Ctx) (p : Ptr) (power : Bool) (retry_count : ℤ) (timeout : Duration) (n : ℕ) (w : World)
    → pos_part retry_count ≡ suc n
    → (attempt_once ctx p power timeout 0 (set_action p (λ a. record a { state = sending }) w)).0
      ≡ return none
    → (attempt_with_retry ctx p power retry_count timeout w).0 ≡ none
unfolding attempt_with_retry attempt_loop
attempt_with_retry-first ctx p power retry_count timeout n w c h =
    let u = set_action p (λ a. record a { state = sending }) w in
    let r = attempt_once ctx p power timeout 0 u in
    ap (λ k. (attempt_loop ctx p power timeout retry_count 0 k u).0) c
    ∙ ap (λ v. (resume v (attempt_loop ctx p power timeout retry_count 1 n) r.1).0) h

module _ (p : Ptr) where
  -- A close that was confirmed is at its end.
  timed-Fulfilled :
      (ctx : Ctx) (cfg : ValveConfig) (now : ℕ) (w : World)
      → InState close p fulfilled w
      → InState close p fulfilled
          (when (is_open_timed (w.heap p).type) (timed_wait ctx p now >> timed_close p cfg) w).1
  timed-Fulfilled ctx cfg now w h = rw (ap is_open_timed h.0.0) h

  update_action_id-Fulfilled :
      (id : Text) (w : World)
      → InState close p fulfilled w
      → InState close p fulfilled (update_action_id id w)
  unfolding update_action_id write_status emit
  update_action_id-Fulfilled id w h = h

  complete-Fulfilled :
      (ctx : Ctx) (cfg : ValveConfig) (w : World)
      → Typed close p w
      → InState close p fulfilled (complete ctx p cfg false w).1
  unfolding complete check_closed emit
  complete-Fulfilled ctx cfg w h =
      let u = check_closed w in
      let paused =
        pause_step-keeps (InState close p fulfilled) (Holds-wait (At close p fulfilled) p)
          (fulfil_action p u) (fulfil_action-InState close p u h) in
      update_action_id-Fulfilled [] _
        (timed-Fulfilled ctx cfg u.now (pause_step (fulfil_action p u)) paused)

  conclude-Fulfilled :
      (ctx : Ctx) (cfg : ValveConfig) (e : Option Failure) (w : World)
      → e ≡ none
      → Typed close p w
      → InState close p fulfilled (conclude_action ctx p cfg false e w).1
  conclude-Fulfilled ctx cfg e w h typed =
      subst (λ x. InState close p fulfilled (conclude_action ctx p cfg false x w).1) (sym h)
        (complete-Fulfilled ctx cfg w typed)

  run_action-Fulfilled :
      (ctx : Ctx) (cfg : ValveConfig) (w : World)
      → Typed close p w
      → (attempt_with_retry ctx p false cfg.retry_count cfg.command_timeout w).0 ≡ none
      → InState close p fulfilled (run_action ctx p cfg w).1
  unfolding run_action
  run_action-Fulfilled ctx cfg w h confirmed =
      let own = Holds-self (IsTyped close p) p false (λ a s r. r) (λ a n t r. r) in
      let r = attempt_with_retry ctx p false cfg.retry_count cfg.command_timeout w in
      let run : Bool → World = λ power.
        let x = attempt_with_retry ctx p power cfg.retry_count cfg.command_timeout w in
        (conclude_action ctx p cfg power x.0 x.1).1 in
      subst (λ b. InState close p fulfilled (run b)) (sym (ap powers h.0))
        (conclude-Fulfilled ctx cfg r.0 r.1 confirmed (
          attempt_with_retry-keeps (Typed close p) p false own ctx cfg.retry_count
            cfg.command_timeout w h))

  release-Fulfilled :
      (w : World) → InState close p fulfilled w → InState close p fulfilled (release p w)
  unfolding release add_to_history
  release-Fulfilled w h =
      if_either (InState close p fulfilled) (is_internal_safety_ping (w.heap p)) _ _ h h

  -- A close that is not refused, since that is for opens, and whose attempts are confirmed.
  pub execute-Fulfilled :
      (ctx : Ctx) (w : World)
      → Typed close p (checked p w)
      → let cfg = w.info.config in
        (attempt_with_retry
            (action_ctx ctx)
            p
            false
            cfg.retry_count
            cfg.command_timeout
            (claim p (checked p w))).0
          ≡ none
        → InState close p fulfilled (execute ctx p w).1
  unfolding execute claim add_to_history
  execute-Fulfilled ctx w h confirmed =
      let cfg = w.info.config in
      let v = checked p w in
      let x = (run_action (action_ctx ctx) p cfg (claim p v)).1 in
      let not_refused : refused p cfg v ≡ false = ground (arith, h.0) in
      rw not_refused
        (release-Fulfilled x (run_action-Fulfilled (action_ctx ctx) cfg (claim p v) h confirmed))
