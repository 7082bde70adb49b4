-- ===== src/Scheduler/Keeps/Runs.antt =====
-- `run_action` keeps what its primitive steps keep.
use valve_controller.Common.{◌+◌, ◌-◌, pos, Bool, false, not, Option, none, some, []}
use valve_controller.Common.Text.{Text, text}
use valve_controller.Device.{Time, ValveConfig}
use valve_controller.Scheduler.Action.{
  Action, ActionState, Failure, cancelled, close, is_open_timed, is_internal_safety_ping,
}
use valve_controller.Scheduler.World.{
  Op, Ptr, Output, action_counted, duration_observed, Ctx, close_ctx, World, ◌>>◌, modify, when,
  set_action,
}
use valve_controller.Scheduler.Shared.{set_gauge, write_status}
use valve_controller.Scheduler.Wait.{pause_step}
use valve_controller.Scheduler.Execute.{
  as_closing, as_closed, as_fulfilled, as_failed, as_unconfirmed, fail_action, fulfil_action,
  if_cancelled, count_unless_ping, settle_timed, timed_wait, timed_close, complete, conclude_action,
  run_action, check_closed, update_action_id, mark_close_unconfirmed, close_limit, powers,
}
use valve_controller.Scheduler.Keeps.{WaitKeeps, AttemptKeeps, RunKeeps}
use valve_controller.Scheduler.Keeps.Waits.{if_either, pause_step-keeps, sleep_step-keeps}
use valve_controller.Scheduler.Keeps.Attempts.{when-keeps, attempt_with_retry-keeps}

module _ {A : Op → Type 0} {B : Ptr → Type 0} (P : World → Type 0) (keeps : RunKeeps A B P) where
  waits : WaitKeeps A P
  waits = keeps.run_wait_keeps

  abbrev pub attempts : (q : Ptr) (power : Bool) → B q → AttemptKeeps A P q power
  attempts q power b = record {
    rest_keeps = record {
      wait_keeps = keeps.run_wait_keeps;
      phase = keeps.run_phase;
      marks = λ w h. keeps.run_marks q w b h;
      states = λ s w h. keeps.acts q (λ a. record a { state = s }) w b h;
      records = λ w h. keeps.records power w h;
    };
    attempts = λ n t w h. keeps.acts q (λ a. record a { attempts = n; last_attempt = t }) w b h;
  }

  pub update_action_id-keeps : (id : Text) (w : World) → P w → P (update_action_id id w)
  unfolding update_action_id write_status
  update_action_id-keeps id w h = keeps.emits _ _ (keeps.names id w h)

  mark-keeps : (w : World) → P w → P (mark_close_unconfirmed w)
  unfolding mark_close_unconfirmed set_gauge write_status
  mark-keeps w h = if_either P _ _ w (keeps.emits _ _ (keeps.emits _ _ (keeps.forgets w h))) h

  pub check_closed-keeps : (w : World) → P w → P (check_closed w)
  unfolding check_closed
  check_closed-keeps w h = keeps.emits _ w h

  count-keeps : (p : Ptr) (o : Action → Output) (w : World) → P w → P (count_unless_ping p o w)
  count-keeps p o w h =
      if_either P (is_internal_safety_ping (w.heap p)) _ _ h (keeps.emits (o (w.heap p)) w h)

  pub settle_timed-keeps :
      (p : Ptr) (e : Option Failure) (w : World) → B p → P w → P (settle_timed p e w)
  unfolding settle_timed
  settle_timed-keeps p none w b h = keeps.acts p (as_closed w.now) w b h
  settle_timed-keeps p (some e) w b h =
      mark-keeps _ (keeps.emits _ _ (keeps.acts p (as_unconfirmed w.now e) w b h))

  pub timed_wait-keeps :
      (ctx : Ctx) (p : Ptr) (now : Time) (w : World) → B p → P w → P (timed_wait ctx p now w).1
  unfolding timed_wait
  timed_wait-keeps ctx p now w b h = sleep_step-keeps P waits ctx _ _ (
      pause_step-keeps P waits _
        (update_action_id-keeps (w.heap p).id _ (keeps.acts p (as_closing _) w b h)))

  timed_close-keeps :
      (p : Ptr) (cfg : ValveConfig) (w : World) → B p → P w → P (timed_close p cfg w).1
  unfolding timed_close
  timed_close-keeps p cfg w b h = settle_timed-keeps p _ _ b (
      pause_step-keeps P waits _ (
        check_closed-keeps _ (
          attempt_with_retry-keeps P w.next_ptr false (attempts w.next_ptr false (keeps.fresh w h))
            (close_ctx (w.now + close_limit)) cfg.retry_count cfg.command_timeout _
            (keeps.allocs (w.heap p).valve_name (w.heap p).namespace close (pos 0) w h))))

  fail_action-keeps :
      (p : Ptr) (power : Bool) (e : Failure) (w : World) → B p → P w → P (fail_action p power e w)
  unfolding fail_action
  fail_action-keeps p power e w b h =
      let k =
        count-keeps p (λ a. action_counted a.type (text "failed"))
          (set_action p (as_failed w.now e) w) (keeps.acts p (as_failed w.now e) w b h) in
      if_cancelled-keeps (w.heap p).state _ _ h (if_either P power _ _ k (mark-keeps _ k))
    where
      if_cancelled-keeps : (s : ActionState) (x y : World) → P x → P y → P (if_cancelled s x y)
      if_cancelled-keeps cancelled x y h k = h
      if_cancelled-keeps _ x y h k = k

  pub fulfil_action-keeps : (p : Ptr) (w : World) → B p → P w → P (fulfil_action p w)
  unfolding fulfil_action
  fulfil_action-keeps p w b h =
      let u = set_action p (as_fulfilled w.now) w in
      let o = λ (a : Action). action_counted a.type (text "fulfilled") in
      count-keeps p (λ a. duration_observed a.type (w.now - a.requested_at))
        (count_unless_ping p o u) (count-keeps p o u (keeps.acts p (as_fulfilled w.now) w b h))

  pub conclude_action-keeps :
      (ctx : Ctx) (p : Ptr) (cfg : ValveConfig) (power : Bool) (e : Option Failure) (w : World)
      → B p
      → P w
      → P (conclude_action ctx p cfg power e w).1
  unfolding complete
  conclude_action-keeps ctx p cfg power (some e) w b h = fail_action-keeps p power e w b h
  conclude_action-keeps ctx p cfg power none w b h =
      let u = (when (not power) (modify check_closed) w).1 in
      let k = when-keeps P (not power) (modify check_closed) w h (check_closed-keeps w h) in
      let v = pause_step (fulfil_action p u) in
      let kv = pause_step-keeps P waits _ (fulfil_action-keeps p u b k) in
      update_action_id-keeps [] _ (
        when-keeps P (is_open_timed (v.heap p).type) (timed_wait ctx p u.now >> timed_close p cfg) v
          kv (timed_close-keeps p cfg _ b (timed_wait-keeps ctx p u.now v b kv)))

  -- What each step of an action keeps, the whole action keeps.
  pub run_action-keeps :
      (ctx : Ctx) (p : Ptr) (cfg : ValveConfig) (w : World)
      → B p
      → P w
      → P (run_action ctx p cfg w).1
  unfolding run_action
  run_action-keeps ctx p cfg w b h =
      let power = powers (w.heap p).type in
      conclude_action-keeps ctx p cfg power _ _ b (
        attempt_with_retry-keeps P p power (attempts p power b) ctx cfg.retry_count
          cfg.command_timeout w h)
