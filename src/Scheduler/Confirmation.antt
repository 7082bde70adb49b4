-- ===== src/Scheduler/Confirmation.antt =====
-- internal/scheduler/pipeline.go: what `attemptWithRetry` and `execute` return where no device reports.
pub mod Reported
pub mod Script
pub mod Telemetry
pub mod Waiting
use valve_controller.Common.{
  ℕ, zero, suc, ◌+◌, ℤ, pos, pos_part, Bool, true, false, ◌&&◌, List, [], ◌∷◌, Option, none, some,
  ◌≡◌, refl, ◌≢◌, ap, subst, ◌∙◌, All, Bool-cases, Option-cases, inl, inr, arith, if◌then◌else◌,
  ◌<◌,
}
use valve_controller.Common.Text.{Text}
use valve_controller.Device.{Duration, command_target}
use valve_controller.Mqtt.Event.{SensorEvent}
use valve_controller.Scheduler.Action.{Failure, context_done, is_open_valve, is_terminal, fulfilled}
use valve_controller.Scheduler.World.{
  Ptr, Ctx, timeout_ctx, Op, sensor, elapse, published, enqueues, configures, stops, ping_checks,
  ping_applies, Waiter, World, M, emit, set_action, is_done,
}
use valve_controller.Scheduler.Shared.{
  update_config, submit, alloc, enqueue, apply_closed, set_gauge, write_status, record_state,
  power_is, finish_wait,
}
use valve_controller.Scheduler.Wait.{
  on_event, watch_ctx, react, observe, observe_all, head_ops, tail_ops, pause_step, advance,
  sleep_step, after, wait_for_power, has_result, wait_result, wait_deadline, await_step,
  send_zb_send,
}
use valve_controller.Scheduler.Execute.{claim, execute}
use valve_controller.Scheduler.Execute.Attempt.{
  repeat_gap, send_count, power_value, send_loop, Verdict, again, return, judge, start_attempt,
  conclude, attempt_once, resume, attempt_loop, attempt_with_retry,
}
use valve_controller.Scheduler.Keeps.{WaitKeeps, RunKeeps}
use valve_controller.Scheduler.Keeps.Waits.{
  if_either, sleep_step-keeps, send_zb_send-keeps, wait_for_power-keeps,
}
use valve_controller.Scheduler.Keeps.Attempts.{
  send_loop-keeps, start_attempt-keeps, attempt_once-keeps,
}
use valve_controller.Scheduler.Keeps.Runs.{attempts}
use valve_controller.Scheduler.Ending.{Confirms}
use valve_controller.Scheduler.Ending.Final.{execute-final}
use valve_controller.Scheduler.Confirmation.Script.{Silence, Silence-run}
use valve_controller.Scheduler.Confirmation.Waiting.{
  Unconfirmed, silent_waits, wait_for_power-Unconfirmed, send_loop-Unconfirmed,
  await_step-Unconfirmed, wait_result-ne-none,
}

module _ (power : Bool) where
  judge-fails :
      (ctx : Ctx) (p : Ptr) (r : Option Failure) (w : World)
      → r ≢ none
      → (judge ctx p power r w).0 ≢ return none
  unfolding judge
  judge-fails ctx p none w n = absurd (n refl)
  judge-fails ctx p (some f) w n = elim (Bool-cases (is_done ctx w)) [
    | inl e ↦ rw (e, judge) (λ z. cc)
    | inr e ↦ rw (e, judge) (λ z. cc)
  ]

  conclude-fails :
      (ctx : Ctx) (p : Ptr) (sent : Bool) (w : World)
      → Silence (power_value power) w
      → Unconfirmed (power_value power) w
      → (conclude ctx p power sent w).0 ≢ return none
  unfolding conclude
  conclude-fails ctx p false w s h = λ z. cc
  conclude-fails ctx p true w s h = judge-fails ctx p (wait_result (await_step w)) _ (
      wait_result-ne-none (power_value power) (await_step w)
        (await_step-Unconfirmed (power_value power) w s h))

  attempt_once-fails :
      (ctx : Ctx) (p : Ptr) (timeout : Duration) (n : ℕ) (w : World)
      → Silence (power_value power) w
      → (attempt_once ctx p power timeout n w).0 ≢ return none
  unfolding attempt_once set_action
  attempt_once-fails ctx p timeout n w s =
      let e = power_value power in
      let v = (start_attempt p n w).1 in
      let wait_ctx = timeout_ctx ctx (after timeout v) in
      let target = command_target v.info in
      let started =
        start_attempt-keeps (Silence e) p power (attempts (Silence e) (Silence-run e) p power tt) n
          w s in
      let waits = wait_for_power-keeps (Silence e) (silent_waits e) wait_ctx target e v started in
      let fresh = wait_for_power-Unconfirmed e wait_ctx target v in
      let count = send_count power v.info.config.close_repeat_count in
      conclude-fails ctx p _ _
        (send_loop-keeps (Silence e) (silent_waits e) ctx wait_ctx v.info.bridge_name target power
          true false count _ waits)
        (send_loop-Unconfirmed e ctx wait_ctx v.info.bridge_name target power true false count _
          waits fresh)

  resume-fails :
      (v : Verdict) (rest : M (Option Failure)) (w : World)
      → v ≢ return none
      → (rest w).0 ≢ none
      → (resume v rest w).0 ≢ none
  resume-fails again rest w h k z = k z
  resume-fails (return r) rest w h k z = h (ap return z)

  attempt_loop-fails :
      (ctx : Ctx) (p : Ptr) (timeout : Duration) (retry_count : ℤ) (n rounds : ℕ) (w : World)
      → Silence (power_value power) w
      → (attempt_loop ctx p power timeout retry_count n rounds w).0 ≢ none
  unfolding attempt_loop
  attempt_loop-fails ctx p timeout retry_count n zero w s = λ z. cc
  attempt_loop-fails ctx p timeout retry_count n (suc rounds) w s =
      let e = power_value power in
      resume-fails (attempt_once ctx p power timeout n w).0
        (attempt_loop ctx p power timeout retry_count (n + 1) rounds) _
        (attempt_once-fails ctx p timeout n w s)
        (attempt_loop-fails ctx p timeout retry_count (n + 1) rounds _ (
          attempt_once-keeps (Silence e) p power (attempts (Silence e) (Silence-run e) p power tt)
            ctx timeout n w s))

  -- If no device reports the power asked for while the attempts run, `attemptWithRetry` returns an
  -- error, whatever the brokers accept and whatever else happens.
  pub attempt_with_retry_fails :
      (ctx : Ctx) (p : Ptr) (retry_count : ℤ) (timeout : Duration) (w : World)
      → Silence (power_value power) w
      → (attempt_with_retry ctx p power retry_count timeout w).0 ≢ none
  unfolding attempt_with_retry set_action
  attempt_with_retry_fails ctx p retry_count timeout w s =
      attempt_loop-fails ctx p timeout retry_count 0 (pos_part retry_count) _ s

nothing_confirmed : Confirms (Silence (pos 0)) (λ s. ⊥)
unfolding claim
nothing_confirmed = record {
  run_keeps = Silence-run (pos 0);
  claims = λ p w m. m;
  stays = λ s h. h;
  confirm = λ ctx q retry_count timeout w m e.
      attempt_with_retry_fails false ctx q retry_count timeout w m e;
}

-- `execute` ends no close and no timed open, an allocated object, as fulfilled unless some device
-- reports power 0 in the meantime, whatever the brokers accept and whatever else happens.
pub execute_needs_report :
    (ctx : Ctx) (p : Ptr) (w : World)
    → p < w.next_ptr
    → Silence (pos 0) w
    → is_open_valve ((execute ctx p w).1.heap p).type ≡ false
    → ((execute ctx p w).1.heap p).state ≢ fulfilled
execute_needs_report ctx p w lt m o =
    let (terminal, type, c) =
      execute-final (Silence (pos 0)) (λ s. ⊥) nothing_confirmed ctx p w m lt in
    c o
