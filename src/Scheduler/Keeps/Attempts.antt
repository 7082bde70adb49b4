-- ===== src/Scheduler/Keeps/Attempts.antt =====
-- The attempt loop keeps what its primitive steps keep.
use valve_controller.Common.{
  ℕ, zero, suc, ◌+◌, ℤ, Bool, true, false, Option, none, some, ◌≡◌, ap, Bool-cases, inl, inr, ltb,
}
use valve_controller.Common.Text.{Text}
use valve_controller.Device.{Duration, command_target}
use valve_controller.Scheduler.Action.{Failure, sending, cancelled}
use valve_controller.Scheduler.World.{Op, Ptr, Ctx, World, M, when, is_done, timeout_ctx}
use valve_controller.Scheduler.Shared.{record_state, set_gauge, write_status}
use valve_controller.Scheduler.Wait.{await_step, cancel_wait, wait_result, after}
use valve_controller.Scheduler.Execute.Attempt.{
  repeat_gap, send_count, power_value, apply_device_state, send_loop, Verdict, again, return, judge,
  start_attempt, conclude, attempt_once, resume, attempt_loop, attempt_with_retry,
}
use valve_controller.Scheduler.Keeps.{WaitKeeps, RestKeeps, AttemptKeeps}
use valve_controller.Scheduler.Keeps.Waits.{
  pause_step-keeps, sleep_step-keeps, wait_for_power-keeps, await_step-keeps, send_zb_send-keeps,
}

pub when-keeps :
    (P : World → Type 0) (b : Bool) (m : M (Unit {0})) (w : World)
    → P w
    → P (m w).1
    → P (when b m w).1
when-keeps P true m w h k = k
when-keeps P false m w h k = h

pub resume-keeps :
    (P : World → Type 0) (v : Verdict) (rest : M (Option Failure)) (w : World)
    → P w
    → P (rest w).1
    → P (resume v rest w).1
resume-keeps P again rest w h k = k
resume-keeps P (return r) rest w h k = h

module _ {A : Op → Type 0} (P : World → Type 0) (keeps : WaitKeeps A P) where
  pub send_loop-keeps :
      (ctx wait_ctx : Ctx) (bridge target : Text) (power first published : Bool) (rounds : ℕ)
      (w : World)
      → P w
      → P (send_loop ctx wait_ctx bridge target power first published rounds w).1
  unfolding send_loop
  send_loop-keeps ctx wait_ctx bridge target power first published zero w h = h
  send_loop-keeps ctx wait_ctx bridge target power true published (suc rounds) w h =
      let k = send_zb_send-keeps P keeps bridge target power w h in
      send_loop-keeps ctx wait_ctx bridge target power false _ rounds _ k
  send_loop-keeps ctx wait_ctx bridge target power false published (suc rounds) w h =
      let slept = sleep_step-keeps P keeps wait_ctx (w.now + repeat_gap) w h in
      let k = send_zb_send-keeps P keeps bridge target power _ slept in
      send_loop-keeps ctx wait_ctx bridge target power false _ rounds _ k

  -- What follows the critical section of `applyDeviceState`.
  pub report-keeps :
      (power : Bool) (w : World) → P (record_state power w) → P (apply_device_state power w).1
  unfolding apply_device_state set_gauge write_status
  report-keeps power w h =
      pause_step-keeps P keeps _ (keeps.emits _ _ (pause_step-keeps P keeps _ (keeps.emits _ _ h)))

module _ {A : Op → Type 0} (P : World → Type 0) (p : Ptr) (power : Bool)
    (keeps : RestKeeps A P p power) where
  judge-keeps : (ctx : Ctx) (e : Option Failure) (w : World) → P w → P (judge ctx p power e w).1
  unfolding judge
  judge-keeps ctx none w h = report-keeps P keeps.wait_keeps power w (keeps.records w h)
  judge-keeps ctx (some e) w h = elim (Bool-cases (is_done ctx w)) [
    | inl e' ↦ rw (e', judge) (keeps.states cancelled w h)
    | inr e' ↦ rw (e', judge) h
  ]

  pub conclude-keeps :
      (ctx : Ctx) (sent : Bool) (w : World)
      → keeps.phase.Waiting w
      → P (conclude ctx p power sent w).1
  unfolding conclude
  conclude-keeps ctx false w h = keeps.phase.ends w h
  conclude-keeps ctx true w h =
      let v = await_step w in
      let k = await_step-keeps keeps.phase.Waiting keeps.phase.waiting_keeps w h in
      judge-keeps ctx (wait_result v) (cancel_wait v) (keeps.phase.ends v k)

  -- The part of an attempt that follows its start.
  pub attempt_rest-keeps :
      (ctx : Ctx) (timeout : Duration) (n : ℕ) (w : World)
      → P (start_attempt p n w).1
      → P (attempt_once ctx p power timeout n w).1
  unfolding attempt_once
  attempt_rest-keeps ctx timeout n w started =
      let Q = keeps.phase.Waiting in
      let v = (start_attempt p n w).1 in
      let wait_ctx = timeout_ctx ctx (after timeout v) in
      let target = command_target v.info in
      let waits =
        wait_for_power-keeps Q keeps.phase.waiting_keeps wait_ctx target (power_value power) v
          (keeps.phase.begins wait_ctx target (power_value power) v started) in
      conclude-keeps ctx _ _ (
        send_loop-keeps Q keeps.phase.waiting_keeps ctx wait_ctx _ _ power true false
          (send_count power v.info.config.close_repeat_count) _ (keeps.marks _ waits))

module _ {A : Op → Type 0} (P : World → Type 0) (p : Ptr) (power : Bool)
    (keeps : AttemptKeeps A P p power) where
  pub start_attempt-keeps : (n : ℕ) (w : World) → P w → P (start_attempt p n w).1
  unfolding start_attempt
  start_attempt-keeps n w h = keeps.attempts _ _ _ (
      pause_step-keeps P keeps.rest_keeps.wait_keeps _
        (when-keeps P (ltb 0 n) _ w h (keeps.emits _ w h)))

  pub attempt_once-keeps :
      (ctx : Ctx) (timeout : Duration) (n : ℕ) (w : World)
      → P w
      → P (attempt_once ctx p power timeout n w).1
  attempt_once-keeps ctx timeout n w h =
      attempt_rest-keeps P p power keeps.rest_keeps ctx timeout n w (start_attempt-keeps n w h)

  pub attempt_loop-keeps :
      (ctx : Ctx) (timeout : Duration) (retry_count : ℤ) (n rounds : ℕ) (w : World)
      → P w
      → P (attempt_loop ctx p power timeout retry_count n rounds w).1
  unfolding attempt_loop
  attempt_loop-keeps ctx timeout retry_count n zero w h = h
  attempt_loop-keeps ctx timeout retry_count n (suc rounds) w h =
      let k = attempt_once-keeps ctx timeout n w h in
      resume-keeps P (attempt_once ctx p power timeout n w).0
        (attempt_loop ctx p power timeout retry_count (n + 1) rounds) _ k
        (attempt_loop-keeps ctx timeout retry_count (n + 1) rounds _ k)

  -- What each step of an attempt keeps, all attempts keep, whatever happens meanwhile.
  pub attempt_with_retry-keeps :
      (ctx : Ctx) (retry_count : ℤ) (timeout : Duration) (w : World)
      → P w
      → P (attempt_with_retry ctx p power retry_count timeout w).1
  unfolding attempt_with_retry
  attempt_with_retry-keeps ctx retry_count timeout w h =
      attempt_loop-keeps ctx timeout retry_count 0 _ _ (keeps.states sending w h)

-- What recording the new state establishes, and waiting keeps, holds after a success.
module _ {A : Op → Type 0} (Q : World → Type 0) (power : Bool) (keeps : WaitKeeps A Q)
    (start : (w : World) → Q (record_state power w)) where
  judge-settles :
      (ctx : Ctx) (p : Ptr) (e : Option Failure) (w : World)
      → (judge ctx p power e w).0 ≡ return none
      → Q (judge ctx p power e w).1
  unfolding judge
  judge-settles ctx p none w = λ h. report-keeps Q keeps power w (start w)
  judge-settles ctx p (some e) w = elim (Bool-cases (is_done ctx w)) [
    | inl e' ↦ rw (e', judge) (λ h. cc)
    | inr e' ↦ rw (e', judge) (λ h. cc)
  ]

  conclude-settles :
      (ctx : Ctx) (p : Ptr) (sent : Bool) (w : World)
      → (conclude ctx p power sent w).0 ≡ return none
      → Q (conclude ctx p power sent w).1
  unfolding conclude
  conclude-settles ctx p false w h = cc
  conclude-settles ctx p true w h = judge-settles ctx p (wait_result (await_step w)) _ h

  attempt_once-settles :
      (ctx : Ctx) (p : Ptr) (timeout : Duration) (n : ℕ) (w : World)
      → (attempt_once ctx p power timeout n w).0 ≡ return none
      → Q (attempt_once ctx p power timeout n w).1
  unfolding attempt_once
  attempt_once-settles ctx p timeout n w h = conclude-settles ctx p _ _ h

  resume-settles :
      (v : Verdict) (rest : M (Option Failure)) (w : World)
      → (v ≡ return none → Q w)
      → ((rest w).0 ≡ none → Q (rest w).1)
      → (resume v rest w).0 ≡ none
      → Q (resume v rest w).1
  resume-settles again rest w h k e = k e
  resume-settles (return r) rest w h k e = h (ap return e)

  attempt_loop-settles :
      (ctx : Ctx) (p : Ptr) (timeout : Duration) (retry_count : ℤ) (n rounds : ℕ) (w : World)
      → (attempt_loop ctx p power timeout retry_count n rounds w).0 ≡ none
      → Q (attempt_loop ctx p power timeout retry_count n rounds w).1
  unfolding attempt_loop
  attempt_loop-settles ctx p timeout retry_count n zero w = λ h. cc
  attempt_loop-settles ctx p timeout retry_count n (suc rounds) w =
      resume-settles (attempt_once ctx p power timeout n w).0
        (attempt_loop ctx p power timeout retry_count (n + 1) rounds) _
        (attempt_once-settles ctx p timeout n w)
        (attempt_loop-settles ctx p timeout retry_count (n + 1) rounds _)

  pub attempt_with_retry-settles :
      (ctx : Ctx) (p : Ptr) (retry_count : ℤ) (timeout : Duration) (w : World)
      → (attempt_with_retry ctx p power retry_count timeout w).0 ≡ none
      → Q (attempt_with_retry ctx p power retry_count timeout w).1
  unfolding attempt_with_retry
  attempt_with_retry-settles ctx p retry_count timeout w =
      attempt_loop-settles ctx p timeout retry_count 0 _ _
