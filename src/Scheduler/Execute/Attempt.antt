-- ===== src/Scheduler/Execute/Attempt.antt =====
-- internal/scheduler/pipeline.go: `attemptWithRetry` and `applyDeviceState`.
use valve_controller.Common.{
  ℕ, zero, suc, ◌+◌, ℤ, pos, pos_part, Bool, true, false, ◌||◌, Option, none, some, ltb,
  if◌then◌else◌,
}
use valve_controller.Common.Text.{Text}
use valve_controller.Device.{ValveState, opened, closed, Duration, command_target}
use valve_controller.Scheduler.Action.{
  sending, waiting_confirmation, cancelled, Failure, no_confirmation, context_done,
}
use valve_controller.Scheduler.World.{
  Ptr, retry_counted, Ctx, timeout_ctx, M, ◌>>=◌, ◌>>◌, give, get, modify, when, is_done, emit,
  set_action,
}
use valve_controller.Scheduler.Shared.{record_state, set_gauge, write_status, current_id}
use valve_controller.Scheduler.Wait.{
  pause, sleep_step, after, wait_for_power, wait_result, await_step, cancel_wait, send_zb_send,
}

-- 500 ms.
abbrev pub repeat_gap : ℕ
repeat_gap = 500_000_000

-- `sendCount`.
unfoldable pub send_count : Bool → ℤ → ℕ
send_count true repeat = 1
send_count false repeat = if ltb (pos_part repeat) 1 then 1 else pos_part repeat

abbrev pub state_of : Bool → ValveState
state_of true = opened
state_of false = closed

abbrev pub power_value : Bool → ℤ
power_value true = pos 1
power_value false = pos 0

-- `applyDeviceState`. The call of the Kubernetes API takes time.
unfoldable pub apply_device_state : Bool → M (Unit {0})
apply_device_state power = do
  modify (record_state power)
  modify (set_gauge (state_of power))
  pause
  w ← get
  modify (write_status (state_of power) (current_id w))
  pause

-- The loop over `sendCount`; the number counts the rounds left.
unfoldable pub send_loop :
    Ctx → Ctx → Text → Text → Bool → (first : Bool) → (published : Bool) → ℕ → M Bool
send_loop ctx wait_ctx bridge target power first published zero = give published
send_loop ctx wait_ctx bridge target power first published (suc rounds) = do
  w ← get
  when (if first then false else true) (modify (sleep_step wait_ctx (w.now + repeat_gap)))
  sent ← send_zb_send bridge target power
  send_loop ctx wait_ctx bridge target power false (sent || published) rounds

-- How the body of the attempt loop ends: by `continue`, or by `return`.
pub data Verdict : Type 0 where
  again : Verdict
  return : Option Failure → Verdict

-- What follows `err := <-waitCh`.
unfoldable pub judge : Ctx → Ptr → Bool → Option Failure → M Verdict
judge ctx p power none = do apply_device_state power; give (return none)
judge ctx p power (some e) = do
  w ← get
  if is_done ctx w
      then (do
        modify (set_action p (λ a. record a { state = cancelled }))
        give (return (some context_done)))
      else give again

-- The start of an attempt: a retry is counted, and the object is updated.
unfoldable pub start_attempt : Ptr → ℕ → M (Unit {0})
start_attempt p n = do
  w ← get
  when (ltb 0 n) (modify (emit (retry_counted (w.heap p).type)))
  pause
  v ← get
  modify (set_action p (λ a. record a { attempts = n + 1; last_attempt = some v.now }))

-- What follows the publishing, by whether a message was accepted.
unfoldable pub conclude : Ctx → Ptr → Bool → Bool → M Verdict
conclude ctx p power false = do modify cancel_wait; give again
conclude ctx p power true = do
  modify await_step
  v ← get
  modify cancel_wait
  judge ctx p power (wait_result v)

-- The body of the attempt loop, for attempt number `n` from 0. What is known of the valve is read
-- anew.
unfoldable pub attempt_once : Ctx → Ptr → Bool → Duration → ℕ → M Verdict
attempt_once ctx p power timeout n = do
  start_attempt p n
  w ← get
  let target = command_target w.info
  let wait_ctx = timeout_ctx ctx (after timeout w)
  modify (wait_for_power wait_ctx target (power_value power))
  modify (set_action p (λ a. record a { state = waiting_confirmation }))
  sent ←
      send_loop ctx wait_ctx w.info.bridge_name target power true false
        (send_count power w.info.config.close_repeat_count)
  conclude ctx p power sent

abbrev pub resume : Verdict → M (Option Failure) → M (Option Failure)
resume again rest = rest
resume (return r) rest = give r

-- The attempt loop; the last number counts the rounds left.
unfoldable pub attempt_loop : Ctx → Ptr → Bool → Duration → ℤ → ℕ → ℕ → M (Option Failure)
attempt_loop ctx p power timeout retry_count n zero = give (some (no_confirmation retry_count))
attempt_loop ctx p power timeout retry_count n (suc rounds) = do
  verdict ← attempt_once ctx p power timeout n
  resume verdict (attempt_loop ctx p power timeout retry_count (n + 1) rounds)

-- `attemptWithRetry`.
unfoldable pub attempt_with_retry : Ctx → Ptr → Bool → ℤ → Duration → M (Option Failure)
attempt_with_retry ctx p power retry_count timeout = do
  modify (set_action p (λ a. record a { state = sending }))
  attempt_loop ctx p power timeout retry_count 0 (pos_part retry_count)
