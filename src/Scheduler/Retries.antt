-- ===== src/Scheduler/Retries.antt =====
-- internal/scheduler/pipeline.go: how often `attemptWithRetry` tries.
use valve_controller.Common.{ℕ, zero, suc, ◌+◌, ◌≤◌, ◌<◌, ℤ, pos_part, Bool, arith, ltb}
use valve_controller.Device.{Duration}
use valve_controller.Scheduler.Action.{Action}
use valve_controller.Scheduler.World.{Ptr, Ctx, World, emit}
use valve_controller.Scheduler.Execute.Attempt.{
  start_attempt, attempt_once, attempt_loop, attempt_with_retry,
}
use valve_controller.Scheduler.Keeps.Waits.{pause_step-keeps}
use valve_controller.Scheduler.Keeps.Attempts.{when-keeps, resume-keeps, attempt_rest-keeps}
use valve_controller.Scheduler.Keeps.Tasks.{Holds, Holds-wait, Holds-rest}
use valve_controller.Scheduler.Ending.Parts.{set_action-Holds}

module _ (most : ℕ) (p : Ptr) where
  abbrev IsFew : Action → Type 0
  IsFew a = a.attempts ≤ most

  -- At most so many attempts are recorded.
  abbrev Few : World → Type 0
  Few = Holds IsFew p

  start_attempt-Few : (n : ℕ) (w : World) → n + 1 ≤ most → Few w → Few (start_attempt p n w).1
  unfolding start_attempt emit
  start_attempt-Few n w le h =
      let v = pause_step-keeps Few (Holds-wait IsFew p) _ (when-keeps Few (ltb 0 n) _ w h h) in
      set_action-Holds IsFew p _ _ v.1 le

  attempt_loop-Few :
      (ctx : Ctx) (power : Bool) (timeout : Duration) (retry_count : ℤ) (n rounds : ℕ) (w : World)
      → n + rounds ≤ most
      → Few w
      → Few (attempt_loop ctx p power timeout retry_count n rounds w).1
  unfolding attempt_loop
  attempt_loop-Few ctx power timeout retry_count n zero w le h = h
  attempt_loop-Few ctx power timeout retry_count n (suc rounds) w le h =
      let k =
        attempt_rest-keeps Few p power (Holds-rest IsFew p power (λ a s r. r)) ctx timeout n w
          (start_attempt-Few n w (omega arith) h) in
      resume-keeps Few (attempt_once ctx p power timeout n w).0
        (attempt_loop ctx p power timeout retry_count (n + 1) rounds) _ k
        (attempt_loop-Few ctx power timeout retry_count (n + 1) rounds _ (omega arith) k)

-- `attemptWithRetry` records at most `retryCount` attempts in an allocated action that has no more to
-- begin with, whatever happens meanwhile; a count below zero counts as zero.
pub attempt_with_retry_bounded :
    (ctx : Ctx) (p : Ptr) (power : Bool) (retry_count : ℤ) (timeout : Duration) (w : World)
    → p < w.next_ptr
    → (w.heap p).attempts ≤ pos_part retry_count
    → ((attempt_with_retry ctx p power retry_count timeout w).1.heap p).attempts
      ≤ pos_part retry_count
unfolding attempt_with_retry
attempt_with_retry_bounded ctx p power retry_count timeout w lt few =
    let most = pos_part retry_count in
    (attempt_loop-Few most p ctx power timeout retry_count 0 most _ (omega arith)
      (set_action-Holds (IsFew most p) p _ w lt few)).0
