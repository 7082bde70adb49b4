-- ===== src/Scheduler/Commands/TimedOpens.antt =====
-- internal/scheduler/pipeline.go: the close of a timed open is sent, whatever happens.
use valve_controller.Common.{
  ℕ, suc, ◌+◌, ◌<◌, pos, pos_part, Bool, true, false, List, [], ◌++◌, Option, none, ◌≡◌, refl, sym,
  ap, subst, arith,
}
use valve_controller.Device.{Duration, ValveConfig}
use valve_controller.Scheduler.Action.{Failure, open_timed, close, fulfilled, is_open_timed}
use valve_controller.Scheduler.World.{
  Ptr, Output, Ctx, action_ctx, close_ctx, World, ◌>>◌, when, set_action,
}
use valve_controller.Scheduler.Shared.{alloc}
use valve_controller.Scheduler.Wait.{pause_step}
use valve_controller.Scheduler.Execute.{
  fulfil_action, timed_wait, timed_close, complete, conclude_action, run_action, claim,
  check_closed, refused, powers, close_limit, upgrade, execute,
}
use valve_controller.Scheduler.Execute.Attempt.{attempt_with_retry}
use valve_controller.Scheduler.Keeps.Waits.{if_either, pause_step-keeps}
use valve_controller.Scheduler.Keeps.Attempts.{attempt_with_retry-keeps}
use valve_controller.Scheduler.Keeps.Tasks.{Holds-wait, Holds-self}
use valve_controller.Scheduler.Keeps.Runs.{
  attempts, check_closed-keeps, fulfil_action-keeps, timed_wait-keeps, settle_timed-keeps,
  update_action_id-keeps,
}
use valve_controller.Scheduler.Keeps.Whole.{release-keeps}
use valve_controller.Scheduler.Ending.{IsTyped, Typed, At, InState, fulfil_action-InState}
use valve_controller.Scheduler.Ending.Final.{checked, upgrade-Typed}
use valve_controller.Scheduler.Commands.{AllReachable, Since-execute, HasClose, HasClose-grows}
use valve_controller.Scheduler.Commands.Closes.{
  Grown, Sent, Grown-run, Sent-run, attempt_with_retry-Sent,
}

module _ (base : List Output) where
  abbrev Grows : World → Type 0
  Grows = Grown base

  abbrev Sends : World → Type 0
  Sends = Sent base

  timed_close-Sent :
      (p : Ptr) (cfg : ValveConfig) (n : ℕ) (w : World)
      → pos_part cfg.retry_count ≡ suc n
      → Grows w
      → Sends (timed_close p cfg w).1
  unfolding timed_close alloc
  timed_close-Sent p cfg n w c h =
      let start = alloc (w.heap p).valve_name (w.heap p).namespace close (pos 0) w in
      let v =
        (attempt_with_retry (close_ctx (w.now + close_limit)) w.next_ptr false cfg.retry_count
          cfg.command_timeout start).1 in
      let sent =
        attempt_with_retry-Sent base (close_ctx (w.now + close_limit)) w.next_ptr cfg.retry_count
          cfg.command_timeout n start c h in
      settle_timed-keeps Sends (Sent-run base) p _ _ tt (
        pause_step-keeps Sends (Sent-run base).run_wait_keeps (check_closed v)
          (check_closed-keeps Sends (Sent-run base) v sent))

  timed-Sent :
      (ctx : Ctx) (p : Ptr) (cfg : ValveConfig) (now n : ℕ) (w : World)
      → pos_part cfg.retry_count ≡ suc n
      → (w.heap p).type ≡ open_timed
      → Grows w
      → Sends (when (is_open_timed (w.heap p).type) (timed_wait ctx p now >> timed_close p cfg) w).1
  timed-Sent ctx p cfg now n w c type h = rw (ap is_open_timed type) (
      timed_close-Sent p cfg n (timed_wait ctx p now w).1 c
        (timed_wait-keeps Grows (Grown-run base) ctx p now w tt h))

  complete-Sent :
      (ctx : Ctx) (p : Ptr) (cfg : ValveConfig) (n : ℕ) (w : World)
      → pos_part cfg.retry_count ≡ suc n
      → Typed open_timed p w
      → Grows w
      → Sends (complete ctx p cfg true w).1
  unfolding complete
  complete-Sent ctx p cfg n w c typed h =
      let v = pause_step (fulfil_action p w) in
      let still : InState open_timed p fulfilled v =
        pause_step-keeps (InState open_timed p fulfilled) (Holds-wait (At open_timed p fulfilled) p)
          (fulfil_action p w) (fulfil_action-InState open_timed p w typed) in
      let grown =
        pause_step-keeps Grows (Grown-run base).run_wait_keeps (fulfil_action p w)
          (fulfil_action-keeps Grows (Grown-run base) p w tt h) in
      update_action_id-keeps Sends (Sent-run base) [] _
        (timed-Sent ctx p cfg w.now n v c still.0.0 grown)

module _ (p : Ptr) (cfg : ValveConfig) (n : ℕ) (c : pos_part cfg.retry_count ≡ suc n) where
  abbrev opening : Ctx → World → Option Failure × World
  opening ctx w = attempt_with_retry ctx p true cfg.retry_count cfg.command_timeout w

  opening-AllReachable :
      (ctx : Ctx) (w : World) → AllReachable w → Grown (opening ctx w).1.output (opening ctx w).1
  opening-AllReachable ctx w r =
      let grown =
        attempt_with_retry-keeps (Grown w.output) p true
          (attempts (Grown w.output) (Grown-run w.output) p true tt) ctx cfg.retry_count
          cfg.command_timeout w (r, ([], refl, tt)) in
      (grown.0, ([], refl, tt))

  run_action-Sent :
      (ctx : Ctx) (w : World)
      → AllReachable w
      → Typed open_timed p w
      → (opening ctx w).0 ≡ none
      → Sent (opening ctx w).1.output (run_action ctx p cfg w).1
  unfolding run_action
  run_action-Sent ctx w r typed confirmed =
      let x = opening ctx w in
      let own = Holds-self (IsTyped open_timed p) p true (λ a s r. r) (λ a n t r. r) in
      let still =
        attempt_with_retry-keeps (Typed open_timed p) p true own ctx cfg.retry_count
          cfg.command_timeout w typed in
      let run : Bool → World = λ power.
        let y = attempt_with_retry ctx p power cfg.retry_count cfg.command_timeout w in
        (conclude_action ctx p cfg power y.0 y.1).1 in
      let sent = complete-Sent x.1.output ctx p cfg n x.1 c still (opening-AllReachable ctx w r) in
      subst (λ b. Sent x.1.output (run b)) (sym (ap powers typed.0))
        (subst (λ e. Sent x.1.output (conclude_action ctx p cfg true e x.1).1) (sym confirmed) sent)

pub upgrade-Grown :
    (base : List Output) (p : Ptr) (d : Duration) (w : World)
    → Grown base w
    → Grown base (upgrade p d w)
unfolding upgrade set_action
upgrade-Grown base p d w h = if_either (Grown base) _ _ w h h

checked-AllReachable : (p : Ptr) (w : World) → AllReachable w → AllReachable (checked p w)
checked-AllReachable p w r =
    let limit = w.info.config.max_open_duration in
    (pause_step-keeps (Grown w.output) (Grown-run w.output).run_wait_keeps (upgrade p limit w)
      (upgrade-Grown w.output p limit w (r, ([], refl, tt)))).0

-- What is opened for a time is told to close again. Let an allocated action be a timed open, or an
-- open that `MaxOpenDuration` makes one; let the valve not be disabled and have an attempt to make,
-- and let each bridge have a client. Once the attempts to open are confirmed, `execute` hands the
-- client at least one command to close, whatever happens meanwhile: a cancellation, the end of the
-- pipeline, another configuration.
pub execute_sends_close :
    (ctx : Ctx) (p : Ptr) (n : ℕ) (w : World)
    → let cfg = w.info.config in
      p < w.next_ptr
      → ((upgrade p cfg.max_open_duration w).heap p).type ≡ open_timed
      → cfg.disabled ≡ false
      → pos_part cfg.retry_count ≡ suc n
      → AllReachable w
      → let r =
          attempt_with_retry
            (action_ctx ctx)
            p
            true
            cfg.retry_count
            cfg.command_timeout
            (claim p (checked p w)) in
        r.0 ≡ none
        → (newer : List Output) × ((execute ctx p w).1.output ≡ newer ++ r.1.output)
          × HasClose newer
unfolding execute claim
execute_sends_close ctx p n w lt type on c r confirmed =
    let cfg = w.info.config in
    let v = checked p w in
    let typed = upgrade-Typed open_timed p w lt type in
    let x = opening p cfg n c (action_ctx ctx) (claim p v) in
    let base = x.1.output in
    let not_refused : refused p cfg v ≡ false = ground (arith, on) in
    let sent =
      run_action-Sent p cfg n c (action_ctx ctx) (claim p v) (checked-AllReachable p w r) typed
        confirmed in
    let released =
      release-keeps (Sent base) (Since-execute base HasClose HasClose-grows) p
        (run_action (action_ctx ctx) p cfg (claim p v)).1 sent in
    rw not_refused released.1
