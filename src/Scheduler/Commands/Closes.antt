-- ===== src/Scheduler/Commands/Closes.antt =====
-- internal/scheduler/pipeline.go: attempts to close send the command. Internal lemmas.
use valve_controller.Common.{
  ℕ, suc, ℤ, pos_part, true, false, List, ◌∷◌, ◌≡◌, refl, sym, ap, subst, inl,
}
use valve_controller.Common.Text.{Text}
use valve_controller.Device.{Duration, command_target}
use valve_controller.Scheduler.Action.{sending, waiting_confirmation}
use valve_controller.Scheduler.World.{
  Ptr, Output, command, Ctx, timeout_ctx, World, emit, set_action,
}
use valve_controller.Scheduler.Wait.{after, wait_for_power, send_zb_send}
use valve_controller.Scheduler.Execute.Attempt.{
  send_count, send_loop, power_value, start_attempt, attempt_once, attempt_loop, attempt_with_retry,
}
use valve_controller.Scheduler.Keeps.{Any, AnyPtr, RunKeeps}
use valve_controller.Scheduler.Keeps.Waits.{pause_step-keeps, wait_for_power-keeps}
use valve_controller.Scheduler.Keeps.Attempts.{
  send_loop-keeps, conclude-keeps, start_attempt-keeps, attempt_loop-keeps, resume-keeps,
}
use valve_controller.Scheduler.Keeps.Runs.{attempts}
use valve_controller.Scheduler.Commands.{
  Since, Since-execute, HasClose, HasClose-grows, send_count-positive,
}

abbrev pub AnyOutput : List Output → Type 0
AnyOutput _ = Unit {0}

module _ (base : List Output) where
  -- The log has grown from `base`; the command to close is in what was added.
  abbrev pub Grown : World → Type 0
  Grown = Since base AnyOutput (λ o newer g. tt)

  abbrev pub Sent : World → Type 0
  Sent = Since base HasClose HasClose-grows

  abbrev pub Grown-run : RunKeeps Any AnyPtr Grown
  Grown-run = (Since-execute base AnyOutput (λ o newer g. tt)).run_keeps

  abbrev pub Sent-run : RunKeeps Any AnyPtr Sent
  Sent-run = (Since-execute base HasClose HasClose-grows).run_keeps

  emit-Sent :
      (bridge target : Text) (w : World) → Grown w → Sent (emit (command bridge target false) w)
  unfolding emit
  emit-Sent bridge target w (r, (newer, e, g)) =
      let c = command bridge target false in
      (r, (c ∷ newer, ap (λ os. c ∷ os) e, (bridge, target, inl refl)))

  send_zb_send-Sent :
      (bridge target : Text) (w : World) → Grown w → Sent (send_zb_send bridge target false w).1
  unfolding send_zb_send
  send_zb_send-Sent bridge target w h = rw (h.0 bridge) (
      pause_step-keeps Sent Sent-run.run_wait_keeps (emit (command bridge target false) w)
        (emit-Sent bridge target w h))

  send_loop-Sent :
      (ctx wait_ctx : Ctx) (bridge target : Text) (rounds : ℕ) (w : World)
      → Grown w
      → Sent (send_loop ctx wait_ctx bridge target false true false (suc rounds) w).1
  unfolding send_loop
  send_loop-Sent ctx wait_ctx bridge target rounds w h =
      send_loop-keeps Sent Sent-run.run_wait_keeps ctx wait_ctx bridge target false false _ rounds _
        (send_zb_send-Sent bridge target w h)

  attempt_once-Sent :
      (ctx : Ctx) (p : Ptr) (timeout : Duration) (n : ℕ) (w : World)
      → Grown w
      → Sent (attempt_once ctx p false timeout n w).1
  unfolding attempt_once set_action Since-execute
  attempt_once-Sent ctx p timeout n w h =
      let v = (start_attempt p n w).1 in
      let wait_ctx = timeout_ctx ctx (after timeout v) in
      let target = command_target v.info in
      let started = start_attempt-keeps Grown p false (attempts Grown Grown-run p false tt) n w h in
      let waits : Grown (wait_for_power wait_ctx target (power_value false) v) =
        wait_for_power-keeps Grown Grown-run.run_wait_keeps wait_ctx target (power_value false) v
          started in
      let u =
        set_action p (λ a. record a { state = waiting_confirmation })
          (wait_for_power wait_ctx target (power_value false) v) in
      let (m, count) = send_count-positive v.info.config.close_repeat_count in
      let sent : Sent
          (send_loop ctx wait_ctx v.info.bridge_name target false true false
            (send_count false v.info.config.close_repeat_count) u).1 =
        subst (λ k. Sent (send_loop ctx wait_ctx v.info.bridge_name target false true false k u).1)
          (sym count) (send_loop-Sent ctx wait_ctx v.info.bridge_name target m u waits) in
      conclude-keeps Sent p false (attempts Sent Sent-run p false tt).rest_keeps ctx _ _ sent

  pub attempt_with_retry-Sent :
      (ctx : Ctx) (p : Ptr) (retry_count : ℤ) (timeout : Duration) (n : ℕ) (w : World)
      → pos_part retry_count ≡ suc n
      → Grown w
      → Sent (attempt_with_retry ctx p false retry_count timeout w).1
  unfolding attempt_with_retry attempt_loop set_action
  attempt_with_retry-Sent ctx p retry_count timeout n w c h =
      let u = set_action p (λ a. record a { state = sending }) w in
      let first = attempt_once-Sent ctx p timeout 0 u h in
      let rest = attempt_loop ctx p false timeout retry_count 1 n in
      subst (λ k. Sent (attempt_loop ctx p false timeout retry_count 0 k u).1) (sym c)
        (resume-keeps Sent (attempt_once ctx p false timeout 0 u).0 rest _ first (
          attempt_loop-keeps Sent p false (attempts Sent Sent-run p false tt) ctx timeout
            retry_count 1 n _ first))
