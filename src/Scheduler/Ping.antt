-- ===== src/Scheduler/Ping.antt =====
-- internal/scheduler/pipeline.go: `keepClosedPing` and the interval of `keepClosedLoop`.
-- The ping has a goroutine of its own, and `waiter` is its wait here. What the action loop does while
-- the ping waits is seen by the ping when it reads `current` again only: it is the argument `before`,
-- and `between` is what the action loop does after that test.
pub mod Effects
use valve_controller.Common.{
  ◌≡◌, refl, ℤ, pos, ltb_ℤ, eqb_ℤ, Bool, true, false, not, ◌&&◌, List, [], ◌∷◌, Option, none, some,
  All, if◌then◌else◌, arith, Bool-cases, inl, inr, ◌≢◌, ◌∙◌, subst,
}
use valve_controller.Device.{ValveState, Duration, Time, command_target}
use valve_controller.Mqtt.Event.{SensorEvent}
use valve_controller.Scheduler.Action.{Failure}
use valve_controller.Scheduler.World.{
  Ctx, timeout_ctx, Op, sensor, elapse, published, enqueues, configures, stops, ping_checks,
  ping_applies, World, safety_close_counted, M, ◌>>=◌, ◌>>◌, give, get, modify, when, emit,
}
use valve_controller.Scheduler.Shared.{
  update_config, submit, alloc, enqueue, record_state, ping_suppressed, ping_may_record,
}
use valve_controller.Scheduler.Wait.{
  tail_ops, after, wait_for_power, wait_result, await_step, cancel_wait,
}
use valve_controller.Scheduler.Execute.Attempt.{send_count, send_loop, apply_device_state}
use valve_controller.Scheduler.Keeps.{WaitKeeps}
use valve_controller.Scheduler.Keeps.Waits.{
  wait_for_power-keeps, await_step-keeps, cancel_wait-keeps,
}
use valve_controller.Scheduler.Keeps.Attempts.{send_loop-keeps, when-keeps}
use valve_controller.Scheduler.Confirmation.Script.{IsSilent, Silence}
use valve_controller.Scheduler.Confirmation.Waiting.{
  Unconfirmed, silent_waits, wait_for_power-Unconfirmed, send_loop-Unconfirmed,
  await_step-Unconfirmed, wait_result-ne-none,
}

-- `timeout` in `keepClosedPing`.
unfoldable pub ping_timeout : Duration → Duration
ping_timeout timeout = if ltb_ℤ (pos 0) timeout then timeout else pos 30_000_000_000

-- What follows `<-waitCh`.
unfoldable pub finish_ping : (before between : World → World) → Option Failure → M (Unit {0})
finish_ping before between (some e) = give tt
finish_ping before between none = do
  modify before
  w ← get
  when (ping_may_record w) (do modify between; apply_device_state false)

-- `keepClosedPing`.
unfoldable pub keep_closed_ping : Ctx → (before between : World → World) → M (Unit {0})
keep_closed_ping ctx before between = do
  w ← get
  when (not (ping_suppressed w)) (do
    modify (emit safety_close_counted)
    let target = command_target w.info
    let wait_ctx = timeout_ctx ctx (after (ping_timeout w.info.config.command_timeout) w)
    modify (wait_for_power wait_ctx target (pos 0))
    sent ←
        send_loop ctx wait_ctx w.info.bridge_name target false true false
          (send_count false w.info.config.close_repeat_count)
    modify await_step
    v ← get
    modify cancel_wait
    finish_ping before between (wait_result v))

-- The first interval of `keepClosedLoop`, and the one after a ping, by the config read then.
unfoldable pub first_interval : Duration → Duration
first_interval interval = if ltb_ℤ (pos 0) interval then interval else pos 300_000_000_000

unfoldable pub next_interval : Duration → Duration → Duration
next_interval interval cur = if ltb_ℤ (pos 0) cur && not (eqb_ℤ cur interval) then cur else interval

-- The interval after some pings.
unfoldable pub interval_after : Duration → List Duration → Duration
interval_after interval [] = interval
interval_after interval (cur ∷ curs) = interval_after (next_interval interval cur) curs
