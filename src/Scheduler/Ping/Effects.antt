-- ===== src/Scheduler/Ping/Effects.antt =====
-- internal/scheduler/pipeline.go: what `keepClosedPing` and `keepClosedLoop` ensure.
use valve_controller.Common.{
  ◌≡◌, refl, pos, ltb_ℤ, true, false, not, List, [], ◌∷◌, Option, none, some, All, arith, ◌≢◌,
}
use valve_controller.Device.{ValveState, Duration, Time, command_target}
use valve_controller.Scheduler.Action.{Failure}
use valve_controller.Scheduler.World.{
  Ctx, timeout_ctx, Op, sensor, elapse, published, enqueues, configures, stops, ping_checks,
  ping_applies, World, safety_close_counted, emit,
}
use valve_controller.Scheduler.Shared.{
  finish_wait, update_config, submit, alloc, enqueue, ping_suppressed,
}
use valve_controller.Scheduler.Wait.{
  tail_ops, after, wait_for_power, wait_result, await_step, cancel_wait,
}
use valve_controller.Scheduler.Execute.Attempt.{send_count, send_loop}
use valve_controller.Scheduler.Keeps.{WaitKeeps}
use valve_controller.Scheduler.Keeps.Waits.{
  wait_for_power-keeps, await_step-keeps, cancel_wait-keeps,
}
use valve_controller.Scheduler.Keeps.Attempts.{send_loop-keeps, when-keeps}
use valve_controller.Scheduler.Confirmation.Script.{IsSilent}
use valve_controller.Scheduler.Confirmation.Waiting.{
  wait_for_power-Unconfirmed, send_loop-Unconfirmed, await_step-Unconfirmed, wait_result-ne-none,
}
use valve_controller.Scheduler.Ping.{
  ping_timeout, finish_ping, keep_closed_ping, first_interval, next_interval, interval_after,
}

next_interval-positive :
    (interval cur : Duration)
    → ltb_ℤ (pos 0) interval ≡ true
    → ltb_ℤ (pos 0) (next_interval interval cur) ≡ true
unfolding next_interval
next_interval-positive interval cur h = ground arith

interval_after-positive :
    (interval : Duration) (curs : List Duration)
    → ltb_ℤ (pos 0) interval ≡ true
    → ltb_ℤ (pos 0) (interval_after interval curs) ≡ true
unfolding interval_after
interval_after-positive interval [] h = h
interval_after-positive interval (cur ∷ curs) h =
    interval_after-positive (next_interval interval cur) curs
      (next_interval-positive interval cur h)

-- Whatever intervals are configured over time, zero and negative ones included, the ticker of the
-- safety ping never gets an interval that is not positive.
pub first_interval-positive :
    (interval : Duration) (curs : List Duration)
    → ltb_ℤ (pos 0) (interval_after (first_interval interval) curs) ≡ true
unfolding first_interval
first_interval-positive interval curs =
    interval_after-positive (first_interval interval) curs (ground arith)

-- No device reports power 0, and no other ping records the valve as closed.
abbrev pub IsQuiet : Op → Type 0
IsQuiet (sensor ev) = IsSilent (pos 0) (sensor ev)
IsQuiet ping_applies = ⊥
IsQuiet _ = Unit

abbrev pub Quiet : World → Type 0
Quiet w = All (All IsQuiet) w.script

Quiet-tail : (s : List (List Op)) → All (All IsQuiet) s → All (All IsQuiet) (tail_ops s)
Quiet-tail [] h = tt
Quiet-tail (ops ∷ s) (a, h) = h

op-IsSilent : (op : Op) → IsQuiet op → IsSilent (pos 0) op
op-IsSilent (sensor ev) h = h
op-IsSilent (elapse n) h = tt
op-IsSilent (published accepted) h = tt
op-IsSilent (enqueues type d) h = tt
op-IsSilent (configures info) h = tt
op-IsSilent stops h = tt
op-IsSilent ping_checks h = tt
op-IsSilent ping_applies h = tt

ops-IsSilent : (ops : List Op) → All IsQuiet ops → All (IsSilent (pos 0)) ops
ops-IsSilent [] h = tt
ops-IsSilent (op ∷ ops) (a, h) = (op-IsSilent op a, ops-IsSilent ops h)

script-IsSilent : (s : List (List Op)) → All (All IsQuiet) s → All (All (IsSilent (pos 0))) s
script-IsSilent [] h = tt
script-IsSilent (ops ∷ s) (a, h) = (ops-IsSilent ops a, script-IsSilent s h)

module _ (s : ValveState) (t : Option Time) where
  -- What is recorded of the valve, and that it stays quiet.
  abbrev Recorded : World → Type 0
  Recorded w = Quiet w × (w.info.state ≡ s) × (w.info.last_close_time ≡ t)

  Recorded-wait : WaitKeeps IsQuiet Recorded
  unfolding emit update_config submit alloc enqueue finish_wait
  Recorded-wait = record {
    scripted = λ w h. h.0;
    submits = λ type d w _ h. h;
    configures = λ info w h. h;
    stops = λ w _ h. h;
    pings = λ b w h. h;
    closes = λ w a h. absurd a;
    scripts = λ w (q, h, k). (Quiet-tail w.script q, h, k);
    emits = λ o w h. h;
    finishes = λ x r w e n h. h;
    clocks = λ n w h. h;
  }

  finish_ping-Recorded :
      (before between : World → World) (r : Option Failure) (w : World)
      → r ≢ none
      → Recorded w
      → Recorded (finish_ping before between r w).1
  unfolding finish_ping
  finish_ping-Recorded before between none w n h = absurd (n refl)
  finish_ping-Recorded before between (some e) w n h = h

  keep_closed_ping-Recorded :
      (ctx : Ctx) (before between : World → World) (w : World)
      → Recorded w
      → Recorded (keep_closed_ping ctx before between w).1
  unfolding keep_closed_ping
  keep_closed_ping-Recorded ctx before between w h =
      let e = pos 0 in
      let target = command_target w.info in
      let wait_ctx = timeout_ctx ctx (after (ping_timeout w.info.config.command_timeout) w) in
      let n = send_count false w.info.config.close_repeat_count in
      let w1 = emit safety_close_counted w in
      let h1 = Recorded-wait.emits safety_close_counted w h in
      let w2 = wait_for_power wait_ctx target e w1 in
      let h2 = wait_for_power-keeps Recorded Recorded-wait wait_ctx target e w1 h1 in
      let w3 = (send_loop ctx wait_ctx w.info.bridge_name target false true false n w2).1 in
      let h3 =
        send_loop-keeps Recorded Recorded-wait ctx wait_ctx w.info.bridge_name target false true
          false n w2 h2 in
      let u3 =
        send_loop-Unconfirmed e ctx wait_ctx w.info.bridge_name target false true false n w2
          (script-IsSilent w2.script h2.0) (wait_for_power-Unconfirmed e wait_ctx target w1) in
      let h4 = await_step-keeps Recorded Recorded-wait w3 h3 in
      let u4 = await_step-Unconfirmed e w3 (script-IsSilent w3.script h3.0) u3 in
      when-keeps Recorded (not (ping_suppressed w)) _ w h (
        finish_ping-Recorded before between (wait_result (await_step w3))
          (cancel_wait (await_step w3)) (wait_result-ne-none e (await_step w3) u4)
          (cancel_wait-keeps Recorded (λ d x w h. h) (await_step w3) h4))

-- While no device reports power 0 and no other ping records a close, a safety ping leaves the
-- recorded state of the valve and the time of its last close as they were, whatever else happens
-- while it waits.
pub keep_closed_ping_needs_report :
    (ctx : Ctx) (before between : World → World) (w : World)
    → Quiet w
    → let w' = (keep_closed_ping ctx before between w).1 in
      (w'.info.state ≡ w.info.state) × (w'.info.last_close_time ≡ w.info.last_close_time)
keep_closed_ping_needs_report ctx before between w h =
    let (quiet, state, time) =
      keep_closed_ping-Recorded w.info.state w.info.last_close_time ctx before between w
        (h, refl, refl) in
    (state, time)
