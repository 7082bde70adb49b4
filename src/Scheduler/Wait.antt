-- ===== src/Scheduler/Wait.antt =====
-- internal/scheduler/pipeline.go: `waitForPower`, and the points where the action loop waits.
-- At a scheduling point the script says what the other goroutines and the outside do, in order;
-- if the awaited event is not among that, the time goes on to the deadline.
use Prim.Native.Nat.{max}
use valve_controller.Common.{
  ◌+◌, ℤ, pos_part, Bool, true, false, ◌&&◌, List, [], ◌∷◌, Option, none, some, if◌then◌else◌,
}
use valve_controller.Common.Text.{Text}
use valve_controller.Device.{Duration, Time}
use valve_controller.Mqtt.Event.{SensorEvent}
use valve_controller.Mqtt.Dispatcher.{contains, ids, dispatch, subscribe}
use valve_controller.Scheduler.Action.{Failure, context_done}
use valve_controller.Scheduler.World.{
  Ctx, Op, sensor, elapse, published, enqueues, configures, stops, ping_checks, ping_applies, World,
  command, M, modify, is_done, emit,
}
use valve_controller.Scheduler.Shared.{
  update_config, submit, apply_closed, ping_may_record, power_is, finish_wait,
}

-- The handler that `waitForPower` subscribes.
unfoldable pub on_event : SensorEvent → World → World
on_event ev w = elim w.waiter [
  | none ↦ w
  | some x ↦ elim x.result [
    | some _ ↦ w
    | none ↦
        if contains x.subscription.1 (ids (dispatch w.dispatcher ev))
          && power_is ev.power x.expected
        then finish_wait x none w
        else w
  ]
]

-- The goroutine that `waitForPower` starts: it waits for the context. It acts as soon as the context is
-- done, in one step.
unfoldable pub watch_ctx : World → World
watch_ctx w = elim w.waiter [
  | none ↦ w
  | some x ↦ elim x.result [
    | some _ ↦ w
    | none ↦ if is_done x.ctx w then finish_wait x (some context_done) w else w
  ]
]

unfoldable pub react : Op → World → World
react (sensor ev) w = on_event ev w
react (elapse n) w = record w { now = w.now + n }
react (published accepted) w = w
react (enqueues type duration) w = submit type duration w
react (configures info) w = update_config info w
react stops w = record w { stopped = true }
react ping_checks w = record w { ping_due = ping_may_record w }
react ping_applies w = if w.ping_due then apply_closed (record w { ping_due = false }) else w

unfoldable pub observe : Op → World → World
observe op w = watch_ctx (react op w)

unfoldable pub observe_all : List Op → World → World
observe_all [] w = w
observe_all (op ∷ ops) w = observe_all ops (observe op w)

abbrev pub head_ops : List (List Op) → List Op
head_ops [] = []
head_ops (ops ∷ _) = ops

abbrev pub tail_ops : List (List Op) → List (List Op)
tail_ops [] = []
tail_ops (_ ∷ rest) = rest

-- A scheduling point.
unfoldable pub pause_step : World → World
pause_step w = observe_all (head_ops w.script) (record w { script = tail_ops w.script })

abbrev pub pause : M (Unit {0})
pause = modify pause_step

-- The clock reaches a deadline.
unfoldable pub advance : Time → World → World
advance deadline w = watch_ctx (record w { now = max w.now deadline })

-- `select { case <-time.After(…): case <-ctx.Done(): }`.
unfoldable pub sleep_step : Ctx → Time → World → World
sleep_step ctx deadline w =
    let w' = pause_step w in if is_done ctx w' then w' else advance deadline w'

-- The clock at `d` from now; a duration that is not positive is over at once.
abbrev pub after : Duration → World → Time
after d w = w.now + pos_part d

-- `waitForPower`, called with a timeout context.
unfoldable pub wait_for_power : Ctx → Text → ℤ → World → World
wait_for_power ctx device_name expected w =
    let (d, u) = subscribe device_name tt w.dispatcher in
    watch_ctx (record w {
      dispatcher = d;
      waiter = some (record { subscription = u; expected = expected; ctx = ctx; result = none });
    })

abbrev pub deadline_of : Ctx → World → Time
deadline_of (Ctx.timeout_ctx _ deadline) w = deadline
deadline_of _ w = w.now

abbrev pub wait_deadline : World → Time
wait_deadline w = elim w.waiter [ none ↦ w.now | some x ↦ deadline_of x.ctx w ]

abbrev pub has_result : World → Bool
has_result w = elim w.waiter [
  | none ↦ true
  | some x ↦ elim x.result [ none ↦ false | some _ ↦ true ]
]

abbrev pub wait_result : World → Option Failure
wait_result w = elim w.waiter [
  | none ↦ some context_done
  | some x ↦ elim x.result [ none ↦ some context_done | some r ↦ r ]
]

-- `<-waitCh`.
unfoldable pub await_step : World → World
await_step w =
    if has_result w
    then w
    else let w' = pause_step w in if has_result w' then w' else advance (wait_deadline w') w'

-- `waitCancel()`: the wait is over, and an unanswered waiter unsubscribes. The source leaves that to the
-- goroutine of the waiter, which may come to it later; here it is done at once.
unfoldable pub cancel_wait : World → World
cancel_wait w = elim w.waiter [
  | none ↦ w
  | some x ↦ elim x.result [
    | some _ ↦ record w { waiter = none }
    | none ↦ record (finish_wait x (some context_done) w) { waiter = none }
  ]
]

abbrev pub accepted_of : List Op → Bool
accepted_of [] = false
accepted_of (published accepted ∷ ops) = accepted
accepted_of (_ ∷ ops) = accepted_of ops

-- `mqttMgr.SendZbSend`: true if there was no error. A token that stays open while the context ends
-- is an error too.
unfoldable pub send_zb_send : (bridge target : Text) → Bool → M Bool
send_zb_send bridge target power w =
    if w.bridges bridge
    then (accepted_of (head_ops w.script), pause_step (emit (command bridge target power) w))
    else (false, w)
