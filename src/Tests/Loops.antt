-- ===== src/Tests/Loops.antt =====
-- The main loop and the safety ping.
use valve_controller.Common.{true, pos, [], ◌∷◌, ◌≡◌, refl}
use valve_controller.Common.Text.{eq_text}
use valve_controller.Common.Dict.{lookup, insert, delete}
use valve_controller.Device.{closed, command_target}
use valve_controller.Mqtt.Address.{dispatch_key}
use valve_controller.Mqtt.Dispatcher.{dispatch, subscribe, unsubscribe}
use valve_controller.Scheduler.Action.{open_timed, close}
use valve_controller.Scheduler.World.{World, pipeline_ctx, is_done, emit, stops}
use valve_controller.Scheduler.Shared.{
  record_state, set_gauge, write_status, current_id, finish_wait, gauge_value, ping_suppressed,
  ping_may_record,
}
use valve_controller.Scheduler.Wait.{
  react, observe, observe_all, on_event, watch_ctx, pause_step, advance, wait_for_power, await_step,
  cancel_wait, send_zb_send,
}
use valve_controller.Scheduler.Execute.Attempt.{send_loop, send_count, apply_device_state}
use valve_controller.Scheduler.Draining.{rounds, IsWorkedOff, rounds-IsWorkedOff}
use valve_controller.Scheduler.Ping.{ping_timeout, finish_ping, keep_closed_ping}
use valve_controller.Scheduler.Ping.Effects.{keep_closed_ping_needs_report}
use valve_controller.Tests.Samples.{sample_world, answers}

-- Two actions wait, and the pipeline is stopped while the first runs.
abbrev two_wait : World
two_wait = record (sample_world open_timed (pos 60) 0 (answers (pos 1) ∷ (stops ∷ []) ∷ [])) {
  queue = 0 ∷ 0 ∷ [];
}

rounds-IsWorkedOff_example : IsWorkedOff (rounds (λ _. true) 2 two_wait)
rounds-IsWorkedOff_example =
    rounds-IsWorkedOff (λ _. true) two_wait ((tt, (tt, tt)), ((tt, tt), tt))

-- The device confirms a ping: the valve is recorded as closed.
abbrev pinged : World
pinged = sample_world close (pos 0) 0 (answers (pos 0) ∷ [])

ping_confirmed : (keep_closed_ping pipeline_ctx (λ w. w) (λ w. w) pinged).1.info.state ≡ closed
unfolding keep_closed_ping finish_ping ping_timeout ping_suppressed ping_may_record send_loop
    send_count apply_device_state record_state set_gauge write_status current_id finish_wait
    gauge_value react observe observe_all on_event watch_ctx pause_step advance wait_for_power
    await_step cancel_wait send_zb_send is_done emit dispatch subscribe unsubscribe dispatch_key
    lookup insert delete eq_text command_target
ping_confirmed = refl

-- The device reports that it is still open.
abbrev ignored : World
ignored = sample_world close (pos 0) 0 (answers (pos 1) ∷ [])

keep_closed_ping_needs_report_example :
    let w' = (keep_closed_ping pipeline_ctx (λ w. w) (λ w. w) ignored).1 in
    (w'.info.state ≡ ignored.info.state) × (w'.info.last_close_time ≡ ignored.info.last_close_time)
keep_closed_ping_needs_report_example =
    keep_closed_ping_needs_report pipeline_ctx (λ w. w) (λ w. w) ignored ((tt, (refl, tt)), tt)
