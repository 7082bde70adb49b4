-- ===== src/Tests/Pipeline.antt =====
-- The action loop.
use valve_controller.Common.{
  List, none, ◌++◌, some, inl, ◌≢◌, ◌≤◌, pos, true, [], ◌∷◌, ◌≡◌, refl, arith,
}
use valve_controller.Common.Text.{eq_text}
use valve_controller.Device.{closed, opened, command_target}
use valve_controller.Mqtt.Address.{dispatch_key}
use valve_controller.Common.Dict.{lookup, insert, delete}
use valve_controller.Mqtt.Dispatcher.{dispatch, subscribe, unsubscribe}
use valve_controller.Scheduler.Action.{
  open_valve, open_timed, close, failed, fulfilled, is_terminal, new_action,
  is_internal_safety_ping, holds_valve_open,
}
use valve_controller.Scheduler.World.{
  Ptr, Output, World, action_ctx, timeout_ctx, enqueues, pipeline_ctx, is_done, emit, set_action,
}
use valve_controller.Scheduler.Shared.{
  enqueue, send_action, alloc, record_state, set_gauge, write_status, current_id, add_to_history,
  finish_wait, gauge_value,
}
use valve_controller.Scheduler.Wait.{
  react, observe, observe_all, on_event, watch_ctx, pause_step, advance, sleep_step, wait_for_power,
  await_step, cancel_wait, send_zb_send,
}
use valve_controller.Scheduler.Execute.{
  execute, run_done, run_action, complete, fail_action, fulfil_action, settle_timed, timed_wait,
  timed_close, upgrade, claim, release, check_closed, update_action_id, mark_close_unconfirmed,
}
use valve_controller.Scheduler.Execute.Attempt.{
  attempt_with_retry, attempt_loop, attempt_once, start_attempt, conclude, judge, send_loop,
  send_count, apply_device_state,
}
use valve_controller.Scheduler.Safety.{execute_ends, execute_closes, execute_bounds_open}
use valve_controller.Scheduler.Ending.Final.{checked}
use valve_controller.Scheduler.Commands.{HasClose}
use valve_controller.Scheduler.Commands.TimedOpens.{execute_sends_close}
use valve_controller.Scheduler.Commands.Stop.{run_done_sends_close}
use valve_controller.Scheduler.Confirmation.{execute_needs_report}
use valve_controller.Scheduler.Confirmation.Script.{Silence}
use valve_controller.Scheduler.Cancellation.{sleep_step_cut}
use valve_controller.Scheduler.Reachable.{
  Reaches, at_start, then, others_act, IsSound, Reaches-IsSound,
}
use valve_controller.Scheduler.Valves.{new_pipeline}
use valve_controller.Scheduler.Retries.{attempt_with_retry_bounded}
use valve_controller.Scheduler.Slot.{IsIdle, remembered, execute-IsIdle}
use valve_controller.Tests.Samples.{sample_info, sample_world, answers}

-- The script of a timed open whose two commands are answered at once.
abbrev answered : World
answered =
    sample_world open_valve (pos 0) 60_000_000_000
      ([] ∷ [] ∷ answers (pos 1) ∷ [] ∷ [] ∷ [] ∷ [] ∷ [] ∷ [] ∷ answers (pos 0) ∷ [])

-- `execute` with all that it calls.
runs : Ptr → World → World
unfolding execute run_action complete fail_action fulfil_action settle_timed timed_wait timed_close
    upgrade claim release check_closed update_action_id mark_close_unconfirmed attempt_with_retry
    attempt_loop attempt_once start_attempt conclude judge send_loop send_count apply_device_state
    react observe observe_all on_event watch_ctx pause_step advance sleep_step wait_for_power
    await_step cancel_wait send_zb_send alloc record_state set_gauge write_status current_id
    add_to_history finish_wait gauge_value is_done emit set_action new_action is_terminal
    is_internal_safety_ping holds_valve_open command_target dispatch_key dispatch subscribe
    unsubscribe lookup insert delete eq_text
runs p w = (execute pipeline_ctx p w).1

-- The open is confirmed, and the close a minute later.
answered_ends : ((runs 0 answered).heap 0).state ≡ fulfilled
unfolding runs
answered_ends = refl

-- Nobody answers: the open fails after two attempts.
abbrev silent : World
silent = sample_world open_timed (pos 5) 0 []

answered_type : ((runs 0 answered).heap 0).type ≡ open_timed
unfolding runs
answered_type = refl

execute_ends_example : is_terminal ((execute pipeline_ctx 0 answered).1.heap 0) ≡ true
execute_ends_example = execute_ends pipeline_ctx 0 answered (omega arith)

execute_closes_example : (execute pipeline_ctx 0 answered).1.info.state ≡ closed
unfolding runs
execute_closes_example = execute_closes pipeline_ctx 0 answered (omega arith) refl refl

execute_bounds_open_example : ((execute pipeline_ctx 0 answered).1.heap 0).type ≡ open_timed
unfolding holds_valve_open new_action
execute_bounds_open_example = execute_bounds_open pipeline_ctx 0 answered (omega arith) refl refl

-- The device confirms the open, but the close never.
abbrev stuck : World
stuck = sample_world open_timed (pos 5) 0 ([] ∷ [] ∷ answers (pos 1) ∷ [])

stuck_fails : ((runs 0 stuck).heap 0).state ≡ failed
unfolding runs
stuck_fails = refl

stuck-Silence : Silence (pos 0) stuck
stuck-Silence = (tt, (tt, ((tt, (refl, tt)), tt)))

execute_needs_report_example : ((execute pipeline_ctx 0 stuck).1.heap 0).state ≢ fulfilled
unfolding runs
execute_needs_report_example =
    execute_needs_report pipeline_ctx 0 stuck (omega arith) stuck-Silence refl

-- It is told to close all the same.
stuck_typed : ((upgrade 0 stuck.info.config.max_open_duration stuck).heap 0).type ≡ open_timed
unfolding upgrade new_action
stuck_typed = refl

stuck_opens :
    (attempt_with_retry
      (action_ctx pipeline_ctx)
      0
      true
      (pos 2)
      (pos 30_000_000_000)
      (claim 0 (checked 0 stuck))).0
    ≡ none
unfolding runs
stuck_opens = refl

execute_sends_close_example :
    let r =
      attempt_with_retry
        (action_ctx pipeline_ctx)
        0
        true
        (pos 2)
        (pos 30_000_000_000)
        (claim 0 (checked 0 stuck)) in
    (newer : List Output) × ((execute pipeline_ctx 0 stuck).1.output ≡ newer ++ r.1.output)
    × HasClose newer
execute_sends_close_example =
    execute_sends_close pipeline_ctx 0 1 stuck (omega arith) stuck_typed refl refl (λ b. refl)
      stuck_opens

execute-IsIdle_example :
    let v = (execute pipeline_ctx 0 silent).1 in
    IsIdle v × (v.history ≡ remembered (is_internal_safety_ping (v.heap 0)) 0 [])
execute-IsIdle_example =
    execute-IsIdle pipeline_ctx 0 silent (record { no_current = refl; no_cancel = refl })

-- Eight actions wait.
abbrev crowded : World
crowded = record silent { queue = 1 ∷ 2 ∷ 3 ∷ 4 ∷ 5 ∷ 6 ∷ 7 ∷ 8 ∷ [] }

drops_oldest : (enqueue 9 crowded).queue ≡ 2 ∷ 3 ∷ 4 ∷ 5 ∷ 6 ∷ 7 ∷ 8 ∷ 9 ∷ []
unfolding enqueue send_action
drops_oldest = refl

-- A valve that was left open, and answers when it is told to close.
abbrev left_open : World
left_open = record (sample_world close (pos 0) 0 ([] ∷ [] ∷ answers (pos 0) ∷ [])) {
  info = record (sample_info 0) { state = opened };
}

run_done_sends_close_example :
    let v = (run_done left_open).1 in
    ((newer : List Output) × (v.output ≡ newer ++ []) × HasClose newer)
    × (is_terminal (v.heap 1) ≡ true)
    × ((v.heap 1).state ≡ fulfilled → v.info.state ≡ closed)
run_done_sends_close_example = run_done_sends_close 1 left_open refl refl (λ b. refl)

-- A running action, and a close that is requested at the next point.
abbrev closing_soon : World
closing_soon = record (sample_world open_timed (pos 5) 0 ((enqueues close (pos 0) ∷ []) ∷ [])) {
  cancel_fn = true;
  current = some 0;
}

sleep_step_cut_example :
    sleep_step (timeout_ctx (action_ctx pipeline_ctx) 9_000_000) 1_000_000 closing_soon
    ≡ pause_step closing_soon
sleep_step_cut_example =
    sleep_step_cut (timeout_ctx (action_ctx pipeline_ctx) 9_000_000) 1_000_000 (pos 0) closing_soon
      refl refl (inl refl)

-- A new pipeline to which a close is sent.
abbrev asked : World
asked = observe (enqueues close (pos 0)) (new_pipeline (sample_info 0) answered)

asked_reached : Reaches (new_pipeline (sample_info 0) answered) asked
asked_reached =
    then (new_pipeline (sample_info 0) answered) asked at_start
      (others_act (enqueues close (pos 0)))

Reaches-IsSound_example : IsSound asked
Reaches-IsSound_example = Reaches-IsSound (sample_info 0) answered asked asked_reached

attempt_with_retry_bounded_example :
    ((attempt_with_retry pipeline_ctx 0 true (pos 2) (pos 30) silent).1.heap 0).attempts ≤ 2
unfolding new_action
attempt_with_retry_bounded_example =
    attempt_with_retry_bounded pipeline_ctx 0 true (pos 2) (pos 30) silent (omega arith)
      (omega arith)
