-- ===== src/Tests/Telemetry.antt =====
-- A close that is asked for over the API, and the message of a bridge that ends it.
use valve_controller.Common.{◌≡◌, refl, pos, true, false, [], ◌∷◌, some, none, map, inl, inr}
use valve_controller.Common.Text.{Text, text, eq_text}
use valve_controller.Common.Dict.{lookup}
use valve_controller.Device.{command_target}
use valve_controller.Mqtt.Address.{dispatch_key}
use valve_controller.Mqtt.Tasmota.{event_of, bridge_name_from_topic}
use valve_controller.Mqtt.Bridge.{handle_sensor}
use valve_controller.Scheduler.Action.{close, fulfilled, new_action}
use valve_controller.Scheduler.World.{
  World, sensor, published, pipeline_ctx, action_ctx, is_done, set_action,
}
use valve_controller.Scheduler.Wait.{pause_step, observe_all}
use valve_controller.Scheduler.Execute.Attempt.{send_count, start_attempt}
use valve_controller.Scheduler.Execute.{upgrade, claim}
use valve_controller.Scheduler.Confirmation.Telemetry.{IsClear}
use valve_controller.Scheduler.Confirmation.Reported.{first_attempt}
use valve_controller.Scheduler.Shared.{submit, alloc, enqueue}
use valve_controller.Scheduler.Valves.{ok, get_pipeline}
use valve_controller.K8s.Valves.{request_key}
use valve_controller.Mqtt.Manager.{new_manager}
use valve_controller.Rest.{ValveResponse, valve_body, Server, get_valve_route, close_route}
use valve_controller.Rest.Handlers.{respond, route}
use valve_controller.Rest.Handlers.Reported.{taking, after_round, route_closes}
use valve_controller.Tests.Managed.{in_n-IsFor}
use valve_controller.Tests.Rest.{in_n}
use valve_controller.Scheduler.Confirmation.Telemetry.Listening.{IsAbout}
use valve_controller.Tests.Samples.{sample_world}
use valve_controller.Tests.Bridges.{members, sample_json, closed_valve, entries, message}

abbrev topic : Text
topic = text "tele/office/SENSOR"

-- The broker accepts the OFF, and then the device reports.
abbrev reporting : World
reporting =
    sample_world close (pos 0) 0
      ([] ∷ [] ∷ (published true ∷ []) ∷ map sensor (handle_sensor sample_json topic message) ∷ [])

-- The only valve that is registered has this pipeline.
abbrev listening : Server
listening = record {
  sched = record {
    pipelines = (text "n/v", 0) ∷ [];
    cancels = (text "n/v", 0) ∷ [];
    pipes = λ _. reporting;
    next_pipe = 1;
  };
  mqtt = new_manager (text "host");
}

-- The device says its address in capitals, the resource does not.
says_address :
    IsAbout
      (command_target (first_attempt 1 (taking reporting)).info)
      (event_of sample_json (bridge_name_from_topic topic) (members closed_valve))
unfolding start_attempt pause_step observe_all set_action event_of command_target dispatch_key
    lookup eq_text upgrade claim new_action submit alloc enqueue
says_address = inr ((λ e. cc), refl)

reporting-IsClear :
    IsClear
      (action_ctx pipeline_ctx)
      false
      (pos 30_000_000_000)
      (handle_sensor sample_json topic message)
      (first_attempt 1 (taking reporting))
unfolding start_attempt pause_step observe_all set_action is_done send_count upgrade claim
    new_action submit alloc enqueue
reporting-IsClear = record { running = refl; once = refl; client = refl; later = []; next = refl }

closes :
    (event_of sample_json (bridge_name_from_topic topic) (members closed_valve)).power
    ≡ some (pos 0)
unfolding event_of lookup eq_text
closes = refl

knows_it : get_pipeline (request_key (text "n") (text "v")) listening.sched ≡ ok 0
unfolding get_pipeline lookup eq_text
knows_it = refl

route_closes_example :
    let x = route (λ _. none) (close_route (text "v")) in_n listening in
    let h = after_round 0 x.1 in
    (x.0.status ≡ 202)
    × (((h.sched.pipes 0).heap 1).state ≡ fulfilled)
    × ((v : ValveResponse) × (route (λ _. none) (get_valve_route (text "v")) in_n h
          ≡ (respond 200 (valve_body v), h))
        × (v.state ≡ text "closed"))
unfolding lookup eq_text
route_closes_example =
    route_closes (text "n") (text "v") in_n in_n-IsFor sample_json topic message (members entries)
      (text "0xDA76") closed_valve (members closed_valve) (λ _. none) 0 1 listening knows_it refl
      refl refl (inl refl) refl says_address closes reporting-IsClear
