-- ===== src/Tests/Rest.antt =====
-- The REST API.
use valve_controller.Common.{
  ◌∷◌, pos, arith, ◌≡◌, refl, ◌↔◌, true, false, ◌||◌, [], none, some, if◌then◌else◌,
}
use valve_controller.Common.Text.{Text, text, eq_text, NoSlash, has_slash}
use valve_controller.Common.Dict.{lookup}
use valve_controller.Mqtt.Manager.{new_manager}
use valve_controller.Scheduler.Valves.{new_pipeline, request_open, get_pipeline}
use valve_controller.Rest.{HttpRequest, Server, open_route, close_route}
use valve_controller.Rest.Handlers.{
  handle_open_valve, wanted_duration, require_client_cert, request_namespace, resolve_valve_key,
  route,
}
use valve_controller.Rest.Handlers.Access.{
  is_open, is_verified, Effect, route-Effect, route_unauthorized_iff,
}
use valve_controller.Rest.Handlers.Completion.{AllReady, Ends, route-Ends}
use valve_controller.Rest.Pagination.{itoa}
use valve_controller.Scheduler.Action.{close, new_action}
use valve_controller.Scheduler.Shared.{submit, alloc, enqueue}
use valve_controller.Scheduler.Reachable.{new_pipeline-IsSound}
use valve_controller.Rest.Views.{to_action_response}
use valve_controller.Tests.Samples.{sample_info, sample_world}
use valve_controller.Tests.Valves.{two}

-- A request without parameters, with a verified certificate, and one that says a namespace.
abbrev pub plain : HttpRequest
plain = record { query = λ _. []; header = λ _. []; verified_chains = some 1 }

abbrev pub in_n : HttpRequest
in_n = record plain { query = λ k. if eq_text k (text "namespace") then text "n" else [] }

abbrev server : Server
server = record { sched = two; mqtt = new_manager (text "host") }

route-Effect_example : Effect server (route (λ _. none) (open_route (text "v")) in_n server)
route-Effect_example = route-Effect (λ _. none) (open_route (text "v")) in_n server

abbrev without_certificate : HttpRequest
without_certificate = record plain { verified_chains = some 0 }

route_unauthorized_iff_example :
    ((route (λ _. none) (close_route (text "v")) without_certificate server).0.status ≡ 401)
    ↔ ((is_open (close_route (text "v")) || is_verified without_certificate) ≡ false)
route_unauthorized_iff_example =
    route_unauthorized_iff (λ _. none) (close_route (text "v")) without_certificate server

pub plain_name : NoSlash (text "v")
plain_name = (λ h. omega (arith, h), tt)

pub says_n : request_namespace in_n ≡ text "n"
unfolding request_namespace eq_text
says_n = refl

abbrev asks : Text → Text
asks k = if eq_text k (text "limit") then itoa 50 else itoa 120

-- A scheduler of one idle pipeline.
abbrev idle_server : Server
idle_server = record {
  sched = record {
    pipelines = (text "n/v", 0) ∷ [];
    cancels = (text "n/v", 0) ∷ [];
    pipes = λ _. new_pipeline (sample_info 0) (sample_world close (pos 0) 0 []);
    next_pipe = 1;
  };
  mqtt = new_manager (text "host");
}

idle-AllReady : AllReady idle_server.sched
unfolding new_pipeline
idle-AllReady a =
    (new_pipeline-IsSound (sample_info 0) (sample_world close (pos 0) 0 []), tt, tt, λ _. refl)

opens_v : (route (λ _. none) (open_route (text "v")) in_n idle_server).0.status ≡ 202
unfolding route require_client_cert handle_open_valve resolve_valve_key request_namespace
    wanted_duration request_open get_pipeline submit alloc enqueue new_action to_action_response
    new_pipeline has_slash lookup eq_text
opens_v = refl

route-Ends_example : Ends (λ _. true) (route (λ _. none) (open_route (text "v")) in_n idle_server)
route-Ends_example =
    route-Ends (λ _. true) (λ _. none) (open_route (text "v")) in_n idle_server idle-AllReady
      opens_v
