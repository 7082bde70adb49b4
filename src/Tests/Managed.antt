-- ===== src/Tests/Managed.antt =====
-- A valve that is reconciled and then told to close and to open.
use valve_controller.Common.{◌≡◌, refl, true, ◌||◌, pos, [], inr, none}
use valve_controller.Common.Text.{text, eq_text}
use valve_controller.Mqtt.Manager.{new_manager}
use valve_controller.Scheduler.Action.{close}
use valve_controller.Scheduler.Reachable.{new_pipeline-IsSound}
use valve_controller.Scheduler.World.{World}
use valve_controller.Scheduler.Valves.{new_scheduler, new_pipeline}
use valve_controller.Scheduler.Valves.Register.{new_scheduler-IsOrderly}
use valve_controller.K8s.{MqttDevice, MqttBridge, finished}
use valve_controller.K8s.Valves.{find_device, configure, reconcile_valve}
use valve_controller.K8s.Valves.Outcomes.{Linked}
use valve_controller.Rest.{Server}
use valve_controller.Rest.Handlers.{wanted_duration}
use valve_controller.Rest.Handlers.Completion.{AllReady}
use valve_controller.Rest.Handlers.Managed.{IsFor, Commanded, reconciled_valve-Commanded}
use valve_controller.Tests.Cluster.{sample_api, sample_laws, sample_valve, cluster}
use valve_controller.Tests.Rest.{in_n, plain_name, says_n}
use valve_controller.Tests.Samples.{sample_info, sample_world}

abbrev idle : World
idle = new_pipeline (sample_info 0) (sample_world close (pos 0) 0 [])

-- No valve is registered yet.
abbrev bare : Server
bare = record { sched = new_scheduler (λ _. idle); mqtt = new_manager (text "host") }

bare-AllReady : AllReady bare.sched
unfolding new_scheduler new_pipeline
bare-AllReady a =
    (new_pipeline-IsSound (sample_info 0) (sample_world close (pos 0) 0 []), tt, tt, λ _. refl)

reconciles : (reconcile_valve sample_api (text "n") (text "v") bare.sched cluster).0 ≡ finished
unfolding reconcile_valve configure find_device eq_text
reconciles = refl

pub in_n-IsFor : IsFor (text "n") (text "v") in_n
in_n-IsFor = record { verified = refl; says = says_n; full = refl; plain = plain_name }

says_no_duration : wanted_duration (λ _. none) (in_n.query (text "duration")) ≡ inr (pos 0)
unfolding wanted_duration eq_text
says_no_duration = refl

reconciled_valve-Commanded_example :
    let s' = (reconcile_valve sample_api (text "n") (text "v") bare.sched cluster).1 in
    (dev : MqttDevice) × (bridge : MqttBridge) × Linked sample_api sample_valve dev bridge cluster
    × Commanded
        (λ _. true)
        (λ _. none)
        (text "v")
        in_n
        (sample_valve.spec.disabled || dev.disabled)
        (record bare { sched = s' })
unfolding eq_text
reconciled_valve-Commanded_example =
    reconciled_valve-Commanded (λ _. true) sample_api (λ _. none) (pos 0) (text "n") (text "v")
      cluster in_n bare sample_valve sample_laws (new_scheduler-IsOrderly (λ _. idle)) bare-AllReady
      refl refl reconciles in_n-IsFor says_no_duration
