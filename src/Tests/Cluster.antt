-- ===== src/Tests/Cluster.antt =====
-- The reconcilers, in a cluster with one valve, its device and its bridge.
use valve_controller.Common.{
  arith, ◌≡◌, ◌≢◌, refl, sym, ◌∙◌, subst, ap, ◌⊎◌, pos, negsuc, scale, Bool, true, false, ◌&&◌,
  List, [], ◌∷◌, none, some, if◌then◌else◌,
}
use valve_controller.Common.Text.{Text, text, eq_text, eq_text_iff, eq_text_refl}
use valve_controller.Common.Dict.{lookup}
use valve_controller.Device.{opened, unset}
use valve_controller.Mqtt.Manager.{new_manager, upsert}
use valve_controller.Scheduler.Valves.{get_valve_info}
use valve_controller.K8s.{
  condition_false, Condition, MqttValveSpec, MqttValve, MqttDevice, MqttBridge, found, not_found,
  Outcome, written, conflict, write_failed, Api, finished, requeue_after,
}
use valve_controller.K8s.Valves.{
  seconds, valve_config, find_device, is_on, update_valve_status, change_status, with_state,
  reconcile_valve, configure,
}
use valve_controller.K8s.Valves.Config.{IsAdmitted, IsUsable, seconds_exact, valve_config-IsUsable}
use valve_controller.K8s.Valves.Status.{
  Retried, at_once, later, Laws, IsReported, update_valve_status-IsReported,
}
use valve_controller.K8s.Valves.Outcomes.{
  Finished, reconcile_valve-Finished, reconcile_valve_unfinished, reconcile_valve_isolates,
}
use valve_controller.K8s.Bridges.{reconcile_bridge, connect_bridge}
use valve_controller.K8s.Bridges.Clients.{BridgeFinished, reconcile_bridge-BridgeFinished}
use valve_controller.Tests.Valves.{two, two-IsOrderly}

abbrev pub sample_spec : MqttValveSpec
sample_spec = record {
  disabled = false;
  retry_count = pos 0;
  command_timeout_seconds = pos 0;
  keep_closed_interval_seconds = pos 60;
  max_open_duration_seconds = pos 2_147_483_647;
  close_repeat_count = pos 2;
}

abbrev pub sample_valve : MqttValve
sample_valve = record {
  name = text "v";
  namespace = text "n";
  deleted = false;
  generation = pos 1;
  spec = sample_spec;
  status = record {
    valve_state = unset;
    last_open_time = none;
    last_close_time = none;
    current_action_id = [];
    daily_irrigation_volume = 0;
    last_valve_open_duration = pos 0;
    conditions = [];
  };
}

abbrev pub sample_device : MqttDevice
sample_device = record {
  type_ref = some (record { kind = text "MQTTValve"; name = text "v"; namespace = text "n" });
  bridge_ref = record { name = text "office"; namespace = text "n" };
  friendly_name = text "valve-center";
  short_addr = text "0xDA76";
  disabled = false;
}

abbrev pub sample_bridge : MqttBridge
sample_bridge = record {
  name = text "office";
  namespace = text "n";
  deleted = false;
  bridge_name = text "tasmota_office";
  host = text "mqtt";
  port = pos 0;
  max_reconnect_backoff_seconds = pos 60;
  topics = [];
  credentials_secret_ref = none;
}

-- What is in the cluster, and whether the next status write meets a conflict.
pub record Cluster : Type 0 where
  pub valve : MqttValve
  pub devices : List MqttDevice
  pub contended : Bool

abbrev pub has_key : Text → Text → MqttValve → Bool
has_key namespace name v = eq_text v.namespace namespace && eq_text v.name name

abbrev pub run_again : (Cluster → Outcome × Cluster) → Outcome × Cluster → Outcome × Cluster
run_again f (conflict, c) = f c
run_again f (o, c) = (o, c)

abbrev pub sample_api : Api
sample_api = record {
  Store = Cluster;
  now = λ _. 77;
  get_valve =
      λ namespace name c. if has_key namespace name c.valve then found c.valve else not_found;
  get_bridge =
      λ namespace name c. if eq_text name (text "office") then found sample_bridge else not_found;
  get_secret = λ namespace name c. not_found;
  list_devices = λ c. some c.devices;
  update_status = λ v c.
      if c.contended
      then (conflict, record c { contended = false })
      else (written, record c { valve = v });
  retry_on_conflict = λ f c. run_again f (f c);
}

run_again-Retried :
    (f : Cluster → Outcome × Cluster) (c : Cluster) (r : Outcome × Cluster)
    → f c ≡ r
    → Retried f c (run_again f r)
run_again-Retried f c (written, c') e = subst (Retried f c) e (at_once c)
run_again-Retried f c (write_failed, c') e = subst (Retried f c) e (at_once c)
run_again-Retried f c (conflict, c') e = later c c' (f c') (ap (λ r. r.0) e) (at_once c')

abbrev after_write : MqttValve → Cluster → Outcome × Cluster
after_write v c =
    if c.contended
    then (conflict, record c { contended = false })
    else (written, record c { valve = v })

conflict-ne-written : ¬ conflict ≡ written
conflict-ne-written h = cc

write-stores :
    (v old : MqttValve) (devices : List MqttDevice) (b : Bool)
    → let r = after_write v (record { valve = old; devices = devices; contended = b }) in
      r.0 ≡ written
      → (u : MqttValve) × (sample_api.get_valve v.namespace v.name r.1 ≡ found u)
        × (u.status ≡ v.status)
write-stores v old devices true e = absurd (conflict-ne-written e)
write-stores v old devices false e =
    (v, rw (eq_text_refl v.namespace) (rw (eq_text_refl v.name) refl), refl)

pub sample_laws : Laws sample_api
sample_laws = record {
  retries = λ f c. run_again-Retried f c (f c) refl;
  keyed = λ namespace name c v e.
      ground (arith, eq_text_iff c.valve.namespace namespace, eq_text_iff c.valve.name name);
  stores = λ v c e. write-stores v c.valve c.devices c.contended e;
}

-- A cluster in which the next write meets a conflict.
abbrev pub cluster : Cluster
cluster = record { valve = sample_valve; devices = sample_device ∷ []; contended = true }

sample_spec-IsAdmitted : IsAdmitted sample_spec
sample_spec-IsAdmitted = record {
  retries = omega arith;
  timeout = omega arith;
  interval = omega arith;
  limit = omega arith;
  repeats = omega arith;
}

valve_config-IsUsable_example : IsUsable (valve_config sample_spec false)
valve_config-IsUsable_example = valve_config-IsUsable sample_spec false sample_spec-IsAdmitted

seconds_exact_example : seconds (negsuc 2_147_483_647) ≡ scale 1_000_000_000 (negsuc 2_147_483_647)
seconds_exact_example = seconds_exact (negsuc 2_147_483_647) (omega arith)

finds_device : find_device (text "v") (text "n") cluster.devices ≡ some sample_device
unfolding find_device eq_text
finds_device = refl

on_bridge : is_on sample_bridge sample_device ≡ true
unfolding eq_text
on_bridge = refl

abbrev not_ready : Condition
not_ready = record {
  type = text "Ready";
  status = condition_false;
  reason = [];
  message = [];
  last_transition_time = 1;
  observed_generation = pos 1;
}

writes :
    (update_valve_status sample_api (text "v") (text "n") opened (text "1") cluster).0 ≡ written
unfolding update_valve_status change_status with_state eq_text
writes = refl

update_valve_status-IsReported_example :
    let st' = (update_valve_status sample_api (text "v") (text "n") opened (text "1") cluster).1 in
    (sample_api.get_valve (text "n") (text "v") st' ≡ not_found)
    ⊎ ((u : MqttValve) × (sample_api.get_valve (text "n") (text "v") st' ≡ found u)
        × IsReported opened (text "1") u.status)
update_valve_status-IsReported_example =
    update_valve_status-IsReported sample_api (text "v") (text "n") opened (text "1") cluster
      sample_laws writes

finishes : (reconcile_valve sample_api (text "n") (text "v") two cluster).0 ≡ finished
unfolding reconcile_valve configure find_device eq_text
finishes = refl

reconcile_valve-Finished_example :
    Finished sample_api
      (text "n")
      (text "v")
      two
      (reconcile_valve sample_api (text "n") (text "v") two cluster).1
      cluster
reconcile_valve-Finished_example =
    reconcile_valve-Finished sample_api (text "n") (text "v") two cluster sample_laws two-IsOrderly
      finishes

abbrev without_devices : Cluster
without_devices = record cluster { devices = [] }

requeues :
    (reconcile_valve sample_api (text "n") (text "v") two without_devices).0 ≡ requeue_after 30
unfolding reconcile_valve configure find_device eq_text
requeues = refl

requeue-ne-finished : ¬ requeue_after 30 ≡ finished
requeue-ne-finished h = cc

reconcile_valve_unfinished_example :
    let r = reconcile_valve sample_api (text "n") (text "v") two without_devices in
    (r.1 ≡ two) × (r.2 ≡ without_devices)
reconcile_valve_unfinished_example =
    reconcile_valve_unfinished sample_api (text "n") (text "v") two without_devices
      (λ h. requeue-ne-finished (sym requeues ∙ h))

true-ne-false : ¬ true ≡ false
true-ne-false h = cc

other_key : text "n/v" ≢ text "n/w"
unfolding eq_text
other_key h = true-ne-false (ap (λ k. eq_text k (text "n/v")) h)

reconcile_valve_isolates_example :
    get_valve_info (text "n/w") (reconcile_valve sample_api (text "n") (text "v") two cluster).1
    ≡ get_valve_info (text "n/w") two
reconcile_valve_isolates_example =
    reconcile_valve_isolates sample_api (text "n") (text "v") (text "n/w") two cluster sample_laws
      two-IsOrderly other_key

connects :
    (reconcile_bridge sample_api
      (text "n")
      (text "office")
      true
      (new_manager (text "host"))
      cluster).0
    ≡ finished
unfolding reconcile_bridge connect_bridge upsert new_manager lookup eq_text
connects = refl

reconcile_bridge-BridgeFinished_example :
    BridgeFinished sample_api
      (text "n")
      (text "office")
      (new_manager (text "host"))
      (reconcile_bridge sample_api
        (text "n")
        (text "office")
        true
        (new_manager (text "host"))
        cluster).1
      cluster
reconcile_bridge-BridgeFinished_example =
    reconcile_bridge-BridgeFinished sample_api (text "n") (text "office") true
      (new_manager (text "host")) cluster connects
