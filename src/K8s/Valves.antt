-- ===== src/K8s/Valves.antt =====
-- internal/k8s/mqttvalve_reconciler.go: the reconciler of the valves.
pub mod Config
pub mod Devices
pub mod Outcomes
pub mod Status
use valve_controller.Common.{
  ℕ, ◌*◌, ℤ, pos, scale, to_int64, eqb_ℤ, Bool, true, false, ◌&&◌, ◌||◌, List, [], ◌∷◌, ◌++◌,
  Option, none, some, if◌then◌else◌,
}
use valve_controller.Common.Text.{Text, text, eq_text, slash}
use valve_controller.Device.{
  ValveConfig, ValveInfo, ValveState, opened, closed, unknown, unset, Duration, Time,
}
use valve_controller.Scheduler.Valves.{Scheduler, register_valve, deregister_valve}
use valve_controller.K8s.{
  ConditionStatus, condition_true, condition_false, Condition, MqttValveSpec, MqttValve, ObjectRef,
  TypeRef, MqttDevice, MqttBridge, Found, found, not_found, get_failed, Outcome, written,
  write_failed, Api, ReconcileResult, finished, reconcile_failed, requeue_after, ignore_not_found,
}
use valve_controller.K8s.Conditions.{set_condition}

abbrev pub or_default : ℤ → ℤ → ℤ
or_default x d = if eqb_ℤ x (pos 0) then d else x

-- `time.Duration(n) * time.Second`.
unfoldable pub seconds : ℤ → Duration
seconds n = to_int64 (scale 1_000_000_000 n)

-- The configuration of a pipeline, with the defaults.
unfoldable pub valve_config : MqttValveSpec → (device_disabled : Bool) → ValveConfig
valve_config spec device_disabled = record {
  disabled = spec.disabled || device_disabled;
  retry_count = or_default spec.retry_count (pos 3);
  command_timeout = or_default (seconds spec.command_timeout_seconds) (pos 30_000_000_000);
  keep_closed_interval =
      or_default (seconds spec.keep_closed_interval_seconds) (pos 300_000_000_000);
  max_open_duration = seconds spec.max_open_duration_seconds;
  close_repeat_count = or_default spec.close_repeat_count (pos 3);
}

-- What `Reconcile` registers.
unfoldable pub valve_info : MqttValve → MqttDevice → MqttBridge → ValveInfo
valve_info valve dev bridge = record {
  name = valve.name;
  namespace = valve.namespace;
  config = valve_config valve.spec dev.disabled;
  friendly_name = dev.friendly_name;
  short_addr = dev.short_addr;
  bridge_name = bridge.bridge_name;
  bridge_host = bridge.host;
  bridge_port = or_default bridge.port (pos 1883);
  state = valve.status.valve_state;
  link_quality = pos 0;
  battery_percentage = pos 0;
  reachable = false;
  daily_irrigation_volume = 0;
  last_valve_open_duration = pos 0;
  current_action_id = [];
  last_open_time = none;
  last_close_time = none;
}

abbrev pub is_valve_kind : TypeRef → Bool
is_valve_kind ref = eq_text ref.kind (text "MQTTValve")

abbrev pub refers_to : Text → Text → Option TypeRef → Bool
refers_to name namespace none = false
refers_to name namespace (some ref) =
    is_valve_kind ref && (eq_text ref.name name && eq_text ref.namespace namespace)

-- The loop of `findDevice`.
unfoldable pub find_device : Text → Text → List MqttDevice → Option MqttDevice
find_device name namespace [] = none
find_device name namespace (dev ∷ devs) =
    let rest = find_device name namespace devs in
    if refers_to name namespace dev.type_ref then some dev else rest

-- The request for the valve that a device refers to, if it refers to one.
abbrev pub valve_requests : Option TypeRef → List ObjectRef
valve_requests none = []
valve_requests (some ref) =
    if is_valve_kind ref then record { name = ref.name; namespace = ref.namespace } ∷ [] else []

-- `mapDeviceToValve`, where `none` is an object of another type.
unfoldable pub map_device_to_valve : Option MqttDevice → List ObjectRef
map_device_to_valve none = []
map_device_to_valve (some dev) = valve_requests dev.type_ref

abbrev pub is_on : MqttBridge → MqttDevice → Bool
is_on bridge dev =
    eq_text dev.bridge_ref.name bridge.name && eq_text dev.bridge_ref.namespace bridge.namespace

-- The loop of `mapBridgeToValves`.
unfoldable pub bridge_requests : MqttBridge → List MqttDevice → List ObjectRef
bridge_requests bridge [] = []
bridge_requests bridge (dev ∷ devs) =
    let rest = bridge_requests bridge devs in
    if is_on bridge dev then valve_requests dev.type_ref ++ rest else rest

-- `NamespacedName.String`.
abbrev pub request_key : Text → Text → Text
request_key namespace name = namespace ++ slash ∷ name

-- The status that `UpdateValveStatus` writes.
unfoldable pub with_state : ValveState → Text → Time → MqttValve → MqttValve
with_state opened id now v = record v {
  status = record (v.status) {
    valve_state = opened;
    current_action_id = id;
    last_open_time = some now;
  };
}
with_state closed id now v = record v {
  status = record (v.status) {
    valve_state = closed;
    current_action_id = id;
    last_close_time = some now;
  };
}
with_state unknown id now v = record v {
  status = record (v.status) { valve_state = unknown; current_action_id = id };
}
with_state unset id now v = record v {
  status = record (v.status) { valve_state = unset; current_action_id = id };
}

-- The condition that `patchReadyCondition` sets.
abbrev pub ready_condition : Bool → Text → Text → Time → ℤ → Condition
ready_condition ready reason message now generation = record {
  type = text "Ready";
  status = if ready then condition_true else condition_false;
  reason = reason;
  message = message;
  last_transition_time = now;
  observed_generation = generation;
}

unfoldable pub with_condition : Condition → MqttValve → MqttValve
with_condition c v = record v {
  status = record (v.status) { conditions = set_condition c v.status.conditions };
}

module _ (api : Api) where
  -- A closure given to `RetryOnConflict`: get the valve, change its status, write it.
  unfoldable pub change_status :
      (Time → MqttValve → MqttValve) → Text → Text → api.Store → Outcome × api.Store
  change_status f namespace name st = elim (api.get_valve namespace name st) [
    | not_found ↦ (written, st)
    | get_failed ↦ (write_failed, st)
    | found v ↦ api.update_status (f (api.now st) v) st
  ]

  -- `UpdateValveStatus`.
  unfoldable pub update_valve_status :
      Text → Text → ValveState → Text → api.Store → Outcome × api.Store
  update_valve_status name namespace state id st =
      api.retry_on_conflict (change_status (with_state state id) namespace name) st

  -- `patchReadyCondition`.
  unfoldable pub patch_ready_condition :
      MqttValve → Bool → Text → Text → api.Store → Outcome × api.Store
  patch_ready_condition valve ready reason message st =
      api.retry_on_conflict
        (change_status
          (λ now v. with_condition (ready_condition ready reason message now v.generation) v)
          valve.namespace valve.name)
        st

  -- `mapBridgeToValves`, where `none` is an object of another type.
  unfoldable pub map_bridge_to_valves : Option MqttBridge → api.Store → List ObjectRef
  map_bridge_to_valves none st = []
  map_bridge_to_valves (some bridge) st = elim (api.list_devices st) [
    | none ↦ []
    | some devs ↦ bridge_requests bridge devs
  ]

  abbrev pub requeue : Scheduler → api.Store → ReconcileResult × Scheduler × api.Store
  requeue s st = (requeue_after 30, s, st)

  abbrev pub configured :
      MqttValve
      → MqttDevice
      → MqttBridge
      → Scheduler
      → api.Store
      → ReconcileResult × Scheduler × api.Store
  configured valve dev bridge s st =
      let s' = register_valve (valve_info valve dev bridge) s in
      let patched =
        patch_ready_condition valve true (text "Configured") (text "valve pipeline running") st in
      (finished, s', patched.1)

  -- `Reconcile` for a valve that is there and not deleted.
  unfoldable pub configure :
      MqttValve → Scheduler → api.Store → ReconcileResult × Scheduler × api.Store
  configure valve s st = elim (api.list_devices st) [
    | none ↦ requeue s st
    | some devs ↦ elim (find_device valve.name valve.namespace devs) [
      | none ↦ requeue s st
      | some dev ↦ elim (api.get_bridge dev.bridge_ref.namespace dev.bridge_ref.name st) [
        | found bridge ↦ configured valve dev bridge s st
        | not_found ↦ requeue s st
        | get_failed ↦ requeue s st
      ]
    ]
  ]

  -- `Reconcile`.
  unfoldable pub reconcile_valve :
      Text → Text → Scheduler → api.Store → ReconcileResult × Scheduler × api.Store
  reconcile_valve namespace name s st = elim (api.get_valve namespace name st) [
    | not_found ↦ (finished, s, st)
    | get_failed ↦ (reconcile_failed, s, st)
    | found valve ↦
        if valve.deleted
        then (finished, deregister_valve (request_key namespace name) s, st)
        else configure valve s st
  ]
