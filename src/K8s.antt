-- ===== src/K8s.antt =====
-- api/v1alpha1/mqttvalve_types.go, and what the reconcilers of internal/k8s use of the cluster.
-- The API server is a parameter (`Api`): its answers to the calls of the client, and what a status
-- write does. Of the types of other modules (devices, bridges, secrets, conditions) a record has the
-- fields that the source uses.
pub mod Conditions
pub mod Copies
pub mod Valves
pub mod Bridges
use valve_controller.Common.{ℕ, ℤ, Bool, List, Option, ◌≡◌, refl, ◌⊎◌, inl, inr}
use valve_controller.Common.Text.{Text}
use valve_controller.Common.Dict.{Dict}
use valve_controller.Device.{ValveState, Time}

pub data ConditionStatus : Type 0 where
  condition_true condition_false condition_unknown : ConditionStatus

pub record Condition : Type 0 where
  pub type : Text
  pub status : ConditionStatus
  pub reason : Text
  pub message : Text
  pub last_transition_time : Time
  pub observed_generation : ℤ

pub record MqttValveSpec : Type 0 where
  pub disabled : Bool
  pub retry_count : ℤ
  pub command_timeout_seconds : ℤ
  pub keep_closed_interval_seconds : ℤ
  pub max_open_duration_seconds : ℤ
  pub close_repeat_count : ℤ

pub record MqttValveStatus : Type 0 where
  pub valve_state : ValveState
  pub last_open_time : Option Time
  pub last_close_time : Option Time
  pub current_action_id : Text
  pub daily_irrigation_volume : ℕ  -- the bits of a float64
  pub last_valve_open_duration : ℤ
  pub conditions : List Condition

pub record MqttValve : Type 0 where
  pub name : Text
  pub namespace : Text
  pub deleted : Bool  -- !DeletionTimestamp.IsZero()
  pub generation : ℤ
  pub spec : MqttValveSpec
  pub status : MqttValveStatus

pub record ObjectRef : Type 0 where
  pub name : Text
  pub namespace : Text

pub record TypeRef : Type 0 where
  pub kind : Text
  pub name : Text
  pub namespace : Text

pub record MqttDevice : Type 0 where
  pub type_ref : Option TypeRef
  pub bridge_ref : ObjectRef
  pub friendly_name : Text
  pub short_addr : Text
  pub disabled : Bool

pub record CredentialsRef : Type 0 where
  pub name : Text
  pub namespace : Text
  pub username_key : Text
  pub password_key : Text

pub record TopicConfig : Type 0 where
  pub topic : Text
  pub type : Text
  pub qos : ℤ

pub record MqttBridge : Type 0 where
  pub name : Text
  pub namespace : Text
  pub deleted : Bool
  pub bridge_name : Text
  pub host : Text
  pub port : ℤ
  pub max_reconnect_backoff_seconds : ℤ
  pub topics : List TopicConfig
  pub credentials_secret_ref : Option CredentialsRef

-- What `Get` returns: an object, a NotFound error, or another error.
pub data Found (A : Type 0) : Type 0 where
  found : A → Found A
  not_found : Found A
  get_failed : Found A

-- What a write returns: no error, a Conflict error, or another error.
pub data Outcome : Type 0 where
  written conflict write_failed : Outcome

pub record Api : Type 1 where
  pub Store : Type 0
  pub now : Store → Time
  pub get_valve : (namespace name : Text) → Store → Found MqttValve
  pub get_bridge : (namespace name : Text) → Store → Found MqttBridge
  pub get_secret : (namespace name : Text) → Store → Found (Dict Text)
  pub list_devices : Store → Option (List MqttDevice)  -- `none` is an error
  pub update_status : MqttValve → Store → Outcome × Store
  pub retry_on_conflict : (Store → Outcome × Store) → Store → Outcome × Store

-- What a reconciler returns.
pub data ReconcileResult : Type 0 where
  finished reconcile_failed : ReconcileResult
  requeue_after : (seconds : ℕ) → ReconcileResult

-- `ctrl.Result{}, client.IgnoreNotFound(err)` for the error of a `Get`.
abbrev pub ignore_not_found : {A : Type 0} → Found A → ReconcileResult
ignore_not_found get_failed = reconcile_failed
ignore_not_found _ = finished

pub Found-cases :
    {A : Type 0} (x : Found A) → (x ≡ not_found) ⊎ ((x ≡ get_failed) ⊎ ((a : A) × (x ≡ found a)))
Found-cases not_found = inl refl
Found-cases get_failed = inr (inl refl)
Found-cases (found a) = inr (inr (a, refl))
