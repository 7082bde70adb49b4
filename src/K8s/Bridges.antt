-- ===== src/K8s/Bridges.antt =====
-- internal/k8s/mqttbridge_reconciler.go: the reconciler of the bridges.
pub mod Clients
use valve_controller.Common.{
  ℕ, ◌%◌, ℤ, pos, residue_32, Bool, true, false, List, [], ◌∷◌, Option, none, some, map,
  if◌then◌else◌,
}
use valve_controller.Common.Text.{Text, text, is_empty}
use valve_controller.Common.Dict.{Dict, lookup}
use valve_controller.Mqtt.Bridge.{TopicEntry, BridgeConfig}
use valve_controller.Mqtt.Manager.{Manager, upsert, remove}
use valve_controller.K8s.{
  CredentialsRef, TopicConfig, MqttBridge, Found, found, not_found, get_failed, Api,
  ReconcileResult, finished, reconcile_failed,
}
use valve_controller.K8s.Valves.{or_default}

-- `mqttclient.TopicEntry{…}`, with the conversion to a byte.
unfoldable pub topic_entry : TopicConfig → TopicEntry
topic_entry t = record { topic = t.topic; type = t.type; qos = residue_32 t.qos % 256 }

-- The config without credentials.
unfoldable pub bridge_config : MqttBridge → BridgeConfig
bridge_config bridge = record {
  bridge_name = bridge.bridge_name;
  host = bridge.host;
  port = or_default bridge.port (pos 1883);
  username = [];
  password = [];
  hostname = [];
  max_reconnect_backoff = bridge.max_reconnect_backoff_seconds;
  topics = map topic_entry bridge.topics;
}

abbrev pub key_or : Text → Text → Text
key_or k d = if is_empty k then d else k

-- `string(secret.Data[k])`.
abbrev pub data_at : Text → Dict Text → Text
data_at k entries = elim (lookup k entries) [ none ↦ [] | some v ↦ v ]

module _ (api : Api) where
  -- `readCredentials`, where `none` is an error.
  unfoldable pub read_credentials : CredentialsRef → api.Store → Option (Text × Text)
  read_credentials ref st = elim (api.get_secret ref.namespace ref.name st) [
    | not_found ↦ none
    | get_failed ↦ none
    | found entries ↦ some (
      data_at (key_or ref.username_key (text "username")) entries,
      data_at (key_or ref.password_key (text "password")) entries,
    )
  ]

  -- The credentials of a bridge, which has none without a reference.
  abbrev pub credentials : Option CredentialsRef → api.Store → Option (Text × Text)
  credentials none st = some ([], [])
  credentials (some ref) st = read_credentials ref st

  abbrev pub with_credentials : Text × Text → BridgeConfig → BridgeConfig
  with_credentials c cfg = record cfg { username = c.0; password = c.1 }

  -- `Reconcile` from the config on, given whether a connection succeeds.
  unfoldable pub connect_bridge :
      MqttBridge → (connects : Bool) → Manager → api.Store → ReconcileResult × Manager
  connect_bridge bridge connects mgr st = elim (credentials bridge.credentials_secret_ref st) [
    | none ↦ (reconcile_failed, mgr)
    | some c ↦
        let r = upsert (with_credentials c (bridge_config bridge)) connects mgr in
        (if r.0 then finished else reconcile_failed, r.1)
  ]

  -- `Reconcile`.
  unfoldable pub reconcile_bridge :
      Text → Text → (connects : Bool) → Manager → api.Store → ReconcileResult × Manager
  reconcile_bridge namespace name connects mgr st = elim (api.get_bridge namespace name st) [
    | not_found ↦ (finished, mgr)
    | get_failed ↦ (reconcile_failed, mgr)
    | found bridge ↦
        if bridge.deleted
        then (finished, (remove bridge.bridge_name mgr).1)
        else connect_bridge bridge connects mgr st
  ]
