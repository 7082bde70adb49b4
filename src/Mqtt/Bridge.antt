-- ===== src/Mqtt/Bridge.antt =====
-- internal/mqtt/bridge.go: the client of one bridge, without the connection itself.
-- The Paho client is a library: what it reports (a connection, its loss, a message) is an input, and
-- what it is told (subscriptions) an output. A channel of one place has an address.
pub mod Queries
pub mod Calls
pub mod Options
use valve_controller.Common.{
  ℕ, suc, ℤ, Bool, true, false, List, [], ◌∷◌, ◌++◌, Option, none, some, or_keep, if◌then◌else◌,
  ◌==◌,
}
use valve_controller.Common.Text.{Text, text, is_empty, eq_text, slash}
use valve_controller.Common.Dict.{Dict, lookup, insert, delete}
use valve_controller.Mqtt.Address.{dispatch_key}
use valve_controller.Mqtt.Event.{SensorEvent, ZbStatus3ValveResult}
use valve_controller.Mqtt.Tasmota.{
  Json, bridge_name_from_topic, parse_sensor_payload, parse_result_payload,
  parse_zb_status3_valve_power,
}

pub record TopicEntry : Type 0 where
  pub topic : Text
  pub type : Text
  pub qos : ℕ

pub record BridgeConfig : Type 0 where
  pub bridge_name : Text
  pub host : Text
  pub port : ℤ
  pub username : Text
  pub password : Text
  pub hostname : Text
  pub max_reconnect_backoff : ℤ
  pub topics : List TopicEntry

pub record BridgeClient : Type 0 where
  pub cfg : BridgeConfig
  pub connected : Bool
  pub disconnected : Bool  -- the Paho client was told to disconnect
  pub zb_status3_chs : Dict ℕ
  pub chans : ℕ → Option ZbStatus3ValveResult
  pub next_chan : ℕ

-- `newBridgeClient`.
unfoldable pub new_bridge_client : BridgeConfig → BridgeClient
new_bridge_client cfg = record {
  cfg = cfg;
  connected = false;
  disconnected = false;
  zb_status3_chs = [];
  chans = λ _. none;
  next_chan = 0;
}

-- `Disconnect`.
unfoldable pub disconnect : BridgeClient → BridgeClient
disconnect bc = record bc { disconnected = true }

-- The handler of a subscription.
pub data Handler : Type 0 where
  handles_sensor handles_result : Handler

abbrev joined : Text → Text → Text → Text
joined prefix bridge last = prefix ++ slash ∷ (bridge ++ slash ∷ last)

abbrev topic_subscriptions : List TopicEntry → List (Text × ℕ × Handler)
topic_subscriptions [] = []
topic_subscriptions (t ∷ ts) =
    let rest = topic_subscriptions ts in
    if eq_text t.type (text "telemetry")
    then (t.topic, t.qos, handles_sensor) ∷ rest
    else if eq_text t.type (text "result")
    then (t.topic, t.qos, handles_result) ∷ rest
    else rest

-- `resubscribe`: topic, quality of service and handler of each subscription, in order.
unfoldable pub resubscribe : BridgeConfig → List (Text × ℕ × Handler)
resubscribe cfg = elim cfg.topics [
  | [] ↦
      (joined (text "tele") cfg.bridge_name (text "SENSOR"), 1, handles_sensor)
      ∷ (joined (text "stat") cfg.bridge_name (text "RESULT"), 0, handles_result)
      ∷ []
  | t ∷ ts ↦ topic_subscriptions (t ∷ ts)
]

-- `onConnect`.
unfoldable pub on_connect : BridgeClient → List (Text × ℕ × Handler) × BridgeClient
on_connect bc = (resubscribe bc.cfg, record bc { connected = true })

-- `onConnectionLost`.
unfoldable pub on_connection_lost : BridgeClient → BridgeClient
on_connection_lost bc = record bc { connected = false }

-- `SendZbStatus3` up to its publish: the key and the channel of the query.
unfoldable pub start_query : Text → BridgeClient → (Text × ℕ) × BridgeClient
start_query device_name bc =
    let k = dispatch_key device_name in
    let ch = bc.next_chan in
    (
      (k, ch),
      record bc {
        zb_status3_chs = insert k ch bc.zb_status3_chs;
        chans = λ c. if c == ch then none else bc.chans c;
        next_chan = suc ch;
      },
    )

-- Its deferred function.
unfoldable pub end_query : Text → BridgeClient → BridgeClient
end_query k bc = record bc { zb_status3_chs = delete k bc.zb_status3_chs }

-- The channel of the first identifier that has one; an empty identifier has none.
unfoldable pub channel_for : ZbStatus3ValveResult → BridgeClient → Option ℕ
channel_for r bc =
    let by_addr =
      if is_empty r.short_addr
      then none
      else lookup (dispatch_key r.short_addr) bc.zb_status3_chs in
    let by_name =
      if is_empty r.device_name
      then none
      else lookup (dispatch_key r.device_name) bc.zb_status3_chs in
    elim by_name [ some ch ↦ some ch | none ↦ by_addr ]

-- `select { case ch <- r: default: }`.
unfoldable pub offer : ℕ → ZbStatus3ValveResult → BridgeClient → BridgeClient
offer ch r bc = record bc {
  chans = λ c. if c == ch then some (or_keep (bc.chans c) r) else bc.chans c;
}

-- The loop over the results.
unfoldable pub deliver_all : List ZbStatus3ValveResult → BridgeClient → BridgeClient
deliver_all [] bc = bc
deliver_all (r ∷ rs) bc =
    deliver_all rs (elim (channel_for r bc) [ none ↦ bc | some ch ↦ offer ch r bc ])

module _ (json : Json) where
  -- `handleSensor`: the events that it dispatches, in order.
  unfoldable pub handle_sensor : (topic : Text) → json.Raw → List SensorEvent
  handle_sensor topic payload =
      or_keep (parse_sensor_payload json (bridge_name_from_topic topic) payload) []

  -- `handleResult`.
  unfoldable pub handle_result : (topic : Text) → json.Raw → BridgeClient → BridgeClient
  handle_result topic payload bc =
      elim (parse_result_payload json (bridge_name_from_topic topic) payload) [
        | none ↦ bc
        | some _ ↦ deliver_all (or_keep (parse_zb_status3_valve_power json payload) []) bc
      ]
