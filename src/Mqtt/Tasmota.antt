-- ===== src/Mqtt/Tasmota.antt =====
-- internal/mqtt/tasmota.go: the parsers of the messages of a bridge.
-- encoding/json is a parameter: what it makes of a raw message at each of the types that the source
-- asks for, where `none` is an error. A JSON null is no error at a plain type, but its zero value.
pub mod Parsing
use valve_controller.Common.{
  ℕ, suc, ◌+◌, ◌-◌, ℤ, Bool, true, false, not, ◌&&◌, ◌||◌, List, [], ◌∷◌, Option, none, some, map,
  leb, or_keep, if◌then◌else◌,
}
use valve_controller.Common.Text.{Text, text, is_empty, eq_text, split_n}
use valve_controller.Common.Dict.{Dict, lookup}
use valve_controller.Mqtt.Event.{SensorEvent, ResultEvent, ZbStatus3ValveResult}

pub record Json : Type 1 where
  pub Raw : Type 0
  pub zb_received : Raw → Option (Dict Raw)  -- the payload as `struct{ZbReceived map[…]…}`
  pub fields : Raw → Option (Dict Raw)  -- as `map[string]json.RawMessage`
  pub text_of : Raw → Option Text
  pub int_of : Raw → Option ℤ
  pub float_of : Raw → Option ℕ
  pub zb_status3 : Raw → Option (List ZbStatus3ValveResult)  -- as `struct{ZbStatus3 []struct{…}…}`
  pub marshal : (device power : Text) → Option Raw  -- of `{"Device": …, "Send": {"Power": …}}`

-- "Power" and the like: the field, if it is there and of the type.
abbrev pub field : {R A : Type 0} → (R → Option A) → Text → Dict R → Option A
field f k fs = elim (lookup k fs) [ none ↦ none | some v ↦ f v ]

-- `ev.DeviceName != "" || ev.ShortAddr != ""`.
abbrev pub is_identified : SensorEvent → Bool
is_identified ev = not (is_empty ev.device_name) || not (is_empty ev.short_addr)

abbrev pub second : List Text → Text
second (_ ∷ s ∷ _) = s
second _ = []

-- `BridgeNameFromTopic`.
unfoldable pub bridge_name_from_topic : Text → Text
bridge_name_from_topic topic = second (split_n 3 topic)

abbrev lower_byte : ℕ → ℕ
lower_byte c = if leb b'A' c && leb c b'Z' then c + 32 else c

-- `strings.EqualFold(s, "done")`; no other character folds to one of these letters.
unfoldable pub is_done_text : Text → Bool
unfolding eq_text
is_done_text s = eq_text (map lower_byte s) (text "done")

module _ (json : Json) where
  -- The event of one entry.
  unfoldable pub event_of : Text → Dict json.Raw → SensorEvent
  event_of bridge_name fs = record {
    bridge_name = bridge_name;
    device_name = or_keep (field json.text_of (text "Name") fs) [];
    short_addr = or_keep (field json.text_of (text "Device") fs) [];
    power = field json.int_of (text "Power") fs;
    link_quality = field json.int_of (text "LinkQuality") fs;
    battery_percentage = field json.int_of (text "BatteryPercentage") fs;
    daily_irrigation_volume = field json.float_of (text "dailyIrrigationVolume") fs;
    last_valve_open_duration = field json.int_of (text "lastValveOpenDuration") fs;
    irrigation_end_time = field json.int_of (text "irrigationEndTime") fs;
  }

  -- The loop over the entries.
  unfoldable pub events_of : Text → Dict json.Raw → List SensorEvent
  events_of bridge_name [] = []
  events_of bridge_name ((_, raw) ∷ es) =
      let rest = events_of bridge_name es in
      elim (json.fields raw) [
        | none ↦ rest
        | some fs ↦ let ev = event_of bridge_name fs in if is_identified ev then ev ∷ rest else rest
      ]

  -- `ParseSensorPayload`.
  unfoldable pub parse_sensor_payload : Text → json.Raw → Option (List SensorEvent)
  parse_sensor_payload bridge_name payload = elim (json.zb_received payload) [
    | none ↦ none
    | some es ↦ some (events_of bridge_name es)
  ]

  -- `ParseResultPayload`.
  unfoldable pub parse_result_payload : Text → json.Raw → Option ResultEvent
  parse_result_payload bridge_name payload = elim (json.fields payload) [
    | none ↦ none
    | some fs ↦ some (record {
      bridge_name = bridge_name;
      zb_send_done = elim (field json.text_of (text "ZbSend") fs) [
        | none ↦ false
        | some s ↦ is_done_text s
      ];
    })
  ]

  abbrev pub named_items : List ZbStatus3ValveResult → List ZbStatus3ValveResult
  named_items [] = []
  named_items (i ∷ is) =
      let rest = named_items is in
      if is_empty i.device_name && is_empty i.short_addr then rest else i ∷ rest

  -- `ParseZbStatus3ValvePower`.
  unfoldable pub parse_zb_status3_valve_power : json.Raw → Option (List ZbStatus3ValveResult)
  parse_zb_status3_valve_power payload = elim (json.zb_status3 payload) [
    | none ↦ none
    | some items ↦ some (named_items items)
  ]

  -- `ZbSendPayload`.
  unfoldable pub zb_send_payload : Text → Bool → Option json.Raw
  zb_send_payload device_name power =
      json.marshal device_name (if power then text "ON" else text "OFF")
