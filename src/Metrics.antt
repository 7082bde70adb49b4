-- ===== src/Metrics.antt =====
-- internal/metrics/metrics.go: the collectors with their names and labels, and the number that stands
-- for the state of a valve. A name that is registered twice is a panic of the Prometheus library.
pub mod Labels
use valve_controller.Common.{
  ℤ, pos, negsuc, Bool, true, false, ◌&&◌, not, List, [], ◌∷◌, map, if◌then◌else◌,
}
use valve_controller.Common.Text.{Text, text, eq_text}
use valve_controller.Device.{ValveInfo}
use valve_controller.Scheduler.Action.{Action}
use valve_controller.Mqtt.Bridge.{BridgeConfig}
use valve_controller.Rest.Views.{type_text}

pub data Collector : Type 0 where
  valve_state actions_total action_duration action_retries safety_closes_total : Collector
  mqtt_messages_received mqtt_connection_state daily_irrigation_volume : Collector
  last_open_duration battery_percentage link_quality : Collector

pub record Description : Type 0 where
  pub name : Text
  pub labels : List Text

abbrev valve_labels : List Text
valve_labels = text "name" ∷ text "namespace" ∷ []

-- `New`: what each collector is registered with.
unfoldable pub describe : Collector → Description
describe valve_state = record { name = text "valve_state"; labels = valve_labels }
describe actions_total = record {
  name = text "actions_total";
  labels = text "name" ∷ text "namespace" ∷ text "type" ∷ text "result" ∷ [];
}
describe action_duration = record {
  name = text "action_duration_seconds";
  labels = text "name" ∷ text "namespace" ∷ text "type" ∷ [];
}
describe action_retries = record {
  name = text "action_retries_total";
  labels = text "name" ∷ text "namespace" ∷ text "type" ∷ [];
}
describe safety_closes_total = record { name = text "safety_closes_total"; labels = valve_labels }
describe mqtt_messages_received = record {
  name = text "mqtt_messages_received_total";
  labels = text "bridge" ∷ [];
}
describe mqtt_connection_state = record {
  name = text "mqtt_connection_state";
  labels = text "bridge" ∷ [];
}
describe daily_irrigation_volume = record {
  name = text "daily_irrigation_volume";
  labels = valve_labels;
}
describe last_open_duration = record {
  name = text "last_open_duration_seconds";
  labels = valve_labels;
}
describe battery_percentage = record { name = text "battery_percentage"; labels = valve_labels }
describe link_quality = record { name = text "link_quality"; labels = valve_labels }

-- The order of the registrations.
abbrev pub collectors : List Collector
collectors =
    valve_state ∷ actions_total ∷ action_duration ∷ action_retries ∷ safety_closes_total
    ∷ mqtt_messages_received ∷ mqtt_connection_state ∷ daily_irrigation_volume ∷ last_open_duration
    ∷ battery_percentage ∷ link_quality ∷ []

-- `ValveStateFloat`.
unfoldable pub valve_state_float : Text → ℤ
valve_state_float state =
    if eq_text state (text "open")
    then pos 1
    else if eq_text state (text "closed")
    then pos 0
    else negsuc 0
