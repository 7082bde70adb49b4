-- ===== src/Tests/Bridges.antt =====
-- The messages of a bridge, its queries, and the manager of the clients.
use valve_controller.Common.{
  ◌≡◌, refl, inl, inr, ℤ, pos, true, List, [], ◌∷◌, Option, none, some, In,
}
use valve_controller.Common.Text.{Text, text, eq_text}
use valve_controller.Common.Dict.{Dict, lookup, insert}
use valve_controller.Mqtt.Address.{dispatch_key}
use valve_controller.Mqtt.Event.{SensorEvent, ZbStatus3ValveResult}
use valve_controller.Mqtt.Tasmota.{Json, event_of, events_of, parse_sensor_payload}
use valve_controller.Mqtt.Tasmota.Parsing.{parse_sensor_payload_complete}
use valve_controller.Mqtt.Bridge.{
  BridgeConfig, BridgeClient, new_bridge_client, disconnect, start_query, deliver_all,
}
use valve_controller.Mqtt.Manager.{new_manager, upsert, same_config, topics_equal}
use valve_controller.Mqtt.Manager.Identity.{Call, upserts, call_all, call_all_distinct}
use valve_controller.Mqtt.Bridge.Options.{client_id, client_options}
use valve_controller.Mqtt.Bridge.Queries.{Answers}
use valve_controller.Mqtt.Bridge.Calls.{
  token_done, no_answer, reply, send_zb_status3, send_zb_status3_answered,
}

-- Values of JSON, as far as the tests use them; an object is built up by its members.
pub data Value : Type 0 where
  number : ℤ → Value
  string : Text → Value
  object : Value
  member : Text → Value → Value → Value

abbrev pub members : Value → Dict Value
members (member k v rest) = (k, v) ∷ members rest
members _ = []

abbrev pub object_of : Value → Option (Dict Value)
object_of object = some []
object_of (member k v rest) = some (members (member k v rest))
object_of _ = none

abbrev pub string_of : Value → Option Text
string_of (string s) = some s
string_of _ = none

abbrev pub number_of : Value → Option ℤ
number_of (number n) = some n
number_of _ = none

abbrev pub received : Value → Option (Dict Value)
received v = elim (object_of v) [
  | none ↦ none
  | some fs ↦ elim (lookup (text "ZbReceived") fs) [ none ↦ some [] | some e ↦ object_of e ]
]

abbrev pub sample_json : Json
sample_json = record {
  Raw = Value;
  zb_received = received;
  fields = object_of;
  text_of = string_of;
  int_of = number_of;
  float_of = λ v. none;
  zb_status3 = λ v. some [];
  marshal = λ device power. some (member device (string power) object);
}

-- What the device 0xDA76 says when it is closed.
abbrev pub closed_valve : Value
closed_valve =
    member (text "Device") (string (text "0xDA76")) (member (text "Power") (number (pos 0)) object)

abbrev pub entries : Value
entries = member (text "0xDA76") closed_valve (member (text "0x1") (number (pos 1)) object)

abbrev pub message : Value
message = member (text "ZbReceived") entries object

abbrev closed_event : SensorEvent
closed_event = event_of sample_json (text "b") (members closed_valve)

parse_sensor_payload_complete_example : In closed_event (closed_event ∷ [])
unfolding parse_sensor_payload events_of event_of lookup eq_text
parse_sensor_payload_complete_example =
    parse_sensor_payload_complete sample_json (text "b") message (members entries)
      (closed_event ∷ []) (text "0xDA76") closed_valve (members closed_valve) refl refl (inl refl)
      refl refl

abbrev sample_bridge : Text → BridgeConfig
sample_bridge name = record {
  bridge_name = name;
  host = text "mqtt";
  port = pos 1883;
  username = [];
  password = [];
  hostname = [];
  max_reconnect_backoff = pos 0;
  topics = record { topic = text "tele/b/SENSOR"; type = text "telemetry"; qos = 1 } ∷ [];
}

abbrev answer : ZbStatus3ValveResult
answer = record { device_name = text "v"; short_addr = text "0xDA76"; power = some (pos 0) }

answer-Answers :
    Answers answer
      (text "0xda76")
      (start_query (text "0xda76") (new_bridge_client (sample_bridge (text "b")))).1
unfolding start_query new_bridge_client dispatch_key lookup insert eq_text
answer-Answers = inr ((λ e. cc), refl, refl)

send_zb_status3_answered_example :
    let bc = new_bridge_client (sample_bridge (text "b")) in
    let x = send_zb_status3 (text "0xda76") token_done (deliver_all (answer ∷ [])) no_answer bc in
    (x.0 ≡ reply answer) × (lookup (dispatch_key (text "0xda76")) x.1.zb_status3_chs ≡ none)
send_zb_status3_answered_example =
    send_zb_status3_answered (text "0xda76") answer [] no_answer
      (new_bridge_client (sample_bridge (text "b"))) answer-Answers

-- Two bridges are connected, and one of them anew with another topic.
abbrev calls : List Call
calls =
    upserts (sample_bridge (text "b")) true
    ∷ upserts (sample_bridge (text "c")) true
    ∷ upserts (record (sample_bridge (text "b")) { topics = [] }) true
    ∷ []

abbrev renewed : BridgeClient
renewed =
    new_bridge_client (record (sample_bridge (text "b")) { topics = []; hostname = text "host" })

holds_b : lookup (text "b") (call_all calls (new_manager (text "host"))).bridges ≡ some renewed
unfolding new_manager upsert lookup insert same_config topics_equal new_bridge_client disconnect
    eq_text
holds_b = refl

call_all_distinct_example : ◌≡◌ {A = Text} (text "b") (text "b")
call_all_distinct_example =
    call_all_distinct (text "host") calls (text "b") (text "b") renewed renewed holds_b holds_b refl

logs_in : (client_options renewed.cfg).client_id ≡ text "valve-controller-host-b"
unfolding client_options client_id new_bridge_client
logs_in = refl
