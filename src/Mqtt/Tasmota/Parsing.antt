-- ===== src/Mqtt/Tasmota/Parsing.antt =====
-- internal/mqtt/tasmota.go: what the parsers give, whatever encoding/json makes of a message.
use valve_controller.Common.{
  ◌≡◌, ◌≢◌, subst, refl, sym, ap, ◌∙◌, true, List, [], ◌∷◌, ◌++◌, none, some, arith, In, inl, inr,
  All, Bool-cases, Option-cases,
}
use valve_controller.Common.Text.{
  Text, slash, split_n, NoSlash, has_slash-append, before_slash-append, after_slash-append,
}
use valve_controller.Common.Dict.{Dict}
use valve_controller.Mqtt.Event.{SensorEvent}
use valve_controller.Mqtt.Tasmota.{
  Json, is_identified, bridge_name_from_topic, event_of, events_of, parse_sensor_payload,
}

-- The name of the bridge is read back from every topic that it stands in as the second part, where
-- no part that comes before the last holds a slash.
pub bridge_name_from_topic-joined :
    (prefix bridge last : Text)
    → NoSlash prefix
    → NoSlash bridge
    → bridge_name_from_topic (prefix ++ slash ∷ (bridge ++ slash ∷ last)) ≡ bridge
unfolding bridge_name_from_topic split_n
bridge_name_from_topic-joined prefix bridge last h k =
    rw (has_slash-append prefix (bridge ++ slash ∷ last)) (
      rw (after_slash-append prefix (bridge ++ slash ∷ last) h)
        (rw (has_slash-append bridge last) (before_slash-append bridge last k)))

module _ (json : Json) where
  -- An event names its device, and the bridge that it came over.
  abbrev pub IsFrom : Text → SensorEvent → Type 0
  IsFrom bridge_name ev = (is_identified ev ≡ true) × (ev.bridge_name ≡ bridge_name)

  event_of-bridge :
      (bridge_name : Text) (fs : Dict json.Raw)
      → (event_of json bridge_name fs).bridge_name ≡ bridge_name
  unfolding event_of
  event_of-bridge bridge_name fs = refl

  parsed :
      (bridge_name : Text) (payload : json.Raw) (es : Dict json.Raw) (events : List SensorEvent)
      → json.zb_received payload ≡ some es
      → parse_sensor_payload json bridge_name payload ≡ some events
      → events_of json bridge_name es ≡ events
  unfolding parse_sensor_payload
  parsed bridge_name payload es events e h = ground arith

  unreadable :
      (bridge_name : Text) (payload : json.Raw) (events : List SensorEvent)
      → json.zb_received payload ≡ none
      → parse_sensor_payload json bridge_name payload ≢ some events
  unfolding parse_sensor_payload
  unreadable bridge_name payload events e h = ground arith

  later :
      (bridge_name k : Text) (raw : json.Raw) (es : Dict json.Raw) (ev : SensorEvent)
      → In ev (events_of json bridge_name es)
      → In ev (events_of json bridge_name ((k, raw) ∷ es))
  unfolding events_of
  later bridge_name k raw es ev i = elim (Option-cases (json.fields raw)) [
    | inl e ↦ rw (e, events_of) i
    | inr (fs, e) ↦ elim (Bool-cases (is_identified (event_of json bridge_name fs))) [
      | inl n ↦ rw (e, events_of) (rw n (inr i))
      | inr n ↦ rw (e, events_of) (rw n i)
    ]
  ]

  pub In-events_of :
      (bridge_name : Text) (es : Dict json.Raw) (k : Text) (raw : json.Raw) (fs : Dict json.Raw)
      → In (k, raw) es
      → json.fields raw ≡ some fs
      → is_identified (event_of json bridge_name fs) ≡ true
      → In (event_of json bridge_name fs) (events_of json bridge_name es)
  unfolding events_of
  In-events_of bridge_name [] k raw fs i f n = absurd i
  In-events_of bridge_name ((j, raw') ∷ es) k raw fs (inl e) f n =
      rw (sym (ap (λ x. json.fields x.1) e) ∙ f, events_of) (rw n (inl refl))
  In-events_of bridge_name ((j, raw') ∷ es) k raw fs (inr i) f n =
      later bridge_name j raw' es (event_of json bridge_name fs)
        (In-events_of bridge_name es k raw fs i f n)

  events_of-All :
      (bridge_name : Text) (es : Dict json.Raw)
      → All (IsFrom bridge_name) (events_of json bridge_name es)
  unfolding events_of
  events_of-All bridge_name [] = tt
  events_of-All bridge_name ((k, raw) ∷ es) =
      let rest = events_of-All bridge_name es in
      elim (Option-cases (json.fields raw)) [
        | inl e ↦ rw (e, events_of) rest
        | inr (fs, e) ↦ elim (Bool-cases (is_identified (event_of json bridge_name fs))) [
          | inl n ↦ rw (e, events_of) (rw n ((n, event_of-bridge bridge_name fs), rest))
          | inr n ↦ rw (e, events_of) (rw n rest)
        ]
      ]

  -- Every event of a telemetry message names its device, by the friendly name or the short address,
  -- and the bridge of the topic.
  pub parse_sensor_payload-All :
      (bridge_name : Text) (payload : json.Raw) (events : List SensorEvent)
      → parse_sensor_payload json bridge_name payload ≡ some events
      → All (IsFrom bridge_name) events
  parse_sensor_payload-All bridge_name payload events h =
      elim (Option-cases (json.zb_received payload)) [
        | inl e ↦ absurd (unreadable bridge_name payload events e h)
        | inr (es, e) ↦
            subst (All (IsFrom bridge_name)) (parsed bridge_name payload es events e h)
              (events_of-All bridge_name es)
      ]

  -- No entry of a telemetry message is lost: if it can be read as an object and names its device,
  -- its event is among those of the message.
  pub parse_sensor_payload_complete :
      (bridge_name : Text) (payload : json.Raw) (es : Dict json.Raw) (events : List SensorEvent)
      (k : Text) (raw : json.Raw) (fs : Dict json.Raw)
      → json.zb_received payload ≡ some es
      → parse_sensor_payload json bridge_name payload ≡ some events
      → In (k, raw) es
      → json.fields raw ≡ some fs
      → is_identified (event_of json bridge_name fs) ≡ true
      → In (event_of json bridge_name fs) events
  parse_sensor_payload_complete bridge_name payload es events k raw fs z p i f n =
      subst (λ xs. In (event_of json bridge_name fs) xs) (parsed bridge_name payload es events z p)
        (In-events_of bridge_name es k raw fs i f n)
