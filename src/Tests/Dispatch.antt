-- ===== src/Tests/Dispatch.antt =====
-- The dispatcher.
use valve_controller.Common.{ℕ, pos, [], ◌∷◌, some, ◌≡◌, refl, ◌↔◌, ◌⊎◌, inl, In, true}
use valve_controller.Common.Text.{text, eq_text}
use valve_controller.Common.Dict.{lookup, insert}
use valve_controller.Mqtt.Address.{dispatch_key, is_hex_addr, to_upper, dispatch_key-eq_iff}
use valve_controller.Mqtt.Event.{SensorEvent}
use valve_controller.Mqtt.Dispatcher.{
  Dispatcher, ids, subs_at, new_dispatcher, subscribe, unsubscribe, dispatch,
}
use valve_controller.Mqtt.Dispatcher.Delivery.{
  Distinct, reached, dispatch_reaches, dispatch-Distinct,
}
use valve_controller.Mqtt.Dispatcher.Registry.{IsValid, new_dispatcher-IsValid, subscribe-IsValid}
use valve_controller.Mqtt.Dispatcher.Subscriber.{IsNamed, unsubscribe-subscribe, unsubscribe_stops}
use valve_controller.Tests.Samples.{event}

-- One subscriber, by the short address in lower case.
abbrev one : Dispatcher ℕ
one = (subscribe (text "0xda76") 7 new_dispatcher).0

abbrev named : SensorEvent
named = event (text "valve-center") (text "0xDA76") (some (pos 0))

delivered_once : ids (dispatch one named) ≡ 1 ∷ []
unfolding dispatch subscribe new_dispatcher lookup insert eq_text dispatch_key
delivered_once = refl

-- A friendly name is compared with its case.
abbrev other_case : Dispatcher ℕ
other_case = (subscribe (text "Valve-Center") 7 new_dispatcher).0

case_matters_in_names : ids (dispatch other_case named) ≡ []
unfolding dispatch subscribe new_dispatcher lookup insert eq_text dispatch_key
case_matters_in_names = refl

dispatch_key-eq_iff_example : (dispatch_key (text "0xda76") ≡ dispatch_key (text "0xDA76")) ↔ (
    (text "0xda76" ≡ text "0xDA76")
    ⊎ ((is_hex_addr (text "0xda76") ≡ true)
        × (is_hex_addr (text "0xDA76") ≡ true)
        × (to_upper (text "0xda76") ≡ to_upper (text "0xDA76"))))
dispatch_key-eq_iff_example = dispatch_key-eq_iff (text "0xda76") (text "0xDA76")

dispatch_reaches_example :
    In 1 (ids (dispatch one named))
    ↔ (In 1 (ids (reached one (text "valve-center"))) ⊎ In 1 (ids (reached one (text "0xDA76"))))
dispatch_reaches_example = dispatch_reaches one named 1

dispatch-Distinct_example : Distinct (ids (dispatch one named))
dispatch-Distinct_example = dispatch-Distinct one named

one-IsValid : IsValid one
one-IsValid = subscribe-IsValid (text "0xda76") 7 new_dispatcher new_dispatcher-IsValid

unsubscribe-subscribe_example :
    let (d, u) = subscribe (text "x") 9 one in
    lookup (text "0XDA76") (unsubscribe u d).handlers ≡ lookup (text "0XDA76") one.handlers
unsubscribe-subscribe_example = unsubscribe-subscribe (text "x") 9 one (text "0XDA76") one-IsValid

one_holds : In 1 (ids (subs_at (text "0XDA76") one.handlers))
unfolding subscribe new_dispatcher lookup insert eq_text dispatch_key
one_holds = inl refl

unsubscribe_stops_example : ¬ In 1 (ids (dispatch (unsubscribe (text "0XDA76", 1) one) named))
unsubscribe_stops_example = unsubscribe_stops (text "0XDA76") 1 one named one-IsValid one_holds

again-IsNamed : IsNamed (text "0xDA76") (text "0xda76")
unfolding dispatch_key
again-IsNamed = (λ e. cc, refl)
