-- ===== src/Scheduler/Confirmation/Telemetry.antt =====
-- From a message of a bridge to the end of an attempt: `handleSensor` of internal/mqtt/bridge.go, the
-- parser and the dispatcher, and the wait of internal/scheduler/pipeline.go that they end.
pub mod Listening
pub mod Sending
use valve_controller.Common.{
  ℕ, suc, ◌+◌, ◌<◌, ℤ, pos, pos_part, eqb_ℤ, Bool, true, false, ◌&&◌, List, [], ◌∷◌, map, Option,
  none, some, ◌≡◌, refl, sym, ap, subst, ◌∙◌, ◌⊎◌, inl, inr, In, arith, Bool-cases, if◌then◌else◌,
  leb, ◌||◌, not, ◌≢◌,
}
use valve_controller.Common.Text.{Text, is_empty}
use valve_controller.Common.Dict.{Dict}
use valve_controller.Device.{Duration, command_target}
use valve_controller.Mqtt.Event.{SensorEvent}
use valve_controller.Mqtt.Address.{dispatch_key}
use valve_controller.Mqtt.Tasmota.{
  Json, is_identified, event_of, events_of, parse_sensor_payload, bridge_name_from_topic,
}
use valve_controller.Mqtt.Tasmota.Parsing.{In-events_of}
use valve_controller.Mqtt.Bridge.{handle_sensor}
use valve_controller.Mqtt.Dispatcher.{Dispatcher, contains, ids, subs_at, dispatch, subscribe}
use valve_controller.Mqtt.Dispatcher.Delivery.{contains_iff, reached, dispatch_reaches}
use valve_controller.Mqtt.Dispatcher.Subscriber.{IsNamed, In-subscribe_self}
use valve_controller.Scheduler.Action.{waiting_confirmation}
use valve_controller.Scheduler.World.{
  Ptr, Ctx, pipeline_ctx, close_ctx, action_ctx, timeout_ctx, Op, sensor, published, Waiter, World,
  is_done, emit, command, set_action,
}
use valve_controller.Scheduler.Shared.{power_is, finish_wait}
use valve_controller.Scheduler.Wait.{
  on_event, watch_ctx, react, observe, observe_all, pause_step, wait_for_power, has_result,
  wait_result, await_step, send_zb_send, after, head_ops, tail_ops, accepted_of, cancel_wait,
}
use valve_controller.Scheduler.Execute.Attempt.{
  power_value, send_count, send_loop, Verdict, return, judge, conclude, start_attempt, attempt_once,
}
use valve_controller.Scheduler.Confirmation.Telemetry.Sending.{
  Listens-frame, started, waiting, waiting-Listens, wait_for_power-running, sent-success,
}
use valve_controller.Scheduler.Confirmation.Telemetry.Listening.{
  IsAbout, Listens, IsConfirmed, is_done-same, watch_ctx-listening, all-about,
}

-- Nothing stands in the way of an attempt that starts in the state `u`: its context is not done, it
-- sends its command once, and the client of the bridge is there. Then the broker accepts the
-- command, and next the events are dispatched.
pub record IsClear (ctx : Ctx) (power : Bool) (timeout : Duration) (evs : List SensorEvent)
    (u : World) : Type 0 where
  pub running : is_done (timeout_ctx ctx (after timeout u)) u ≡ false
  pub once : send_count power u.info.config.close_repeat_count ≡ 1
  pub client : u.bridges u.info.bridge_name ≡ true
  pub later : List (List Op)
  pub next : u.script ≡ (published true ∷ []) ∷ map sensor evs ∷ later

attempt_once-success :
    (ctx : Ctx) (p : Ptr) (power : Bool) (timeout : Duration) (n : ℕ) (ev : SensorEvent)
    (evs : List SensorEvent) (w : World)
    → IsClear ctx power timeout evs (start_attempt p n w).1
    → In ev evs
    → IsAbout (command_target (start_attempt p n w).1.info) ev
    → ev.power ≡ some (power_value power)
    → (attempt_once ctx p power timeout n w).0 ≡ return none
unfolding attempt_once set_action
attempt_once-success ctx p power timeout n ev evs w clear i about q =
    let u = (start_attempt p n w).1 in
    let wait_ctx = timeout_ctx ctx (after timeout u) in
    let target = command_target u.info in
    let e = power_value power in
    let x = started wait_ctx target e u in
    let mark : World → World = set_action p (λ a. record a { state = waiting_confirmation }) in
    let v = mark (waiting wait_ctx target e u) in
    let l = waiting-Listens wait_ctx target e u clear.running in
    let l' = Listens-frame target e x v (waiting wait_ctx target e u) refl refl refl refl refl l in
    let run : ℕ → World → Verdict = λ k z.
      let r = send_loop ctx wait_ctx u.info.bridge_name target power true false k z in
      (conclude ctx p power r.0 r.1).0 in
    ap (λ z. run (send_count power u.info.config.close_repeat_count) (mark z))
      (wait_for_power-running wait_ctx target e u clear.running)
    ∙ ap (λ k. run k v) clear.once
    ∙ sent-success target e x ctx wait_ctx p u.info.bridge_name target power ev evs clear.later v l'
        clear.client clear.next i about q

not_both_empty : (s t : Text) → (s ≢ []) ⊎ (t ≢ []) → not (is_empty s) || not (is_empty t) ≡ true
not_both_empty [] [] (inl h) = absurd (h refl)
not_both_empty [] [] (inr h) = absurd (h refl)
not_both_empty [] (c ∷ t) h = refl
not_both_empty (c ∷ s) t h = refl

IsAbout-is_identified : (name : Text) (ev : SensorEvent) → IsAbout name ev → is_identified ev ≡ true
IsAbout-is_identified name ev about =
    not_both_empty ev.device_name ev.short_addr (elim about [ inl p ↦ inl p.0 | inr p ↦ inr p.0 ])

handle_sensor-events :
    (json : Json) (topic : Text) (payload : json.Raw) (es : Dict json.Raw)
    → json.zb_received payload ≡ some es
    → handle_sensor json topic payload ≡ events_of json (bridge_name_from_topic topic) es
unfolding handle_sensor parse_sensor_payload
handle_sensor-events json topic payload es z = ground (arith, z)

-- An attempt that nothing stands in the way of is confirmed by a message of the bridge in which the
-- device reports the power asked for: its entry, among whatever others, can be read and names the
-- device, by the friendly name or by the short address in any case.
pub attempt_once_confirmed :
    (json : Json) (topic : Text) (payload : json.Raw) (es : Dict json.Raw) (k : Text)
    (raw : json.Raw) (fs : Dict json.Raw) (ctx : Ctx) (p : Ptr) (power : Bool) (timeout : Duration)
    (n : ℕ) (w : World)
    → json.zb_received payload ≡ some es
    → In (k, raw) es
    → json.fields raw ≡ some fs
    → IsAbout
        (command_target (start_attempt p n w).1.info)
        (event_of json (bridge_name_from_topic topic) fs)
    → (event_of json (bridge_name_from_topic topic) fs).power ≡ some (power_value power)
    → IsClear ctx power timeout (handle_sensor json topic payload) (start_attempt p n w).1
    → (attempt_once ctx p power timeout n w).0 ≡ return none
attempt_once_confirmed json topic payload es k raw fs ctx p power timeout n w z i f about q clear =
    let bridge = bridge_name_from_topic topic in
    let ev = event_of json bridge fs in
    let named = IsAbout-is_identified (command_target (start_attempt p n w).1.info) ev about in
    let there : In ev (handle_sensor json topic payload) =
      subst (In ev) (sym (handle_sensor-events json topic payload es z))
        (In-events_of json bridge es k raw fs i f named) in
    attempt_once-success ctx p power timeout n ev (handle_sensor json topic payload) w clear there
      about q
