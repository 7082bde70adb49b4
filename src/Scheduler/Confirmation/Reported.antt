-- ===== src/Scheduler/Confirmation/Reported.antt =====
-- From a message of a bridge to the end of an action: `execute` of internal/scheduler/pipeline.go
-- with the wait that the message ends.
use valve_controller.Common.{◌<◌, ℕ, suc, pos, pos_part, false, ◌≡◌, ap, In, some}
use valve_controller.Common.Text.{Text}
use valve_controller.Common.Dict.{Dict}
use valve_controller.Device.{closed, command_target}
use valve_controller.Mqtt.Tasmota.{Json, event_of, bridge_name_from_topic}
use valve_controller.Mqtt.Bridge.{handle_sensor}
use valve_controller.Scheduler.Action.{close, sending, fulfilled, is_open_valve}
use valve_controller.Scheduler.World.{Ptr, Ctx, action_ctx, World, set_action}
use valve_controller.Scheduler.Execute.{claim, execute}
use valve_controller.Scheduler.Execute.Attempt.{start_attempt}
use valve_controller.Scheduler.Ending.Final.{checked-Typed, checked}
use valve_controller.Scheduler.Ending.Fulfilled.{attempt_with_retry-first, execute-Fulfilled}
use valve_controller.Scheduler.Safety.{execute_closes}
use valve_controller.Scheduler.Confirmation.Telemetry.{IsClear, attempt_once_confirmed}
use valve_controller.Scheduler.Confirmation.Telemetry.Listening.{IsAbout}

-- The world in which the first attempt of `execute` makes up its command.
abbrev pub taken_up : Ptr → World → World
taken_up p w = set_action p (λ a. record a { state = sending }) (claim p (checked p w))

abbrev pub first_attempt : Ptr → World → World
first_attempt p w = (start_attempt p 0 (taken_up p w)).1

-- A close, an allocated object, that has an attempt and whose first attempt nothing stands in the
-- way of ends as fulfilled, with the valve recorded as closed, if a message of the bridge says that
-- the device has power 0: its entry, among whatever others, can be read and names the device, by
-- the friendly name or by the short address in any case. What happens after the message is of no
-- account.
pub execute_reported :
    (json : Json) (topic : Text) (payload : json.Raw) (es : Dict json.Raw) (k : Text)
    (raw : json.Raw) (fs : Dict json.Raw) (ctx : Ctx) (p : Ptr) (n : ℕ) (w : World)
    → p < w.next_ptr
    → (w.heap p).type ≡ close
    → pos_part w.info.config.retry_count ≡ suc n
    → json.zb_received payload ≡ some es
    → In (k, raw) es
    → json.fields raw ≡ some fs
    → IsAbout
        (command_target (first_attempt p w).info)
        (event_of json (bridge_name_from_topic topic) fs)
    → (event_of json (bridge_name_from_topic topic) fs).power ≡ some (pos 0)
    → IsClear
        (action_ctx ctx)
        false
        w.info.config.command_timeout
        (handle_sensor json topic payload)
        (first_attempt p w)
    → (((execute ctx p w).1.heap p).state ≡ fulfilled) × ((execute ctx p w).1.info.state ≡ closed)
execute_reported json topic payload es k raw fs ctx p n w lt type c z i f about q clear =
    let cfg = w.info.config in
    let confirmed =
      attempt_once_confirmed json topic payload es k raw fs (action_ctx ctx) p false
        cfg.command_timeout 0 (taken_up p w) z i f about q clear in
    let ((closes, done), allocated) = execute-Fulfilled p ctx w (checked-Typed p w lt type) (
      attempt_with_retry-first (action_ctx ctx) p false cfg.retry_count cfg.command_timeout n
        (claim p (checked p w)) c confirmed) in
    (done, execute_closes ctx p w lt (ap is_open_valve closes) done)
