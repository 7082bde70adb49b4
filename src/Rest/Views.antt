-- ===== src/Rest/Views.antt =====
-- internal/api/handler.go and internal/api/response.go: what is shown of a valve, an action, an error.
use valve_controller.Common.{ℕ, pos, ltb_ℤ, List, [], ◌∷◌, Option, none, some, map, if◌then◌else◌}
use valve_controller.Common.Text.{Text, text}
use valve_controller.Device.{ValveInfo, ValveState, opened, closed, unknown, unset, key}
use valve_controller.Scheduler.Action.{
  Action, ActionType, open_valve, open_timed, close, keep_close, ActionState, pending, sending,
  waiting_confirmation, fulfilled, closing, failed, cancelled, is_terminal,
}
use valve_controller.Scheduler.Valves.{
  Fault, valve_not_found, valve_disabled, action_not_found, ambiguous, Result, ok, err, Scheduler,
  get_pipeline, list_actions,
}
use valve_controller.Rest.{ActionResponse, ValveResponse}

-- The texts of the constants.
unfoldable pub type_text : ActionType → Text
type_text open_valve = text "open"
type_text open_timed = text "open_timed"
type_text close = text "close"
type_text keep_close = text "keep_close"

unfoldable pub state_text : ActionState → Text
state_text pending = text "pending"
state_text sending = text "sending"
state_text waiting_confirmation = text "waiting_confirmation"
state_text fulfilled = text "fulfilled"
state_text closing = text "closing"
state_text failed = text "failed"
state_text cancelled = text "cancelled"

unfoldable pub valve_state_text : ValveState → Text
valve_state_text opened = text "open"
valve_state_text closed = text "closed"
valve_state_text unknown = text "unknown"
valve_state_text unset = []

-- `toActionResponse`.
unfoldable pub to_action_response : Action → ActionResponse
to_action_response a = record {
  id = a.id;
  valve_name = a.valve_name;
  type = type_text a.type;
  state = state_text a.state;
  duration = if ltb_ℤ (pos 0) a.duration then some a.duration else none;
  requested_at = a.requested_at;
  fulfilled_at = a.fulfilled_at;
  closed_at = a.closed_at;
  expires_at = a.expires_at;
  failed_at = a.failed_at;
  attempts = a.attempts;
  error = a.error_message;
}

-- The actions that `ListActions` points to.
abbrev pub listed : Text → Scheduler → Result (List Action)
listed k s = elim (get_pipeline k s) [
  | err e ↦ err e
  | ok a ↦ elim (list_actions k s) [ err e ↦ err e | ok ps ↦ ok (map (s.pipes a).heap ps) ]
]

-- The first action listed, if it still runs.
unfoldable pub running_action : Result (List Action) → Option ActionResponse
running_action (err e) = none
running_action (ok []) = none
running_action (ok (a ∷ older)) = if is_terminal a then none else some (to_action_response a)

-- `toValveResponse`.
unfoldable pub to_valve_response : ValveInfo → Scheduler → ValveResponse
to_valve_response info s = record {
  name = info.name;
  namespace = info.namespace;
  state = valve_state_text info.state;
  disabled = info.config.disabled;
  friendly_name = info.friendly_name;
  bridge_name = info.bridge_name;
  link_quality = info.link_quality;
  battery_percentage = info.battery_percentage;
  reachable = info.reachable;
  daily_irrigation_volume = info.daily_irrigation_volume;
  last_valve_open_duration = info.last_valve_open_duration;
  last_open_time = info.last_open_time;
  last_close_time = info.last_close_time;
  current_action = running_action (listed (key info) s);
}

-- `classifyError`.
unfoldable pub classify_error : Fault → Text × ℕ
classify_error valve_not_found = (text "VALVE_NOT_FOUND", 404)
classify_error valve_disabled = (text "VALVE_DISABLED", 422)
classify_error action_not_found = (text "INTERNAL_ERROR", 500)
classify_error (ambiguous keys) = (text "INTERNAL_ERROR", 500)
