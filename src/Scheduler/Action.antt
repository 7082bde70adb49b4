-- ===== src/Scheduler/Action.antt =====
-- internal/scheduler/action.go: one valve command and its states.
use valve_controller.Common.{
  ℕ, ◌+◌, ◌-◌, ◌/◌, ◌%◌, ℤ, Bool, true, false, ◌||◌, List, [], ◌∷◌, Option, none, ltb,
  if◌then◌else◌,
}
use valve_controller.Common.Text.{Text}
use valve_controller.Device.{Duration, Time}

pub data ActionType : Type 0 where
  open_valve open_timed close keep_close : ActionType

pub data ActionState : Type 0 where
  pending sending waiting_confirmation fulfilled closing failed cancelled : ActionState

-- The errors whose text ends up in `ErrorMessage`; the text itself is left out.
pub data Failure : Type 0 where
  no_confirmation : (retry_count : ℤ) → Failure
  context_done : Failure
  close_not_confirmed : Failure → Failure

pub record Action : Type 0 where
  pub id : Text
  pub valve_name : Text
  pub namespace : Text
  pub type : ActionType
  pub duration : Duration
  pub requested_at : Time
  pub state : ActionState
  pub attempts : ℕ
  pub last_attempt : Option Time
  pub fulfilled_at : Option Time
  pub closed_at : Option Time
  pub expires_at : Option Time
  pub failed_at : Option Time
  pub error_message : Option Failure

hex_digit : ℕ → ℕ
hex_digit n = if ltb n 10 then b'0' + n else b'a' + (n - 10)

-- `fmt.Sprintf("%x", b)` of the bytes that `rand.Read` gave.
unfoldable pub generate_id : List ℕ → Text
unfolding hex_digit
generate_id [] = []
generate_id (b ∷ bs) = hex_digit (b / 16) ∷ hex_digit (b % 16) ∷ generate_id bs

-- `newAction`, given the random bytes and the clock.
unfoldable pub new_action : List ℕ → Time → Text → Text → ActionType → Duration → Action
unfolding generate_id
new_action bytes now valve_name namespace type duration = record {
  id = generate_id bytes;
  valve_name = valve_name;
  namespace = namespace;
  type = type;
  duration = duration;
  requested_at = now;
  state = pending;
  attempts = 0;
  last_attempt = none;
  fulfilled_at = none;
  closed_at = none;
  expires_at = none;
  failed_at = none;
  error_message = none;
}

abbrev pub is_final : ActionState → Bool
is_final fulfilled = true
is_final failed = true
is_final cancelled = true
is_final _ = false

-- `IsTerminal`.
unfoldable pub is_terminal : Action → Bool
is_terminal a = is_final a.state

abbrev pub is_open_valve : ActionType → Bool
is_open_valve open_valve = true
is_open_valve _ = false

abbrev pub is_open_timed : ActionType → Bool
is_open_timed open_timed = true
is_open_timed _ = false

abbrev pub is_close : ActionType → Bool
is_close close = true
is_close _ = false

abbrev pub is_keep_close : ActionType → Bool
is_keep_close keep_close = true
is_keep_close _ = false

-- `HoldsValveOpen`.
unfoldable pub holds_valve_open : Action → Bool
holds_valve_open a = is_open_valve a.type || is_open_timed a.type

-- `IsInternalSafetyPing`.
unfoldable pub is_internal_safety_ping : Action → Bool
is_internal_safety_ping a = is_keep_close a.type
