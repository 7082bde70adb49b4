-- ===== src/Device.antt =====
-- internal/device/valve.go: what the controller knows of one valve.
use valve_controller.Common.{ℕ, ℤ, Bool, Option, ◌++◌, ◌∷◌, if◌then◌else◌}
use valve_controller.Common.Text.{Text, is_empty, slash}

-- Of `ValveState`, whose zero value "" is what a new custom resource holds.
pub data ValveState : Type 0 where
  opened closed unknown unset : ValveState

-- A duration is its nanoseconds, which are signed.
abbrev pub Duration : Type 0
Duration = ℤ

-- An instant is its nanoseconds since some fixed start.
abbrev pub Time : Type 0
Time = ℕ

pub record ValveConfig : Type 0 where
  pub disabled : Bool
  pub retry_count : ℤ
  pub command_timeout : Duration
  pub keep_closed_interval : Duration
  pub max_open_duration : Duration
  pub close_repeat_count : ℤ

pub record ValveInfo : Type 0 where
  pub name : Text
  pub namespace : Text
  pub config : ValveConfig
  pub friendly_name : Text
  pub short_addr : Text
  pub bridge_name : Text
  pub bridge_host : Text
  pub bridge_port : ℤ
  pub state : ValveState
  pub link_quality : ℤ
  pub battery_percentage : ℤ
  pub reachable : Bool
  pub daily_irrigation_volume : ℕ  -- the bits of a float64, which is only passed on
  pub last_valve_open_duration : ℤ
  pub current_action_id : Text
  pub last_open_time : Option Time
  pub last_close_time : Option Time

-- `Key`.
unfoldable pub key : ValveInfo → Text
key v = v.namespace ++ (slash ∷ v.name)

-- `CommandTarget`.
unfoldable pub command_target : ValveInfo → Text
command_target v = if is_empty v.short_addr then v.friendly_name else v.short_addr
