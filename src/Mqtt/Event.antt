-- ===== src/Mqtt/Event.antt =====
-- internal/mqtt/tasmota.go: the parsed messages.
use valve_controller.Common.{ℕ, ℤ, Bool, Option}
use valve_controller.Common.Text.{Text}

pub record SensorEvent : Type 0 where
  pub bridge_name : Text
  pub device_name : Text
  pub short_addr : Text
  pub power : Option ℤ
  pub link_quality : Option ℤ
  pub battery_percentage : Option ℤ
  pub daily_irrigation_volume : Option ℕ  -- the bits of a float64
  pub last_valve_open_duration : Option ℤ
  pub irrigation_end_time : Option ℤ

pub record ResultEvent : Type 0 where
  pub bridge_name : Text
  pub zb_send_done : Bool

pub record ZbStatus3ValveResult : Type 0 where
  pub device_name : Text
  pub short_addr : Text
  pub power : Option ℤ
