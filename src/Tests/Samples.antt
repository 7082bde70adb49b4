-- ===== src/Tests/Samples.antt =====
-- A valve, an event of its device, and a pipeline that is about to run one action.
use valve_controller.Common.{ℕ, ℤ, pos, true, false, List, [], ◌∷◌, Option, none, some}
use valve_controller.Common.Text.{Text, text}
use valve_controller.Device.{ValveConfig, ValveInfo, unknown, Duration}
use valve_controller.Mqtt.Event.{SensorEvent}
use valve_controller.Scheduler.Action.{ActionType, new_action}
use valve_controller.Scheduler.World.{World, Op, sensor, published}

abbrev pub event : Text → Text → Option ℤ → SensorEvent
event name addr power = record {
  bridge_name = text "office";
  device_name = name;
  short_addr = addr;
  power = power;
  link_quality = none;
  battery_percentage = none;
  daily_irrigation_volume = none;
  last_valve_open_duration = none;
  irrigation_end_time = none;
}

abbrev pub sample_config : ℕ → ValveConfig
sample_config limit = record {
  disabled = false;
  retry_count = pos 2;
  command_timeout = pos 30_000_000_000;
  keep_closed_interval = pos 300_000_000_000;
  max_open_duration = pos limit;
  close_repeat_count = pos 1;
}

abbrev pub sample_info : ℕ → ValveInfo
sample_info limit = record {
  name = text "v";
  namespace = text "n";
  config = sample_config limit;
  friendly_name = text "valve-center";
  short_addr = text "0xda76";
  bridge_name = text "office";
  bridge_host = text "mqtt";
  bridge_port = pos 1883;
  state = unknown;
  link_quality = pos 0;
  battery_percentage = pos 0;
  reachable = true;
  daily_irrigation_volume = 0;
  last_valve_open_duration = pos 0;
  current_action_id = [];
  last_open_time = none;
  last_close_time = none;
}

-- Address 0 holds an action of the given type.
abbrev pub sample_world : ActionType → Duration → ℕ → List (List Op) → World
sample_world type duration limit script = record {
  info = sample_info limit;
  cancel_fn = false;
  action_cancelled = false;
  stopped = false;
  queue = [];
  history = [];
  current = none;
  heap = λ _. new_action [] 0 (text "v") (text "n") type duration;
  next_ptr = 1;
  entropy = λ n. n ∷ [];
  now = 1000;
  bridges = λ _. true;
  dispatcher = record { handlers = []; next_id = 0 };
  waiter = none;
  ping_due = false;
  output = [];
  script = script;
}

-- The device answers under its friendly name, with its short address as Tasmota spells it.
abbrev pub answers : ℤ → List Op
answers power =
    published true ∷ sensor (event (text "valve-center") (text "0xDA76") (some power)) ∷ []
