-- ===== src/Tests/Copies.antt =====
-- A copied status, and writes through the copy and through the original.
use valve_controller.Common.{
  ◌≡◌, refl, pos, List, Option, map, false, [], ◌∷◌, some, arith, ◌==◌, if◌then◌else◌,
}
use valve_controller.Common.Text.{Text, text}
use valve_controller.Device.{opened}
use valve_controller.K8s.{MqttValveSpec, Condition, condition_true}
use valve_controller.K8s.Copies.{Ptr, Area, StatusObject, Memory, renew, deep_copy_into}
use valve_controller.K8s.Copies.Isolation.{IsStored}
use valve_controller.K8s.Copies.Objects.{
  ValveObject, ValveListObject, Copiers, deep_copy_valve_into, copy_items, deep_copy_list_into,
}
use valve_controller.K8s.Copies.Lists.{AreExact}
use valve_controller.K8s.Copies.Separate.{
  OnlyThroughAny, items_of, Isolates, deep_copy_list_into-Isolates,
}

abbrev ready : Condition
ready = record {
  type = text "Ready";
  status = condition_true;
  reason = [];
  message = [];
  last_transition_time = 7;
  observed_generation = pos 1;
}

-- The two times share one cell.
abbrev status : StatusObject
status = record {
  valve_state = opened;
  last_open_time = some 0;
  last_close_time = some 0;
  current_action_id = text "a";
  daily_irrigation_volume = 0;
  last_valve_open_duration = pos 5;
  conditions = some 0;
}

abbrev memory : Memory
memory = record {
  times = record { next = 1; cell = λ p. 7 };
  arrays = record { next = 1; cell = λ p. ready ∷ [] };
}

memory-IsStored : IsStored memory status
memory-IsStored = record {
  opened_at = (omega arith, omega arith);
  closed_at = (omega arith, omega arith);
  array = (omega arith, omega arith);
}

abbrev by : Copiers Text Text
by = record {
  copy_time = λ t. t;
  copy_condition = λ c. c;
  copy_meta = λ m. m;
  copy_list_meta = λ m. m;
}

by-AreExact : AreExact by
by-AreExact = record {
  time = λ t. refl;
  condition = λ c. refl;
  meta = λ m. refl;
  list_meta = λ m. refl;
}

abbrev spec : MqttValveSpec
spec = record {
  disabled = false;
  retry_count = pos 3;
  command_timeout_seconds = pos 30;
  keep_closed_interval_seconds = pos 300;
  max_open_duration_seconds = pos 3600;
  close_repeat_count = pos 3;
}

abbrev valve : ValveObject Text Text
valve = record { type_meta = []; object_meta = text "v"; spec = spec; status = status }

-- Two valves whose statuses share their memory.
abbrev valves : ValveListObject Text Text Text
valves = record { type_meta = []; list_meta = []; items = some (valve ∷ valve ∷ []) }

abbrev copied : ValveListObject Text Text Text × Memory
copied = deep_copy_list_into by valves memory

abbrev overwrite : {A : Type 0} → Ptr → A → Area A → Area A
overwrite p x a = record a { cell = λ q. if q == p then x else a.cell q }

-- The time and the conditions at one address are overwritten.
abbrev damage : Ptr → Memory → Memory
damage p m = record { times = overwrite p 0 m.times; arrays = overwrite p [] m.arrays }

abbrev damage_two : Memory → Memory
damage_two m = damage 1 (damage 2 m)

through_copy : OnlyThroughAny (items_of copied.0) copied.1 (damage_two copied.1)
unfolding deep_copy_list_into copy_items deep_copy_valve_into deep_copy_into renew
through_copy = record { times = λ p h. ground (arith, h); arrays = λ p h. ground (arith, h) }

through_original : OnlyThroughAny (items_of valves) copied.1 (damage 0 copied.1)
unfolding deep_copy_list_into copy_items deep_copy_valve_into deep_copy_into renew
through_original = record { times = λ p h. ground (arith, h); arrays = λ p h. ground (arith, h) }

deep_copy_list_into-Isolates_example :
    Isolates by valves memory (damage_two copied.1) (damage 0 copied.1)
deep_copy_list_into-Isolates_example =
    deep_copy_list_into-Isolates by by-AreExact valves memory (damage_two copied.1)
      (damage 0 copied.1) (memory-IsStored, (memory-IsStored, tt)) through_copy through_original

-- Each time is copied to a cell of its own.
abbrev last_close_times : List (ValveObject Text Text) → List (Option Ptr)
last_close_times vs = map (λ v. v.status.last_close_time) vs

closes_apart : last_close_times (items_of copied.0) ≡ some 2 ∷ some 4 ∷ []
unfolding deep_copy_list_into copy_items deep_copy_valve_into deep_copy_into renew
closes_apart = refl
