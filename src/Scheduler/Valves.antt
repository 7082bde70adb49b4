-- ===== src/Scheduler/Valves.antt =====
-- internal/scheduler/scheduler.go: the pipelines of all valves.
-- A `*pipeline` and the context of its `cancel` have the same address, so that a pipeline that was
-- removed goes on to exist. The order in which Go ranges over a map is the order of insertion here.
pub mod Register
pub mod Lookup
pub mod Requests
pub mod Refinement
use valve_controller.Common.{
  ℕ, suc, ℤ, pos, negsuc, to_int32, ltb_ℤ, Bool, true, false, ◌&&◌, List, [], ◌∷◌, Option, none,
  some, if◌then◌else◌, ◌==◌,
}
use valve_controller.Common.Text.{Text, eq_text, split_n}
use valve_controller.Common.Dict.{Dict, lookup, insert, delete, keys}
use valve_controller.Device.{ValveInfo, ValveState, Duration, key}
use valve_controller.Mqtt.Event.{SensorEvent}
use valve_controller.Scheduler.Action.{ActionType, open_valve, open_timed, close}
use valve_controller.Scheduler.World.{
  Ptr, World, emit, link_quality_gauge, battery_gauge, volume_gauge, last_open_gauge,
}
use valve_controller.Scheduler.Shared.{
  get_current, get_history, get_info, update_config, submit, set_gauge,
}

-- The errors.
pub data Fault : Type 0 where
  valve_not_found valve_disabled action_not_found : Fault
  ambiguous : List Text → Fault

pub data Result (A : Type 0) : Type 0 where
  err : Fault → Result A
  ok : A → Result A

pub record Scheduler : Type 0 where
  pub pipelines : Dict ℕ
  pub cancels : Dict ℕ
  pub pipes : ℕ → World
  pub next_pipe : ℕ

-- `New`, given memory.
unfoldable pub new_scheduler : (ℕ → World) → Scheduler
new_scheduler pipes = record { pipelines = []; cancels = []; pipes = pipes; next_pipe = 0 }

-- `newPipeline`, given what surrounds the pipeline.
unfoldable pub new_pipeline : ValveInfo → World → World
new_pipeline info w = record w {
  info = info;
  cancel_fn = false;
  action_cancelled = false;
  stopped = false;
  queue = [];
  history = [];
  current = none;
  waiter = none;
  ping_due = false;
}

-- What is done to the pipeline at an address.
abbrev pub at_pipe : ℕ → (World → World) → Scheduler → Scheduler
at_pipe a f s = record s { pipes = λ b. if a == b then f (s.pipes b) else s.pipes b }

-- `RegisterValve`.
unfoldable pub register_valve : ValveInfo → Scheduler → Scheduler
register_valve info s = elim (lookup (key info) s.pipelines) [
  | some a ↦ at_pipe a (update_config info) s
  | none ↦
      let a = s.next_pipe in
      at_pipe a (λ w. set_gauge info.state (new_pipeline info w))
        (record s {
          pipelines = insert (key info) a s.pipelines;
          cancels = insert (key info) a s.cancels;
          next_pipe = suc a;
        })
]

-- `DeregisterValve`.
unfoldable pub deregister_valve : Text → Scheduler → Scheduler
deregister_valve k s = elim (lookup k s.cancels) [
  | none ↦ s
  | some a ↦
      at_pipe a (λ w. record w { stopped = true })
        (record s { pipelines = delete k s.pipelines; cancels = delete k s.cancels })
]

-- `getPipeline`.
unfoldable pub get_pipeline : Text → Scheduler → Result ℕ
get_pipeline k s = elim (lookup k s.pipelines) [ none ↦ err valve_not_found | some a ↦ ok a ]

-- `Open`.
unfoldable pub request_open : Text → Duration → Scheduler → Result Ptr × Scheduler
request_open k duration s = elim (get_pipeline k s) [
  | err e ↦ (err e, s)
  | ok a ↦
      if (get_info (s.pipes a)).config.disabled
      then (err valve_disabled, s)
      else let t = if ltb_ℤ (pos 0) duration then open_timed else open_valve in
        (ok (s.pipes a).next_ptr, at_pipe a (submit t duration) s)
]

-- `Close`.
unfoldable pub request_close : Text → Scheduler → Result Ptr × Scheduler
request_close k s = elim (get_pipeline k s) [
  | err e ↦ (err e, s)
  | ok a ↦ (ok (s.pipes a).next_ptr, at_pipe a (submit close (pos 0)) s)
]

-- The first action of a list that has the id.
unfoldable pub find_action : Text → World → List Ptr → Result Ptr
find_action id w [] = err action_not_found
find_action id w (p ∷ ps) =
    let rest = find_action id w ps in if eq_text (w.heap p).id id then ok p else rest

-- `GetAction`.
unfoldable pub get_action : Text → Text → Scheduler → Result Ptr
get_action k id s = elim (get_pipeline k s) [
  | err e ↦ err e
  | ok a ↦
      let w = s.pipes a in
      elim (get_current w) [
        | none ↦ find_action id w (get_history w)
        | some p ↦ if eq_text (w.heap p).id id then ok p else find_action id w (get_history w)
      ]
]

-- `ListActions`.
unfoldable pub list_actions : Text → Scheduler → Result (List Ptr)
list_actions k s = elim (get_pipeline k s) [
  | err e ↦ err e
  | ok a ↦
      let w = s.pipes a in
      elim (get_current w) [ none ↦ ok (get_history w) | some p ↦ ok (p ∷ get_history w) ]
]

-- `GetValveInfo`.
unfoldable pub get_valve_info : Text → Scheduler → Result ValveInfo
get_valve_info k s = elim (get_pipeline k s) [ err e ↦ err e | ok a ↦ ok (get_info (s.pipes a)) ]

-- `len(parts) == 2 && parts[1] == name`.
abbrev pub second_is : Text → List Text → Bool
second_is name (n ∷ v ∷ []) = eq_text v name
second_is name _ = false

-- The loop of `FindKey`.
unfoldable pub matches : Text → List Text → List Text
matches name [] = []
matches name (k ∷ ks) =
    let rest = matches name ks in if second_is name (split_n 2 k) then k ∷ rest else rest

abbrev pub the_only : List Text → Result Text
the_only [] = err valve_not_found
the_only (k ∷ []) = ok k
the_only ks = err (ambiguous ks)

-- `FindKey`.
unfoldable pub find_key : Text → Scheduler → Result Text
find_key name s = the_only (matches name (keys s.pipelines))

-- `ListValves`.
unfoldable pub list_valves : Scheduler → List Text
list_valves s = keys s.pipelines

abbrev pub set_if : {A : Type 0} → Option A → A → A
set_if none x = x
set_if (some y) x = y

abbrev pub set_int32_if : Option ℤ → ℤ → ℤ
set_int32_if none x = x
set_int32_if (some y) x = to_int32 y

-- What `UpdateSensorFields` does to a pipeline: the fields under the lock, then the gauges.
unfoldable pub sense : SensorEvent → World → World
sense ev w =
    let i = record (w.info) {
      link_quality = set_int32_if ev.link_quality w.info.link_quality;
      battery_percentage = set_int32_if ev.battery_percentage w.info.battery_percentage;
      daily_irrigation_volume = set_if ev.daily_irrigation_volume w.info.daily_irrigation_volume;
      last_valve_open_duration = set_if ev.last_valve_open_duration w.info.last_valve_open_duration;
    } in
    emit (last_open_gauge i.name i.namespace i.last_valve_open_duration) (
      emit (volume_gauge i.name i.namespace i.daily_irrigation_volume) (
        emit (battery_gauge i.name i.namespace i.battery_percentage)
          (emit (link_quality_gauge i.name i.namespace i.link_quality) (record w { info = i }))))

-- `UpdateSensorFields`.
unfoldable pub update_sensor_fields : Text → SensorEvent → Scheduler → Scheduler
update_sensor_fields k ev s = elim (lookup k s.pipelines) [
  | none ↦ s
  | some a ↦ at_pipe a (sense ev) s
]
