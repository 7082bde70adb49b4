-- ===== src/K8s/Copies.antt =====
-- api/v1alpha1/deepcopy_helpers.go: `DeepCopyInto` of the status, with its memory.
-- What the copies of a time and of a condition are is a parameter, for they are of apimachinery.
pub mod Areas
pub mod Isolation
pub mod Objects
pub mod Lists
pub mod Separate
use valve_controller.Common.{ℕ, ℤ, suc, List, [], ◌∷◌, Option, none, some, map, ◌==◌, if◌then◌else◌}
use valve_controller.Common.Text.{Text}
use valve_controller.Device.{ValveState, Time}
use valve_controller.K8s.{Condition, MqttValveStatus}

abbrev pub Ptr : Type 0
Ptr = ℕ

-- The cells of one type; those from `next` on are not allocated.
pub record Area (A : Type 0) : Type 0 where
  pub next : Ptr
  pub cell : Ptr → A

module _ {A : Type 0} where
  abbrev pub deref : Area A → Option Ptr → Option A
  deref a none = none
  deref a (some p) = some (a.cell p)

  abbrev pub alloc : A → Area A → Ptr × Area A
  alloc x a =
      (a.next, record { next = suc a.next; cell = λ p. if p == a.next then x else a.cell p })

  -- A pointer that is not nil is set to a new cell with a copy of what it points to.
  unfoldable pub renew : (A → A) → Option Ptr → Area A → Option Ptr × Area A
  renew copy none a = (none, a)
  renew copy (some p) a = let (q, b) = alloc (copy (a.cell p)) a in (some q, b)

-- The status as it lies in memory: a slice is a pointer to its array.
pub record StatusObject : Type 0 where
  pub valve_state : ValveState
  pub last_open_time : Option Ptr
  pub last_close_time : Option Ptr
  pub current_action_id : Text
  pub daily_irrigation_volume : ℕ
  pub last_valve_open_duration : ℤ
  pub conditions : Option Ptr

pub record Memory : Type 0 where
  pub times : Area Time
  pub arrays : Area (List Condition)

abbrev pub items : Option (List Condition) → List Condition
items none = []
items (some cs) = cs

-- The value that an object stands for.
unfoldable pub read : Memory → StatusObject → MqttValveStatus
read m s = record {
  valve_state = s.valve_state;
  last_open_time = deref m.times s.last_open_time;
  last_close_time = deref m.times s.last_close_time;
  current_action_id = s.current_action_id;
  daily_irrigation_volume = s.daily_irrigation_volume;
  last_valve_open_duration = s.last_valve_open_duration;
  conditions = items (deref m.arrays s.conditions);
}

-- `DeepCopyInto`: what `out` is at the end, and the memory.
unfoldable pub deep_copy_into :
    (copy_time : Time → Time) (copy_condition : Condition → Condition)
    → StatusObject
    → Memory
    → StatusObject × Memory
deep_copy_into copy_time copy_condition s m =
    let (opened_at, times) = renew copy_time s.last_open_time m.times in
    let (closed_at, times') = renew copy_time s.last_close_time times in
    let (conditions, arrays) = renew (map copy_condition) s.conditions m.arrays in
    (
      record s { last_open_time = opened_at; last_close_time = closed_at; conditions = conditions },
      record { times = times'; arrays = arrays },
    )
