-- ===== src/Scheduler/Shared.antt =====
-- internal/scheduler/pipeline.go: the operations under `p.mu` and on `actionCh`, each one atomic, and
-- `Op`, what other goroutines do with them.
use valve_controller.Common.{
  ℕ, suc, ℤ, pos, negsuc, eqb_ℤ, Bool, true, false, not, ◌&&◌, List, [], ◌∷◌, ◌++◌, Option, none,
  some, ltb, if◌then◌else◌, length, take,
}
use valve_controller.Common.Text.{Text}
use valve_controller.Device.{
  ValveConfig, ValveInfo, ValveState, opened, closed, unknown, unset, Duration,
}
use valve_controller.Mqtt.Dispatcher.{unsubscribe}
use valve_controller.Scheduler.Action.{
  ActionType, Failure, is_close, new_action, is_terminal, holds_valve_open,
}
use valve_controller.Scheduler.World.{Ptr, status, valve_gauge, Waiter, World, write, emit}

abbrev pub max_history_size : ℕ
max_history_size = 100

-- The buffer of `actionCh`.
abbrev pub queue_size : ℕ
queue_size = 8

-- `&Action{…}`: a new object.
unfoldable pub alloc : Text → Text → ActionType → Duration → World → World
alloc name namespace type duration w =
    let a = new_action (w.entropy w.next_ptr) w.now name namespace type duration in
    record w { heap = write w.heap w.next_ptr a; next_ptr = suc w.next_ptr }

-- `GetCurrent`, `GetHistory` (a copy of the pointers), `GetInfo`, `config` and `getState`.
abbrev pub get_current : World → Option Ptr
get_current w = w.current

abbrev pub get_history : World → List Ptr
get_history w = w.history

abbrev pub get_info : World → ValveInfo
get_info w = w.info

abbrev pub config : World → ValveConfig
config w = w.info.config

abbrev pub get_state : World → ValveState
get_state w = w.info.state

-- `UpdateConfig`.
unfoldable pub update_config : ValveInfo → World → World
update_config info w = record w {
  info = record (w.info) {
    config = info.config;
    friendly_name = info.friendly_name;
    short_addr = info.short_addr;
    bridge_name = info.bridge_name;
    bridge_host = info.bridge_host;
    bridge_port = info.bridge_port;
  };
}

abbrev pub drop_first : List Ptr → List Ptr
drop_first [] = []
drop_first (_ ∷ ps) = ps

-- The two selects of `Enqueue`. (Once an entry is taken out, the last send does not block.)
unfoldable pub send_action : Ptr → List Ptr → List Ptr
send_action p q = if ltb (length q) queue_size then q ++ p ∷ [] else drop_first q ++ p ∷ []

-- `Enqueue`.
unfoldable pub enqueue : Ptr → World → World
enqueue p w = record w {
  action_cancelled = if is_close (w.heap p).type && w.cancel_fn then true else w.action_cancelled;
  queue = send_action p w.queue;
}

-- `newAction` and `Enqueue`, as `Scheduler.Open` and `Scheduler.Close` call them.
unfoldable pub submit : ActionType → Duration → World → World
submit type duration w = enqueue w.next_ptr (alloc w.info.name w.info.namespace type duration w)

-- `addToHistory`.
unfoldable pub add_to_history : Ptr → World → World
add_to_history p w = record w { history = take max_history_size (p ∷ w.history) }

-- The value of the state gauge; a missing key of the Go map gives 0.
unfoldable pub gauge_value : ValveState → ℤ
gauge_value opened = pos 1
gauge_value closed = pos 0
gauge_value unknown = negsuc 0
gauge_value unset = pos 0

-- The first critical section of `applyDeviceState`.
unfoldable pub record_state : Bool → World → World
record_state true w = record w {
  info = record (w.info) { state = opened; last_open_time = some w.now };
}
record_state false w = record w {
  info = record (w.info) { state = closed; last_close_time = some w.now };
}

unfoldable pub set_gauge : ValveState → World → World
set_gauge s w = emit (valve_gauge w.info.name w.info.namespace (gauge_value s)) w

unfoldable pub write_status : ValveState → Text → World → World
write_status s id w = emit (status w.info.name w.info.namespace s id) w

-- `actionID` in `applyDeviceState`.
unfoldable pub current_id : World → Text
current_id w = elim w.current [ none ↦ [] | some p ↦ (w.heap p).id ]

-- `applyDeviceState`, as the confirmed safety ping calls it.
unfoldable pub apply_closed : World → World
apply_closed w =
    let w' = set_gauge closed (record_state false w) in write_status closed (current_id w') w'

-- The test by which the safety ping gives way to an action.
unfoldable pub ping_suppressed : World → Bool
ping_suppressed w = elim w.current [
  | none ↦ false
  | some p ↦ not (is_terminal (w.heap p)) && holds_valve_open (w.heap p)
]

-- The test before a confirmed ping records the valve as closed.
unfoldable pub ping_may_record : World → Bool
ping_may_record w = elim w.current [ none ↦ true | some p ↦ is_terminal (w.heap p) ]

abbrev pub power_is : Option ℤ → ℤ → Bool
power_is none expected = false
power_is (some p) expected = eqb_ℤ p expected

-- What ends the wait: the result is sent once, and the subscription is cut.
unfoldable pub finish_wait : Waiter → Option Failure → World → World
finish_wait x r w = record w {
  waiter = some (record x { result = some r });
  dispatcher = unsubscribe x.subscription w.dispatcher;
}
