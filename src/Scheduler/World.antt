-- ===== src/Scheduler/World.antt =====
-- The state that the goroutines of one pipeline share, and what surrounds it: the clock, the
-- contexts, the random source, the event dispatcher, the log of effects. An `*Action` is an address
-- in `heap`, since the queue, `current`, the history and the callers share one object.
use valve_controller.Common.{
  ℕ, Bool, true, false, ◌||◌, List, ◌∷◌, Option, ◌==◌, leb, if◌then◌else◌, ℤ,
}
use valve_controller.Common.Text.{Text}
use valve_controller.Device.{ValveInfo, ValveState, Duration, Time}
use valve_controller.Mqtt.Event.{SensorEvent}
use valve_controller.Mqtt.Dispatcher.{Dispatcher}
use valve_controller.Scheduler.Action.{Action, ActionType, Failure}

abbrev pub Ptr : Type 0
Ptr = ℕ

-- What leaves the pipeline, in the order of the calls, newest first.
pub data Output : Type 0 where
  command : (bridge target : Text) (power : Bool) → Output  -- ZbSend handed to the MQTT client
  status : (name namespace : Text) → ValveState → (action_id : Text) → Output  -- UpdateValveStatus
  valve_gauge : (name namespace : Text) (value : ℤ) → Output
  action_counted : ActionType → (result : Text) → Output
  duration_observed : ActionType → Time → Output
  retry_counted : ActionType → Output
  safety_close_counted : Output
  link_quality_gauge battery_gauge : (name namespace : Text) → ℤ → Output
  volume_gauge : (name namespace : Text) (bits : ℕ) → Output
  last_open_gauge : (name namespace : Text) (milliseconds : ℤ) → Output
  status_check : (bridge target : Text) → Output  -- `go p.checkClosedWithStatus3(…)`

-- The contexts: the pipeline's, the one that `cancelFn` cancels, and those with a deadline.
pub data Ctx : Type 0 where
  pipeline_ctx : Ctx
  close_ctx : (deadline : Time) → Ctx
  action_ctx : Ctx → Ctx
  timeout_ctx : Ctx → (deadline : Time) → Ctx

-- What the other goroutines and the outside may do between two steps of the action loop.
pub data Op : Type 0 where
  sensor : SensorEvent → Op  -- an event is dispatched
  elapse : ℕ → Op  -- time passes
  published : (accepted : Bool) → Op  -- the token of the pending publish is done
  enqueues : ActionType → Duration → Op
  configures : ValveInfo → Op
  stops : Op  -- the pipeline's context is cancelled
  ping_checks : Op  -- a confirmed ping reads `current`
  ping_applies : Op  -- and then records the valve as closed

-- `waitForPower`: the subscription, and what was sent into the channel.
pub record Waiter : Type 0 where
  pub subscription : Text × ℕ
  pub expected : ℤ
  pub ctx : Ctx
  pub result : Option (Option Failure)

pub record World : Type 0 where
  pub info : ValveInfo
  pub cancel_fn : Bool  -- cancelFn != nil
  pub action_cancelled : Bool
  pub stopped : Bool
  pub queue : List Ptr  -- oldest first
  pub history : List Ptr  -- newest first
  pub current : Option Ptr
  pub heap : Ptr → Action
  pub next_ptr : Ptr
  pub entropy : ℕ → List ℕ  -- the bytes of the n-th `rand.Read`
  pub now : Time
  pub bridges : Text → Bool  -- whether the manager holds a client for the bridge
  pub dispatcher : Dispatcher (Unit {0})
  pub waiter : Option Waiter
  pub ping_due : Bool
  pub output : List Output
  pub script : List (List Op)  -- for each scheduling point to come, what happens there

abbrev pub M : Type 0 → Type 0
M A = World → A × World

infixl 5 ◌>>=◌ ◌>>◌
abbrev pub ◌>>=◌ : {A B : Type 0} → M A → (A → M B) → M B
◌>>=◌ m f w = f (m w).0 (m w).1

abbrev pub ◌>>◌ : {B : Type 0} → M (Unit {0}) → M B → M B
◌>>◌ m k w = k (m w).1

abbrev pub give : {A : Type 0} → A → M A
give a w = (a, w)

abbrev pub get : M World
get w = (w, w)

abbrev pub modify : (World → World) → M (Unit {0})
modify f w = (tt, f w)

abbrev pub when : Bool → M (Unit {0}) → M (Unit {0})
when true m = m
when false m = give tt

-- Whether a context is done.
unfoldable pub is_done : Ctx → World → Bool
is_done pipeline_ctx w = w.stopped
is_done (close_ctx deadline) w = leb deadline w.now
is_done (action_ctx parent) w = w.action_cancelled || is_done parent w
is_done (timeout_ctx parent deadline) w = leb deadline w.now || is_done parent w

unfoldable pub emit : Output → World → World
emit o w = record w { output = o ∷ w.output }

abbrev pub write : (Ptr → Action) → Ptr → Action → Ptr → Action
write h p a q = if p == q then a else h q

-- `a.f = …` through a pointer.
unfoldable pub set_action : Ptr → (Action → Action) → World → World
set_action p f w = record w { heap = write w.heap p (f (w.heap p)) }
