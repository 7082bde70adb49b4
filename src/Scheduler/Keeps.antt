-- ===== src/Scheduler/Keeps.antt =====
-- One induction over the attempt loop for every invariant: what each primitive step keeps, the whole
-- loop keeps.
pub mod Waits
pub mod Attempts
pub mod Tasks
pub mod Runs
pub mod Whole
use valve_controller.Common.{ℕ, Bool, List, [], ◌∷◌, Option, false, true, All, ◌≡◌, none, some, ℤ}
use valve_controller.Common.Text.{Text}
use valve_controller.Device.{Time, Duration, ValveInfo, unknown}
use valve_controller.Mqtt.Dispatcher.{subscribe}
use valve_controller.Scheduler.Action.{
  Action, ActionType, ActionState, Failure, waiting_confirmation,
}
use valve_controller.Scheduler.World.{
  Ptr, Output, Ctx, Op, enqueues, stops, ping_applies, Waiter, World, emit, set_action,
}
use valve_controller.Scheduler.Wait.{tail_ops, cancel_wait}
use valve_controller.Scheduler.Shared.{finish_wait, record_state, alloc, submit, update_config}

-- Any object.
abbrev pub AnyPtr : Ptr → Type 0
AnyPtr _ = Unit

-- Any operation.
abbrev pub Any : Op → Type 0
Any _ = Unit

pub ops-Any : (ops : List Op) → All Any ops
ops-Any [] = tt
ops-Any (op ∷ ops) = (tt, ops-Any ops)

pub script-Any : (s : List (List Op)) → All (All Any) s
script-Any [] = tt
script-Any (ops ∷ s) = (ops-Any ops, script-Any s)

-- The world in which `waitForPower` has subscribed.
abbrev pub begun : Ctx → Text → ℤ → World → World
begun ctx name expected w =
    let (d, u) = subscribe name tt w.dispatcher in
    record w {
      dispatcher = d;
      waiter = some (record { subscription = u; expected = expected; ctx = ctx; result = none });
    }

-- What waiting does to the world keeps `P`, where the script has operations of a kind `A` only.
pub record WaitKeeps (A : Op → Type 0) (P : World → Type 0) : Type 0 where
  pub scripted : (w : World) → P w → All (All A) w.script
  pub submits :
      (type : ActionType) (d : Duration) (w : World)
      → A (enqueues type d)
      → P w
      → P (submit type d w)
  pub configures : (info : ValveInfo) (w : World) → P w → P (update_config info w)
  pub stops : (w : World) → A stops → P w → P (record w { stopped = true })
  pub pings : (b : Bool) (w : World) → P w → P (record w { ping_due = b })
  pub closes : (w : World) → A ping_applies → P w → P (record_state false w)
  pub scripts : (w : World) → P w → P (record w { script = tail_ops w.script })
  pub emits : (o : Output) (w : World) → P w → P (emit o w)
  pub finishes :
      (x : Waiter) (r : Option Failure) (w : World)
      → w.waiter ≡ some x
      → x.result ≡ none
      → P w
      → P (finish_wait x r w)
  pub clocks : (t : Time) (w : World) → P w → P (record w { now = t })

-- What holds from the call of `waitForPower` to that of `waitCancel`, where `P` holds before and
-- after.
pub record PhaseKeeps (A : Op → Type 0) (P : World → Type 0) : Type 1 where
  pub Waiting : World → Type 0
  pub waiting_keeps : WaitKeeps A Waiting
  pub begins :
      (ctx : Ctx) (name : Text) (expected : ℤ) (w : World)
      → P w
      → Waiting (begun ctx name expected w)
  pub ends : (w : World) → Waiting w → P (cancel_wait w)

-- What an attempt for the action at `p` does once it has begun keeps `P`, too.
pub record RestKeeps (A : Op → Type 0) (P : World → Type 0) (p : Ptr) (power : Bool) : Type 1 where
  pub wait_keeps : WaitKeeps A P
  pub open wait_keeps use *
  pub phase : PhaseKeeps A P
  pub marks :
      (w : World)
      → phase.Waiting w
      → phase.Waiting (set_action p (λ a. record a { state = waiting_confirmation }) w)
  pub states :
      (s : ActionState) (w : World) → P w → P (set_action p (λ a. record a { state = s }) w)
  pub records : (w : World) → P w → P (record_state power w)

-- So does its start.
pub record AttemptKeeps (A : Op → Type 0) (P : World → Type 0) (p : Ptr) (power : Bool)
    : Type 1 where
  pub rest_keeps : RestKeeps A P p power
  pub open rest_keeps use *
  pub attempts :
      (n : ℕ) (t : Option Time) (w : World)
      → P w
      → P (set_action p (λ a. record a { attempts = n; last_attempt = t }) w)

-- So does all, done to objects of a kind `B` only, that `execute` does between the claim of the action slot and its release.
pub record RunKeeps (A : Op → Type 0) (B : Ptr → Type 0) (P : World → Type 0) : Type 1 where
  pub run_wait_keeps : WaitKeeps A P
  pub open run_wait_keeps use *
  pub run_phase : PhaseKeeps A P
  pub run_marks :
      (q : Ptr) (w : World)
      → B q
      → run_phase.Waiting w
      → run_phase.Waiting (set_action q (λ a. record a { state = waiting_confirmation }) w)
  pub acts : (q : Ptr) (f : Action → Action) (w : World) → B q → P w → P (set_action q f w)
  pub fresh : (w : World) → P w → B w.next_ptr
  pub records : (power : Bool) (w : World) → P w → P (record_state power w)
  pub allocs :
      (name namespace : Text) (type : ActionType) (d : Duration) (w : World)
      → P w
      → P (alloc name namespace type d w)
  pub forgets : (w : World) → P w → P (record w { info = record (w.info) { state = unknown } })
  pub names :
      (id : Text) (w : World)
      → P w
      → P (record w { info = record (w.info) { current_action_id = id } })
