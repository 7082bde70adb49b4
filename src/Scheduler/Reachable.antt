-- ===== src/Scheduler/Reachable.antt =====
-- internal/scheduler/pipeline.go: the states that a pipeline can reach. Its main loop (`run`) takes up
-- queued actions, one after the other, and in between the other goroutines act.
use valve_controller.Common.{
  Bool, subst, ◌⊎◌, ◌≤◌, ◌<◌, suc, ◌≡◌, refl, true, false, List, [], ◌∷◌, none, arith, All,
  All-append, Bool-cases, inl, inr, ltb, length,
}
use valve_controller.Device.{ValveInfo, Duration}
use valve_controller.Scheduler.Action.{ActionType, is_terminal}
use valve_controller.Scheduler.World.{Ptr, Op, World, pipeline_ctx, emit, set_action}
use valve_controller.Scheduler.Shared.{
  finish_wait, record_state, alloc, submit, enqueue, send_action, drop_first, queue_size,
  update_config, add_to_history,
}
use valve_controller.Scheduler.Wait.{react, observe}
use valve_controller.Scheduler.Execute.{claim, execute, run_next}
use valve_controller.Scheduler.Keeps.{WaitKeeps, AnyPtr, Any, script-Any}
use valve_controller.Scheduler.Keeps.Waits.{one_phase, watch_ctx-keeps, react-keeps}
use valve_controller.Scheduler.Keeps.Whole.{ExecuteKeeps, execute-keeps, observe-keeps}
use valve_controller.Scheduler.Slot.{IsIdle, Slot, Slot-run, execute-IsIdle}
use valve_controller.Scheduler.Queue.{IsBounded, IsBounded-execute, execute-IsBounded}
use valve_controller.Scheduler.Safety.{execute_ends}
use valve_controller.Scheduler.Valves.{new_pipeline}

-- One step while the main loop is at its select: another goroutine acts, or the loop takes up the
-- oldest queued action and runs it, whatever happens meanwhile.
pub data Step (v : World) : World → Type 0 where
  others_act : (op : Op) → Step v (observe op v)
  runs_next : (script : List (List Op)) → Step v (run_next (record v { script = script })).1

pub data Reaches (v : World) : World → Type 0 where
  at_start : Reaches v v
  then : (w x : World) → Reaches v w → Step w x → Reaches v x

-- Every queued action is an allocated object.
abbrev QueueAllocated : World → Type 0
QueueAllocated w = All (λ p. p < w.next_ptr) w.queue

All-below : (n : Ptr) (q : List Ptr) → All (λ p. p < n) q → All (λ p. p < suc n) q
All-below n [] h = tt
All-below n (p ∷ q) (lt, h) = (omega arith, All-below n q h)

All-drop_first : (n : Ptr) (q : List Ptr) → All (λ p. p < n) q → All (λ p. p < n) (drop_first q)
All-drop_first n [] h = tt
All-drop_first n (p ∷ q) (lt, h) = h

submit-QueueAllocated :
    (type : ActionType) (d : Duration) (w : World)
    → QueueAllocated w
    → QueueAllocated (submit type d w)
unfolding submit enqueue alloc send_action
submit-QueueAllocated type d w h =
    let n = w.next_ptr in
    let older = All-below n w.queue h in
    let new : All (λ p. p < suc n) (n ∷ []) = (omega arith, tt) in
    elim (Bool-cases (ltb (length w.queue) queue_size)) [
      | inl e ↦ rw e (All-append (λ p. p < suc n) w.queue (n ∷ []) older new)
      | inr e ↦ rw e (
          All-append (λ p. p < suc n) (drop_first w.queue) (n ∷ [])
            (All-drop_first (suc n) w.queue older) new)
    ]

record_state-QueueAllocated :
    (power : Bool) (w : World) → QueueAllocated w → QueueAllocated (record_state power w)
unfolding record_state
record_state-QueueAllocated true w h = h
record_state-QueueAllocated false w h = h

QueueAllocated-wait : WaitKeeps Any QueueAllocated
unfolding emit update_config finish_wait
QueueAllocated-wait = record {
  scripted = λ w _. script-Any w.script;
  submits = λ type d w _ h. submit-QueueAllocated type d w h;
  configures = λ info w h. h;
  stops = λ w _ h. h;
  pings = λ b w h. h;
  closes = λ w _ h. record_state-QueueAllocated false w h;
  scripts = λ w h. h;
  emits = λ o w h. h;
  finishes = λ x r w e n h. h;
  clocks = λ t w h. h;
}

QueueAllocated-execute : ExecuteKeeps Any AnyPtr QueueAllocated
unfolding emit update_config alloc set_action claim add_to_history
QueueAllocated-execute = record {
  run_keeps = record {
    run_wait_keeps = QueueAllocated-wait;
    run_phase = one_phase QueueAllocated (λ d x w h. h) QueueAllocated-wait;
    run_marks = λ q w _ h. h;
    acts = λ q f w _ h. h;
    fresh = λ w _. tt;
    records = record_state-QueueAllocated;
    allocs = λ name namespace type d w h. All-below w.next_ptr w.queue h;
    forgets = λ w h. h;
    names = λ id w h. h;
  };
  claims = λ p w h. h;
  frees = λ w h. h;
  remembers = λ p w h. h;
}

-- The action slot is free, queue and history are within their bounds, and what is queued exists.
pub record IsSound (w : World) : Type 0 where
  pub idle : IsIdle w
  pub bounded : IsBounded w
  pub allocated : QueueAllocated w

observe-IsSound : (op : Op) (w : World) → IsSound w → IsSound (observe op w)
unfolding observe
observe-IsSound op w s =
    let waits = (Slot-run w.history none false).run_wait_keeps in
    let (c, b, h) = watch_ctx-keeps (Slot w.history none false) waits (react op w) (
      react-keeps (Slot w.history none false) waits op w tt
        (s.idle.no_current, s.idle.no_cancel, refl)) in
    record {
      idle = record { no_current = c; no_cancel = b };
      bounded = observe-keeps IsBounded IsBounded-execute op w tt s.bounded;
      allocated = observe-keeps QueueAllocated QueueAllocated-execute op w tt s.allocated;
    }

pub submit-IsSound :
    (type : ActionType) (d : Duration) (w : World) → IsSound w → IsSound (submit type d w)
unfolding submit alloc enqueue
submit-IsSound type d w s = record {
  idle = record { no_current = s.idle.no_current; no_cancel = s.idle.no_cancel };
  bounded = IsBounded-execute.run_keeps.run_wait_keeps.submits type d w tt s.bounded;
  allocated = submit-QueueAllocated type d w s.allocated;
}

-- The world in which the oldest action has left the queue.
pub taken :
    (p : Ptr) (rest : List Ptr) (w : World)
    → w.queue ≡ p ∷ rest
    → IsSound w
    → IsSound (record w { queue = rest })
taken p rest w e s =
    let queued = subst (λ q. length q ≤ queue_size) e s.bounded.0 in
    record {
      idle = record { no_current = s.idle.no_current; no_cancel = s.idle.no_cancel };
      bounded = (omega (arith, queued), s.bounded.1);
      allocated = (subst (All (λ q. q < w.next_ptr)) e s.allocated).1;
    }

pub queue-cases : (q : List Ptr) → (q ≡ []) ⊎ ((p : Ptr) × (rest : List Ptr) × (q ≡ p ∷ rest))
queue-cases [] = inl refl
queue-cases (p ∷ rest) = inr (p, rest, refl)

execute-IsSound : (p : Ptr) (w : World) → IsSound w → IsSound (execute pipeline_ctx p w).1
execute-IsSound p w s = record {
  idle = (execute-IsIdle pipeline_ctx p w s.idle).0;
  bounded = execute-IsBounded pipeline_ctx p w s.bounded;
  allocated = execute-keeps QueueAllocated QueueAllocated-execute pipeline_ctx p w tt s.allocated;
}

pub run_next-IsSound : (w : World) → IsSound w → IsSound (run_next w).1
unfolding run_next
run_next-IsSound w s = elim (queue-cases w.queue) [
  | inl e ↦ rw (e, run_next) s
  | inr (p, rest, e) ↦
      rw (e, run_next) (execute-IsSound p (record w { queue = rest }) (taken p rest w e s))
]

Step-IsSound : (w x : World) → Step w x → IsSound w → IsSound x
Step-IsSound w _ (others_act op) s = observe-IsSound op w s
Step-IsSound w _ (runs_next script) s =
    run_next-IsSound (record w { script = script })
      (record {
        idle = record { no_current = s.idle.no_current; no_cancel = s.idle.no_cancel };
        bounded = s.bounded;
        allocated = s.allocated;
      })

pub new_pipeline-IsSound : (info : ValveInfo) (w : World) → IsSound (new_pipeline info w)
unfolding new_pipeline
new_pipeline-IsSound info w = record {
  idle = record { no_current = refl; no_cancel = refl };
  bounded = (omega arith, omega arith);
  allocated = tt;
}

-- Whenever the main loop of a new pipeline is at its select, the action slot is free, at most eight
-- actions wait and at most a hundred are remembered, and what waits are allocated actions.
pub Reaches-IsSound : (info : ValveInfo) (w x : World) → Reaches (new_pipeline info w) x → IsSound x
Reaches-IsSound info w _ at_start = new_pipeline-IsSound info w
Reaches-IsSound info w _ (then y x r s) = Step-IsSound y x s (Reaches-IsSound info w y r)

run_next_taken :
    (x : World) (p : Ptr) (rest : List Ptr)
    → x.queue ≡ p ∷ rest
    → (run_next x).1 ≡ (execute pipeline_ctx p (record x { queue = rest })).1
unfolding run_next
run_next_taken x p rest e = rw (e, run_next) refl

-- Every action that the main loop of a pipeline takes up is in a final state when the loop comes back
-- to its select, whatever happens meanwhile.
pub Reaches-ends :
    (info : ValveInfo) (w x : World) (p : Ptr) (rest : List Ptr)
    → Reaches (new_pipeline info w) x
    → x.queue ≡ p ∷ rest
    → is_terminal ((run_next x).1.heap p) ≡ true
Reaches-ends info w x p rest r e =
    let s = Reaches-IsSound info w x r in
    let lt = (subst (All (λ q. q < x.next_ptr)) e s.allocated).0 in
    rw (run_next_taken x p rest e) (execute_ends pipeline_ctx p (record x { queue = rest }) lt)
