-- ===== src/Scheduler/Queue.antt =====
-- internal/scheduler/pipeline.go: the queue `actionCh` and the history, and their bounds.
use valve_controller.Scheduler.Keeps.Waits.{one_phase}
use valve_controller.Common.{
  ◌≤◌, ◌≡◌, refl, ◌⊎◌, inl, inr, Bool, true, false, List, [], ◌∷◌, ◌++◌, arith, ltb, length,
  length-append, length-take, Bool-cases,
}
use valve_controller.Device.{Duration}
use valve_controller.Scheduler.Action.{ActionType}
use valve_controller.Scheduler.World.{Ptr, Ctx, World, emit, set_action}
use valve_controller.Scheduler.Shared.{
  finish_wait, record_state, alloc, submit, enqueue, send_action, update_config, add_to_history,
  max_history_size, queue_size,
}
use valve_controller.Scheduler.Execute.{claim, execute}
use valve_controller.Scheduler.Keeps.{WaitKeeps, AnyPtr, Any, script-Any, RunKeeps}
use valve_controller.Scheduler.Keeps.Whole.{ExecuteKeeps, execute-keeps}

send_action-length :
    (p : Ptr) (q : List Ptr) → length q ≤ queue_size → length (send_action p q) ≤ queue_size
unfolding send_action
send_action-length p [] h = omega arith
send_action-length p (o ∷ q) h =
    ground (arith, length-append (o ∷ q) (p ∷ []), length-append q (p ∷ []))

send_action_loses :
    (p : Ptr) (q : List Ptr)
    → (send_action p q ≡ q ++ p ∷ [])
      ⊎ ((queue_size ≤ length q) × ((o : Ptr) × (o ∷ send_action p q ≡ q ++ p ∷ [])))
unfolding send_action
send_action_loses p [] = inl refl
send_action_loses p (o ∷ q) = elim (Bool-cases (ltb (length (o ∷ q)) queue_size)) [
  | inl e ↦ inl (ground arith)
  | inr e ↦ inr (ground arith, (o, ground arith))
]

-- `Enqueue` keeps all entries in their order and puts the new one last. Only where the queue holds
-- eight entries already, the oldest of them is lost.
pub enqueue_loses_oldest :
    (p : Ptr) (w : World)
    → ((enqueue p w).queue ≡ w.queue ++ p ∷ [])
      ⊎ ((queue_size ≤ length w.queue)
          × ((o : Ptr) × (o ∷ (enqueue p w).queue ≡ w.queue ++ p ∷ [])))
unfolding enqueue
enqueue_loses_oldest p w = send_action_loses p w.queue

-- At most eight actions wait, and at most a hundred are remembered.
abbrev pub IsBounded : World → Type 0
IsBounded w = (length w.queue ≤ queue_size) × (length w.history ≤ max_history_size)

record_state-IsBounded : (power : Bool) (w : World) → IsBounded w → IsBounded (record_state power w)
unfolding record_state
record_state-IsBounded true w h = h
record_state-IsBounded false w h = h

submit-IsBounded :
    (type : ActionType) (d : Duration) (w : World) → IsBounded w → IsBounded (submit type d w)
unfolding submit enqueue alloc
submit-IsBounded type d w (q, h) = (send_action-length w.next_ptr w.queue q, h)

IsBounded-wait : WaitKeeps Any IsBounded
unfolding emit update_config finish_wait
IsBounded-wait = record {
  scripted = λ w _. script-Any w.script;
  submits = λ type d w _ h. submit-IsBounded type d w h;
  configures = λ info w h. h;
  stops = λ w _ h. h;
  pings = λ b w h. h;
  closes = λ w _ h. record_state-IsBounded false w h;
  scripts = λ w h. h;
  emits = λ o w h. h;
  finishes = λ x r w e n h. h;
  clocks = λ t w h. h;
}

IsBounded-run : RunKeeps Any AnyPtr IsBounded
unfolding emit update_config alloc set_action
IsBounded-run = record {
  run_wait_keeps = IsBounded-wait;
  run_phase = one_phase IsBounded (λ d x w h. h) IsBounded-wait;
  run_marks = λ q w _ h. h;
  acts = λ q f w _ h. h;
  fresh = λ w _. tt;
  records = record_state-IsBounded;
  allocs = λ name namespace type d w h. h;
  forgets = λ w h. h;
  names = λ id w h. h;
}

add_to_history-IsBounded : (p : Ptr) (w : World) → IsBounded w → IsBounded (add_to_history p w)
unfolding add_to_history
add_to_history-IsBounded p w (q, h) =
    (q, omega (arith, length-take max_history_size (p ∷ w.history)))

pub IsBounded-execute : ExecuteKeeps Any AnyPtr IsBounded
unfolding claim
IsBounded-execute = record {
  run_keeps = IsBounded-run;
  claims = λ p w h. h;
  frees = λ w h. h;
  remembers = add_to_history-IsBounded;
}

-- `execute` keeps the bounds, however many requests come in meanwhile: at most eight actions wait in
-- the queue, and at most a hundred are remembered.
pub execute-IsBounded :
    (ctx : Ctx) (p : Ptr) (w : World) → IsBounded w → IsBounded (execute ctx p w).1
execute-IsBounded ctx p w h = execute-keeps IsBounded IsBounded-execute ctx p w tt h
