-- ===== src/Scheduler/Draining/Steady.antt =====
-- internal/scheduler/pipeline.go: the main loop of a pipeline that nobody stops.
use valve_controller.Common.{
  ℕ, zero, suc, ◌≡◌, refl, ap, ◌∙◌, Bool, true, false, List, [], ◌∷◌, All, length,
}
use valve_controller.Scheduler.World.{Ptr, Op, stops, World, pipeline_ctx, emit, set_action}
use valve_controller.Scheduler.Shared.{
  finish_wait, record_state, alloc, update_config, submit, enqueue, add_to_history,
}
use valve_controller.Scheduler.Wait.{tail_ops}
use valve_controller.Scheduler.Execute.{claim, run_next}
use valve_controller.Scheduler.Keeps.{WaitKeeps, AnyPtr}
use valve_controller.Scheduler.Keeps.Waits.{one_phase}
use valve_controller.Scheduler.Keeps.Whole.{ExecuteKeeps, execute-keeps}
use valve_controller.Scheduler.Draining.{
  at_select, select_next, go_on, rounds, NoRequests, select_next-cases, run_next-queue,
}

-- The operation does not stop the pipeline.
abbrev pub IsNoStop : Op → Type 0
IsNoStop stops = ⊥
IsNoStop _ = Unit

abbrev pub NoStops : List (List Op) → Type 0
NoStops = All (All IsNoStop)

-- The pipeline is not stopped, and will not be.
abbrev pub Steady : World → Type 0
Steady w = NoStops w.script × (w.stopped ≡ false)

NoStops-tail : (s : List (List Op)) → NoStops s → NoStops (tail_ops s)
NoStops-tail [] h = tt
NoStops-tail (ops ∷ s) (a, h) = h

record_state-Steady : (power : Bool) (w : World) → Steady w → Steady (record_state power w)
unfolding record_state
record_state-Steady true w h = h
record_state-Steady false w h = h

Steady-wait : WaitKeeps IsNoStop Steady
unfolding emit update_config finish_wait submit alloc enqueue
Steady-wait = record {
  scripted = λ w h. h.0;
  submits = λ type d w a h. h;
  configures = λ info w h. h;
  stops = λ w a h. absurd a;
  pings = λ b w h. h;
  closes = λ w _ h. record_state-Steady false w h;
  scripts = λ w (a, h). (NoStops-tail w.script a, h);
  emits = λ o w h. h;
  finishes = λ x r w e n h. h;
  clocks = λ t w h. h;
}

Steady-execute : ExecuteKeeps IsNoStop AnyPtr Steady
unfolding alloc set_action claim add_to_history
Steady-execute = record {
  run_keeps = record {
    run_wait_keeps = Steady-wait;
    run_phase = one_phase Steady (λ d x w h. h) Steady-wait;
    run_marks = λ q w _ h. h;
    acts = λ p f w _ h. h;
    fresh = λ w _. tt;
    records = record_state-Steady;
    allocs = λ name namespace type d w h. h;
    forgets = λ w h. h;
    names = λ id w h. h;
  };
  claims = λ p w h. h;
  frees = λ w h. h;
  remembers = λ p w h. h;
}

run_next-Steady :
    (p : Ptr) (q : List Ptr) (w : World) → w.queue ≡ p ∷ q → Steady w → Steady (run_next w).1
unfolding run_next
run_next-Steady p q w e h =
    rw (run_next, e)
      (execute-keeps Steady Steady-execute pipeline_ctx p (record w { queue = q }) tt h)

-- The next actions, one after the other.
unfoldable pub worked : ℕ → World → World
worked zero w = w
worked (suc n) w = worked n (run_next w).1

select_next-Steady :
    (b : Bool) (p : Ptr) (q : List Ptr) (w : World)
    → w.queue ≡ p ∷ q
    → w.stopped ≡ false
    → select_next b w ≡ at_select (run_next w).1
select_next-Steady b p q w e s =
    select_next-cases (λ l. l ≡ at_select (run_next w).1) b p q w e (λ t. cc) refl

-- The loop takes up every action that waits, whichever choices it has.
pub rounds-worked :
    (takes_done : ℕ → Bool) (q : List Ptr) (w : World)
    → w.queue ≡ q
    → NoRequests w.script
    → Steady w
    → rounds takes_done (length q) w ≡ at_select (worked (length q) w)
unfolding rounds worked
rounds-worked c [] w e h s = refl
rounds-worked c (p ∷ q) w e h s =
    let (h', e') = run_next-queue p q w e h in
    ap (λ l. go_on l (λ v. rounds c (length q) v)) (select_next-Steady (c (length q)) p q w e s.1)
    ∙ rounds-worked c q (run_next w).1 e' h' (run_next-Steady p q w e s)
