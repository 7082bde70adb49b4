-- ===== src/Scheduler/Draining/Final.antt =====
-- internal/scheduler/pipeline.go: what becomes of the actions that wait.
use valve_controller.Common.{
  ℕ, ◌<◌, ◌≡◌, ◌≢◌, refl, sym, subst, ◌⊎◌, inl, inr, Bool, true, false, List, [], ◌∷◌, All, In,
  length, arith, Bool-cases, ◌==◌, ==_iff, ==_false,
}
use valve_controller.Scheduler.Action.{waiting_confirmation, Action, is_terminal}
use valve_controller.Scheduler.World.{Ptr, World, pipeline_ctx, set_action}
use valve_controller.Scheduler.Shared.{record_state, add_to_history}
use valve_controller.Scheduler.Execute.{claim, execute, run_next}
use valve_controller.Scheduler.Keeps.{Any, AnyPtr}
use valve_controller.Scheduler.Keeps.Tasks.{Holds-phase, write_ne, Holds, Holds-wait}
use valve_controller.Scheduler.Keeps.Whole.{ExecuteKeeps, execute-keeps}
use valve_controller.Scheduler.Ending.Parts.{alloc-Holds}
use valve_controller.Scheduler.Safety.{execute_ends}
use valve_controller.Scheduler.Reachable.{IsSound, run_next-IsSound}
use valve_controller.Scheduler.Draining.{NoRequests, Loop, at_select, rounds, run_next-queue}
use valve_controller.Scheduler.Draining.Steady.{Steady, worked, rounds-worked}

module _ (R : Action → Type 0) (B : Ptr → Type 0) (p : Ptr)
    (acts : (q : Ptr) (f : Action → Action) (w : World)
      → B q
      → Holds R p w
      → Holds R p (set_action q f w))
    (fresh : (w : World) → Holds R p w → B w.next_ptr) where
  record_state-Holds : (power : Bool) (w : World) → Holds R p w → Holds R p (record_state power w)
  unfolding record_state
  record_state-Holds true w h = h
  record_state-Holds false w h = h

  -- Where the object at `p` is safe from what is done to it, `execute` leaves it as it is.
  Holds-execute : ExecuteKeeps Any B (Holds R p)
  unfolding claim add_to_history
  Holds-execute = record {
    run_keeps = record {
      run_wait_keeps = Holds-wait R p;
      run_phase = Holds-phase R p;
      run_marks = λ q w b h. acts q (λ a. record a { state = waiting_confirmation }) w b h;
      acts = acts;
      fresh = fresh;
      records = record_state-Holds;
      allocs = alloc-Holds R p;
      forgets = λ w h. h;
      names = λ id w h. h;
    };
    claims = λ q w h. h;
    frees = λ w h. h;
    remembers = λ q w h. h;
  }

-- The object at `p` is allocated; it is also in a final state.
abbrev Allocated : Ptr → World → Type 0
Allocated p = Holds (λ _. Unit {0}) p

abbrev IsFinal : Action → Type 0
IsFinal a = is_terminal a ≡ true

set_action-Allocated :
    (p q : Ptr) (f : Action → Action) (w : World)
    → AnyPtr q
    → Allocated p w
    → Allocated p (set_action q f w)
unfolding set_action
set_action-Allocated p q f w b h = h

execute-Allocated :
    (p q : Ptr) (w : World) → Allocated p w → Allocated p (execute pipeline_ctx q w).1
execute-Allocated p q w h =
    execute-keeps (Allocated p)
      (Holds-execute (λ _. Unit {0}) AnyPtr p (set_action-Allocated p) (λ w h. tt)) pipeline_ctx q w
      tt h

set_action-IsFinal :
    (p q : Ptr) (f : Action → Action) (w : World)
    → q ≢ p
    → Holds IsFinal p w
    → Holds IsFinal p (set_action q f w)
unfolding set_action
set_action-IsFinal p q f w n (r, lt) = (rw (write_ne w.heap q p _ n) r, lt)

execute-IsFinal :
    (p q : Ptr) (w : World)
    → q ≢ p
    → Holds IsFinal p w
    → Holds IsFinal p (execute pipeline_ctx q w).1
execute-IsFinal p q w n h =
    execute-keeps (Holds IsFinal p)
      (Holds-execute IsFinal (λ q. q ≢ p) p (set_action-IsFinal p) (λ w h e. omega (arith, h.1, e)))
      pipeline_ctx q w n h

-- The action that is taken up ends, and one that has ended stays so.
execute_settles :
    (p q : Ptr) (w : World)
    → q < w.next_ptr
    → Holds IsFinal p w ⊎ (p ≡ q)
    → Holds IsFinal p (execute pipeline_ctx q w).1
execute_settles p q w lt h = elim (Bool-cases (q == p)) [
  | inl e ↦
      let same = (==_iff q p).0 e in
      (
        subst (λ x. is_terminal ((execute pipeline_ctx q w).1.heap x) ≡ true) same
            (execute_ends pipeline_ctx q w lt),
        (execute-Allocated p q w (tt, subst (λ x. x < w.next_ptr) same lt)).1,
      )
  | inr e ↦
      let differ = ==_false q p e in
      elim h [
        | inl final ↦ execute-IsFinal p q w differ final
        | inr same ↦ absurd (differ (sym same))
      ]
]

run_next_settles :
    (p q : Ptr) (rest : List Ptr) (w : World)
    → w.queue ≡ q ∷ rest
    → IsSound w
    → Holds IsFinal p w ⊎ (p ≡ q)
    → Holds IsFinal p (run_next w).1
unfolding run_next
run_next_settles p q rest w e s h =
    rw (run_next, e)
      (execute_settles p q (record w { queue = rest })
        (subst (All (λ x. x < w.next_ptr)) e s.allocated).0 h)

worked-IsFinal :
    (p : Ptr) (q : List Ptr) (w : World)
    → w.queue ≡ q
    → NoRequests w.script
    → IsSound w
    → Holds IsFinal p w ⊎ In p q
    → is_terminal ((worked (length q) w).heap p) ≡ true
unfolding worked
worked-IsFinal p [] w e quiet s (inl final) = final.0
worked-IsFinal p [] w e quiet s (inr i) = absurd i
worked-IsFinal p (q ∷ rest) w e quiet s h =
    let (quiet', e') = run_next-queue q rest w e quiet in
    worked-IsFinal p rest (run_next w).1 e' quiet' (run_next-IsSound w s) (next h)
  where
    next : Holds IsFinal p w ⊎ In p (q ∷ rest) → Holds IsFinal p (run_next w).1 ⊎ In p rest
    next (inl final) = inl (run_next_settles p q rest w e s (inl final))
    next (inr (inl same)) = inl (run_next_settles p q rest w e s (inr same))
    next (inr (inr i)) = inr i

-- The loop is at its select, and the action at `p` is in a final state.
abbrev pub HasEnded : Ptr → Loop → Type 0
HasEnded p l = (v : World) × (l ≡ at_select v) × (is_terminal (v.heap p) ≡ true)

-- Where no further action is asked for and the pipeline is not stopped, every action that waits in a
-- sound pipeline is in a final state after as many rounds of the main loop as actions wait, whatever
-- else happens meanwhile and whether or not the devices answer.
pub rounds-HasEnded :
    (takes_done : ℕ → Bool) (w : World) (p : Ptr)
    → IsSound w
    → NoRequests w.script
    → Steady w
    → In p w.queue
    → HasEnded p (rounds takes_done (length w.queue) w)
rounds-HasEnded c w p s quiet steady i = (
  worked (length w.queue) w,
  rounds-worked c w.queue w refl quiet steady,
  worked-IsFinal p w.queue w refl quiet s (inr i),
)
