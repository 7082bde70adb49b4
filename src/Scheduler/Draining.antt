-- ===== src/Scheduler/Draining.antt =====
-- internal/scheduler/pipeline.go: the main loop (`run`) works off its queue.
pub mod Steady
pub mod Final
use valve_controller.Scheduler.Keeps.Waits.{one_phase}
use valve_controller.Common.{
  Bool-cases, inl, inr, arith, ◌&&◌, if◌then◌else◌, ℕ, zero, suc, ◌≡◌, refl, Bool, true, false,
  List, [], ◌∷◌, All, length,
}
use valve_controller.Scheduler.World.{Ptr, Op, enqueues, World, pipeline_ctx, emit, set_action}
use valve_controller.Scheduler.Shared.{
  finish_wait, record_state, alloc, update_config, add_to_history,
}
use valve_controller.Scheduler.Wait.{tail_ops}
use valve_controller.Scheduler.Execute.{claim, run_next, run_done}
use valve_controller.Scheduler.Keeps.{WaitKeeps, AnyPtr}
use valve_controller.Scheduler.Keeps.Whole.{ExecuteKeeps, execute-keeps}

-- The operation asks for no action.
abbrev pub IsNoRequest : Op → Type 0
IsNoRequest (enqueues _ _) = ⊥
IsNoRequest _ = Unit

abbrev pub NoRequests : List (List Op) → Type 0
NoRequests = All (All IsNoRequest)

NoRequests-tail : (s : List (List Op)) → NoRequests s → NoRequests (tail_ops s)
NoRequests-tail [] h = tt
NoRequests-tail (ops ∷ s) (a, h) = h

module _ (q : List Ptr) where
  -- No action is asked for from now on, and these wait.
  abbrev Undisturbed : World → Type 0
  Undisturbed w = NoRequests w.script × (w.queue ≡ q)

  record_state-Undisturbed :
      (power : Bool) (w : World) → Undisturbed w → Undisturbed (record_state power w)
  unfolding record_state
  record_state-Undisturbed true w h = h
  record_state-Undisturbed false w h = h

  Undisturbed-wait : WaitKeeps IsNoRequest Undisturbed
  unfolding emit update_config finish_wait
  Undisturbed-wait = record {
    scripted = λ w h. h.0;
    submits = λ type d w a h. absurd a;
    configures = λ info w h. h;
    stops = λ w _ h. h;
    pings = λ b w h. h;
    closes = λ w _ h. record_state-Undisturbed false w h;
    scripts = λ w (a, h). (NoRequests-tail w.script a, h);
    emits = λ o w h. h;
    finishes = λ x r w e n h. h;
    clocks = λ t w h. h;
  }

  Undisturbed-execute : ExecuteKeeps IsNoRequest AnyPtr Undisturbed
  unfolding emit update_config alloc set_action claim add_to_history
  Undisturbed-execute = record {
    run_keeps = record {
      run_wait_keeps = Undisturbed-wait;
      run_phase = one_phase Undisturbed (λ d x w h. h) Undisturbed-wait;
      run_marks = λ q w _ h. h;
      acts = λ p f w _ h. h;
      fresh = λ w _. tt;
      records = record_state-Undisturbed;
      allocs = λ name namespace type d w h. h;
      forgets = λ w h. h;
      names = λ id w h. h;
    };
    claims = λ p w h. h;
    frees = λ w h. h;
    remembers = λ p w h. h;
  }

-- Where `run` is: at its select, or it has returned.
pub data Loop : Type 0 where
  at_select returned : World → Loop

-- The select of `run`. Without an action in the channel the loop waits for its context, and where both
-- cases are ready it takes either: `takes_done` says which.
unfoldable pub select_next : (takes_done : Bool) → World → Loop
select_next takes_done w = elim w.queue [
  | [] ↦ if w.stopped then returned (run_done w).1 else at_select w
  | _ ∷ _ ↦ if w.stopped && takes_done then returned (run_done w).1 else at_select (run_next w).1
]

abbrev pub go_on : Loop → (World → Loop) → Loop
go_on (at_select w) f = f w
go_on (returned w) f = returned w

-- The `for` of `run`, for so many rounds, with the choices of its select.
unfoldable pub rounds : (takes_done : ℕ → Bool) → ℕ → World → Loop
rounds takes_done zero w = at_select w
rounds takes_done (suc n) w = go_on (select_next (takes_done n) w) (λ v. rounds takes_done n v)

pub run_next-queue :
    (p : Ptr) (q : List Ptr) (w : World)
    → w.queue ≡ p ∷ q
    → NoRequests w.script
    → NoRequests (run_next w).1.script × ((run_next w).1.queue ≡ q)
unfolding run_next
run_next-queue p q w e h =
    rw (run_next, e)
      (execute-keeps (Undisturbed q) (Undisturbed-execute q) pipeline_ctx p (record w { queue = q })
        tt (h, refl))

-- Nothing waits, or the loop has returned, which it does where the pipeline was stopped.
abbrev pub IsWorkedOff : Loop → Type 0
IsWorkedOff (at_select v) = v.queue ≡ []
IsWorkedOff (returned v) = (u : World) × (u.stopped ≡ true) × (v ≡ (run_done u).1)

if_both :
    (P : Loop → Type 0) (a b : Bool) (x y : Loop)
    → (a ≡ true → P x)
    → P y
    → P (if a && b then x else y)
if_both P true true x y h k = h refl
if_both P true false x y h k = k
if_both P false b x y h k = k

-- What a round comes to while an action waits.
pub select_next-cases :
    (P : Loop → Type 0) (b : Bool) (p : Ptr) (q : List Ptr) (w : World)
    → w.queue ≡ p ∷ q
    → (w.stopped ≡ true → P (returned (run_done w).1))
    → P (at_select (run_next w).1)
    → P (select_next b w)
unfolding select_next
select_next-cases P b p q w e h k =
    rw (select_next, e) (if_both P w.stopped b (returned (run_done w).1) _ h k)

rounds-queue :
    (takes_done : ℕ → Bool) (q : List Ptr) (w : World)
    → w.queue ≡ q
    → NoRequests w.script
    → IsWorkedOff (rounds takes_done (length q) w)
unfolding rounds
rounds-queue c [] w e h = e
rounds-queue c (p ∷ q) w e h =
    let (h', e') = run_next-queue p q w e h in
    select_next-cases (λ l. IsWorkedOff (go_on l (λ v. rounds c (length q) v))) (c (length q)) p q w
      e (λ s. (w, s, refl)) (rounds-queue c q (run_next w).1 e' h')

-- Where no further action is asked for, the main loop has worked off its queue after as many rounds as
-- actions waited, or it has returned, which it does only where the pipeline was stopped. This holds
-- whatever else happens while the actions run, and whichever case the select takes where both are
-- ready.
pub rounds-IsWorkedOff :
    (takes_done : ℕ → Bool) (w : World)
    → NoRequests w.script
    → IsWorkedOff (rounds takes_done (length w.queue) w)
rounds-IsWorkedOff c w h = rounds-queue c w.queue w refl h
