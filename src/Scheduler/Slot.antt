-- ===== src/Scheduler/Slot.antt =====
-- internal/scheduler/pipeline.go: the action slot (`current`, `cancelFn`) and the history around
-- `execute`.
use valve_controller.Common.{
  ◌≡◌, refl, Bool, true, false, List, ◌∷◌, Option, none, some, arith, if◌then◌else◌, Bool-cases,
  inl, inr, take,
}
use valve_controller.Device.{Duration, ValveConfig}
use valve_controller.Scheduler.Action.{is_internal_safety_ping}
use valve_controller.Scheduler.World.{Ptr, Ctx, action_ctx, World, emit, set_action}
use valve_controller.Scheduler.Shared.{
  finish_wait, record_state, alloc, submit, enqueue, update_config, add_to_history,
  max_history_size,
}
use valve_controller.Scheduler.Wait.{pause_step}
use valve_controller.Scheduler.Execute.{
  as_cancelled, upgrade, run_action, claim, release, refused, execute,
}
use valve_controller.Scheduler.Keeps.{WaitKeeps, AnyPtr, Any, script-Any, RunKeeps}
use valve_controller.Scheduler.Keeps.Waits.{one_phase, if_either, pause_step-keeps}
use valve_controller.Scheduler.Keeps.Runs.{run_action-keeps}

-- The slot is free.
pub record IsIdle (w : World) : Type 0 where
  pub no_current : w.current ≡ none
  pub no_cancel : w.cancel_fn ≡ false

module _ (h : List Ptr) where
  abbrev pub Slot : Option Ptr → Bool → World → Type 0
  Slot c b w = (w.current ≡ c) × (w.cancel_fn ≡ b) × (w.history ≡ h)

  record_state-Slot :
      (c : Option Ptr) (b power : Bool) (w : World) → Slot c b w → Slot c b (record_state power w)
  unfolding record_state
  record_state-Slot c b true w k = k
  record_state-Slot c b false w k = k

  Slot-wait : (c : Option Ptr) (b : Bool) → WaitKeeps Any (Slot c b)
  unfolding emit update_config submit alloc enqueue finish_wait
  Slot-wait c b = record {
    scripted = λ w _. script-Any w.script;
    submits = λ type d w _ k. k;
    configures = λ info w k. k;
    stops = λ w _ k. k;
    pings = λ b w k. k;
    closes = λ w _ k. record_state-Slot c b false w k;
    scripts = λ w k. k;
    emits = λ o w k. k;
    finishes = λ x r w e n k. k;
    clocks = λ t w k. k;
  }

  pub Slot-run : (c : Option Ptr) (b : Bool) → RunKeeps Any AnyPtr (Slot c b)
  unfolding emit update_config submit alloc enqueue set_action
  Slot-run c b = record {
    run_wait_keeps = Slot-wait c b;
    run_phase = one_phase (Slot c b) (λ d x w k. k) (Slot-wait c b);
    run_marks = λ q w _ k. k;
    acts = λ q f w _ k. k;
    fresh = λ w _. tt;
    records = record_state-Slot c b;
    allocs = λ name namespace type d w k. k;
    forgets = λ w k. k;
    names = λ id w k. k;
  }

  upgrade-Slot :
      (c : Option Ptr) (b : Bool) (p : Ptr) (d : Duration) (w : World)
      → Slot c b w
      → Slot c b (upgrade p d w)
  unfolding upgrade set_action
  upgrade-Slot c b p d w k = if_either (Slot c b) _ _ w k k

-- The history after an action: the action is its newest entry, and at most a hundred are kept; a
-- safety ping leaves no trace.
abbrev pub remembered : Bool → Ptr → List Ptr → List Ptr
remembered ping p h = if ping then h else take max_history_size (p ∷ h)

refused-Slot :
    (p : Ptr) (cfg : ValveConfig) (w : World) (h : List Ptr)
    → refused p cfg w ≡ true
    → Slot h none false w
    → let v = add_to_history p (set_action p as_cancelled w) in
      IsIdle v × (v.history ≡ remembered (is_internal_safety_ping (v.heap p)) p h)
unfolding add_to_history set_action is_internal_safety_ping
refused-Slot p cfg w h e (c, b, k) = (record { no_current = c; no_cancel = b }, ground arith)

release-Slot :
    (p : Ptr) (w : World) (h : List Ptr)
    → w.history ≡ h
    → let v = release p w in
      IsIdle v × (v.history ≡ remembered (is_internal_safety_ping (v.heap p)) p h)
unfolding release add_to_history
release-Slot p w h e = elim (Bool-cases (is_internal_safety_ping (w.heap p))) [
  | inl ping ↦ rw ping (rw ping (record { no_current = refl; no_cancel = refl }, e))
  | inr other ↦ rw other (rw other (record { no_current = refl; no_cancel = refl }, rw e))
]

-- `execute` frees the slot that it claimed, on every path, whatever happens meanwhile. The action
-- becomes the newest entry of the history, of which the newest hundred are kept; a safety ping
-- leaves the history as it was.
pub execute-IsIdle :
    (ctx : Ctx) (p : Ptr) (w : World)
    → IsIdle w
    → let v = (execute ctx p w).1 in
      IsIdle v × (v.history ≡ remembered (is_internal_safety_ping (v.heap p)) p w.history)
unfolding execute claim
execute-IsIdle ctx p w idle =
    let h = w.history in
    let cfg = w.info.config in
    let u = upgrade p cfg.max_open_duration w in
    let v = pause_step u in
    let start = pause_step-keeps (Slot h none false) (Slot-run h none false).run_wait_keeps u (
      upgrade-Slot h none false p cfg.max_open_duration w
        (idle.no_current, idle.no_cancel, refl)) in
    elim (Bool-cases (refused p cfg v)) [
      | inl e ↦ rw e (refused-Slot p cfg v h e start)
      | inr e ↦
          let claimed : Slot h (some p) true (claim p v) = (refl, refl, start.2) in
          let x = (run_action (action_ctx ctx) p cfg (claim p v)).1 in
          let ran =
            run_action-keeps (Slot h (some p) true) (Slot-run h (some p) true) (action_ctx ctx) p
              cfg (claim p v) tt claimed in
          rw e (release-Slot p x h ran.2)
    ]
