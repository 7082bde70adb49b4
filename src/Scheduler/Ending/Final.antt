-- ===== src/Scheduler/Ending/Final.antt =====
-- internal/scheduler/pipeline.go: `execute` from its start to its end. Internal lemmas.
use valve_controller.Common.{
  Bool, ◌<◌, pos, ltb_ℤ, ◌≡◌, refl, sym, ◌∙◌, ap, true, false, arith, Bool-cases, inl, inr,
  if◌then◌else◌,
}
use valve_controller.Device.{Duration, ValveState, ValveConfig}
use valve_controller.Scheduler.Action.{
  ActionType, close, open_valve, open_timed, is_open_valve, fulfilled, cancelled, is_terminal,
}
use valve_controller.Scheduler.World.{Ptr, Ctx, action_ctx, World, set_action}
use valve_controller.Scheduler.Shared.{add_to_history}
use valve_controller.Scheduler.Wait.{pause_step}
use valve_controller.Scheduler.Execute.{
  as_cancelled, as_timed, upgrade, run_action, claim, refused, execute,
}
use valve_controller.Scheduler.Keeps.Waits.{if_either, pause_step-keeps}
use valve_controller.Scheduler.Keeps.Tasks.{Holds, Holds-wait}
use valve_controller.Scheduler.Ending.Parts.{set_action-Holds}
use valve_controller.Scheduler.Ending.{Confirms, IsTyped, Typed, At, Ended}
use valve_controller.Scheduler.Ending.Actions.{run_action-Ended, final_of_Ended, release-Ended}

upgrade-allocated :
    (p : Ptr) (d : Duration) (w : World) → p < w.next_ptr → p < (upgrade p d w).next_ptr
unfolding upgrade set_action
upgrade-allocated p d w lt = ground arith

abbrev Allocated : Ptr → World → Type 0
Allocated p = Holds (λ _. Unit {0}) p

-- The world when `execute` decides whether to refuse the action.
abbrev pub checked : Ptr → World → World
checked p w = pause_step (upgrade p w.info.config.max_open_duration w)

checked-Allocated : (p : Ptr) (w : World) → p < w.next_ptr → p < (checked p w).next_ptr
checked-Allocated p w lt =
    let u = upgrade p w.info.config.max_open_duration w in
    (pause_step-keeps (Allocated p) (Holds-wait (λ _. Unit {0}) p) u
      (tt, upgrade-allocated p w.info.config.max_open_duration w lt)).1

-- The upgrade makes a timed open of an open, and leaves the other types.
abbrev pub bounded : ActionType → ActionType
bounded open_valve = open_timed
bounded t = t

pub upgrade-type :
    (p : Ptr) (d : Duration) (w : World)
    → ((upgrade p d w).heap p).type
      ≡ (if ltb_ℤ (pos 0) d then bounded (w.heap p).type else (w.heap p).type)
unfolding upgrade set_action
upgrade-type p d w = ground arith

pub upgrade-Typed :
    (t : ActionType) (p : Ptr) (w : World)
    → p < w.next_ptr
    → ((upgrade p w.info.config.max_open_duration w).heap p).type ≡ t
    → Typed t p (checked p w)
upgrade-Typed t p w lt e =
    pause_step-keeps (Typed t p) (Holds-wait (IsTyped t p) p)
      (upgrade p w.info.config.max_open_duration w)
      (e, upgrade-allocated p w.info.config.max_open_duration w lt)

bounded_close : (b : Bool) → (if b then bounded close else close) ≡ close
bounded_close b = ground arith

pub checked-Typed :
    (p : Ptr) (w : World) → p < w.next_ptr → (w.heap p).type ≡ close → Typed close p (checked p w)
checked-Typed p w lt e =
    let limit = w.info.config.max_open_duration in
    upgrade-Typed close p w lt (
      upgrade-type p limit w
      ∙ ap (λ t. if ltb_ℤ (pos 0) limit then bounded t else t) e
      ∙ bounded_close (ltb_ℤ (pos 0) limit))

module _ (S : World → Type 0) (C : ValveState → Type 0) (given : Confirms S C) where
  upgrade-keeps : (p : Ptr) (d : Duration) (w : World) → S w → S (upgrade p d w)
  unfolding upgrade
  upgrade-keeps p d w m = if_either S _ _ w (given.acts p (as_timed d) w tt m) m

  claimed :
      (t : ActionType) (ctx : Ctx) (p : Ptr) (cfg : ValveConfig) (v : World)
      → S (claim p v)
      → Typed t p v
      → Ended S C given t p (run_action (action_ctx ctx) p cfg (claim p v)).1
  unfolding claim
  claimed t ctx p cfg v m h = run_action-Ended S C given t p (action_ctx ctx) cfg (claim p v) m h

  -- The type is settled by the upgrade at the start.
  pub execute-Ended_of :
      (t : ActionType) (ctx : Ctx) (p : Ptr) (w : World)
      → S w
      → Typed t p (checked p w)
      → Ended S C given t p (execute ctx p w).1
  unfolding execute add_to_history
  execute-Ended_of t ctx p w m (r, lt) =
      let cfg = w.info.config in
      let v = checked p w in
      let kept =
        pause_step-keeps S given.run_keeps.run_wait_keeps _
          (upgrade-keeps p cfg.max_open_duration w m) in
      elim (Bool-cases (refused p cfg v)) [
        | inl e ↦
            rw e (inr (inr (set_action-Holds (At t p cancelled) p as_cancelled v lt (r, refl))))
        | inr e ↦
            let x = (run_action (action_ctx ctx) p cfg (claim p v)).1 in
            rw e (
              release-Ended S C given t p x (claimed t ctx p cfg v (given.claims p v kept) (r, lt)))
      ]

  -- What `execute` ends in.
  pub execute-final :
      (ctx : Ctx) (p : Ptr) (w : World)
      → S w
      → p < w.next_ptr
      → let v = (execute ctx p w).1 in
        (is_terminal (v.heap p) ≡ true)
        × ((v.heap p).type ≡ (
            if ltb_ℤ (pos 0) w.info.config.max_open_duration
            then bounded (w.heap p).type
            else (w.heap p).type))
        × (is_open_valve (v.heap p).type ≡ false → (v.heap p).state ≡ fulfilled → C v.info.state)
  execute-final ctx p w m lt =
      let limit = w.info.config.max_open_duration in
      let t = if ltb_ℤ (pos 0) limit then bounded (w.heap p).type else (w.heap p).type in
      let ended = execute-Ended_of t ctx p w m (upgrade-Typed t p w lt (upgrade-type p limit w)) in
      let (terminal, r, c) = final_of_Ended S C given t p (execute ctx p w).1 ended in
      (terminal, r, λ o. c (ap is_open_valve (sym r) ∙ o))
