-- ===== src/Scheduler/Keeps/Whole.antt =====
-- `execute` keeps what its primitive steps keep.
use valve_controller.Common.{true, false, none, Bool-cases, inl, inr}
use valve_controller.Device.{Duration}
use valve_controller.Scheduler.Action.{is_internal_safety_ping}
use valve_controller.Scheduler.World.{Ptr, Ctx, action_ctx, Op, World, set_action}
use valve_controller.Scheduler.Shared.{add_to_history}
use valve_controller.Scheduler.Wait.{react, observe, pause_step}
use valve_controller.Scheduler.Execute.{
  as_cancelled, as_timed, upgrade, claim, release, refused, execute,
}
use valve_controller.Scheduler.Keeps.{RunKeeps}
use valve_controller.Scheduler.Keeps.Waits.{
  if_either, watch_ctx-keeps, react-keeps, pause_step-keeps,
}
use valve_controller.Scheduler.Keeps.Runs.{run_action-keeps}

-- So does all of `execute`.
pub record ExecuteKeeps (A : Op → Type 0) (B : Ptr → Type 0) (P : World → Type 0) : Type 1 where
  pub run_keeps : RunKeeps A B P
  pub open run_keeps use *
  pub claims : (p : Ptr) (w : World) → P w → P (claim p w)
  pub frees :
      (w : World)
      → P w
      → P (record w { cancel_fn = false; action_cancelled = true; current = none })
  pub remembers : (p : Ptr) (w : World) → P w → P (add_to_history p w)

module _ {A : Op → Type 0} {B : Ptr → Type 0} (P : World → Type 0)
    (keeps : ExecuteKeeps A B P) where
  upgrade-keeps : (p : Ptr) (d : Duration) (w : World) → B p → P w → P (upgrade p d w)
  unfolding upgrade
  upgrade-keeps p d w b h = if_either P _ _ w (keeps.acts p (as_timed d) w b h) h

  pub release-keeps : (p : Ptr) (w : World) → P w → P (release p w)
  unfolding release
  release-keeps p w h =
      let freed = keeps.frees w h in
      if_either P (is_internal_safety_ping (w.heap p)) _ _ freed (keeps.remembers p _ freed)

  pub execute-keeps : (ctx : Ctx) (p : Ptr) (w : World) → B p → P w → P (execute ctx p w).1
  unfolding execute
  execute-keeps ctx p w b h =
      let cfg = w.info.config in
      let v = pause_step (upgrade p cfg.max_open_duration w) in
      let k =
        pause_step-keeps P keeps.run_keeps.run_wait_keeps _
          (upgrade-keeps p cfg.max_open_duration w b h) in
      elim (Bool-cases (refused p cfg v)) [
        | inl e ↦
            rw e (keeps.remembers p (set_action p as_cancelled v) (keeps.acts p as_cancelled v b k))
        | inr e ↦ rw e (
            release-keeps p _ (
              run_action-keeps P keeps.run_keeps (action_ctx ctx) p cfg (claim p v) b
                (keeps.claims p v k)))
      ]

  pub observe-keeps : (op : Op) (w : World) → A op → P w → P (observe op w)
  unfolding observe
  observe-keeps op w a h =
      let waits = keeps.run_keeps.run_wait_keeps in
      watch_ctx-keeps P waits (react op w) (react-keeps P waits op w a h)
