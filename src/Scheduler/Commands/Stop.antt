-- ===== src/Scheduler/Commands/Stop.antt =====
-- internal/scheduler/pipeline.go: the close of a pipeline that is stopped is sent, whatever happens.
use valve_controller.Common.{
  ℕ, suc, ◌+◌, ◌<◌, pos, pos_part, Bool, true, false, List, [], ◌++◌, ◌≡◌, refl, sym, ap, subst,
  arith,
}
use valve_controller.Device.{ValveConfig, opened, closed}
use valve_controller.Scheduler.Action.{close, fulfilled, is_terminal, new_action}
use valve_controller.Scheduler.World.{Ptr, Output, Ctx, action_ctx, close_ctx, World}
use valve_controller.Scheduler.Shared.{alloc}
use valve_controller.Scheduler.Execute.{
  conclude_action, run_action, claim, refused, powers, close_limit, upgrade, execute, run_done,
}
use valve_controller.Scheduler.Execute.Attempt.{attempt_with_retry}
use valve_controller.Scheduler.Keeps.Waits.{pause_step-keeps}
use valve_controller.Scheduler.Keeps.Tasks.{write_self}
use valve_controller.Scheduler.Keeps.Runs.{conclude_action-keeps}
use valve_controller.Scheduler.Keeps.Whole.{release-keeps}
use valve_controller.Scheduler.Ending.{Typed}
use valve_controller.Scheduler.Ending.Final.{checked, checked-Typed}
use valve_controller.Scheduler.Commands.{AllReachable, Since-execute, HasClose, HasClose-grows}
use valve_controller.Scheduler.Commands.Closes.{
  Grown, Sent, Grown-run, Sent-run, attempt_with_retry-Sent,
}
use valve_controller.Scheduler.Commands.TimedOpens.{upgrade-Grown}
use valve_controller.Scheduler.Safety.{last_close, run_done-opened, run_done_ends, run_done_closes}

module _ (base : List Output) (ctx : Ctx) (p : Ptr) (n : ℕ) where
  run_close-Sent :
      (cfg : ValveConfig) (w : World)
      → pos_part cfg.retry_count ≡ suc n
      → Typed close p w
      → Grown base w
      → Sent base (run_action ctx p cfg w).1
  unfolding run_action
  run_close-Sent cfg w c typed h =
      let x = attempt_with_retry ctx p false cfg.retry_count cfg.command_timeout w in
      let run : Bool → World = λ power.
        let y = attempt_with_retry ctx p power cfg.retry_count cfg.command_timeout w in
        (conclude_action ctx p cfg power y.0 y.1).1 in
      subst (λ b. Sent base (run b)) (sym (ap powers typed.0))
        (conclude_action-keeps (Sent base) (Sent-run base) ctx p cfg false x.0 x.1 tt
          (attempt_with_retry-Sent base ctx p cfg.retry_count cfg.command_timeout n w c h))

execute_close-Sent :
    (base : List Output) (ctx : Ctx) (p : Ptr) (n : ℕ) (w : World)
    → p < w.next_ptr
    → (w.heap p).type ≡ close
    → pos_part w.info.config.retry_count ≡ suc n
    → Grown base w
    → Sent base (execute ctx p w).1
unfolding execute claim
execute_close-Sent base ctx p n w lt type c h =
    let cfg = w.info.config in
    let v = checked p w in
    let typed = checked-Typed p w lt type in
    let grown : Grown base v =
      pause_step-keeps (Grown base) (Grown-run base).run_wait_keeps
        (upgrade p cfg.max_open_duration w) (upgrade-Grown base p cfg.max_open_duration w h) in
    let not_refused : refused p cfg v ≡ false = ground (arith, typed.0) in
    let sent = run_close-Sent base (action_ctx ctx) p n cfg (claim p v) c typed grown in
    rw not_refused (
      release-keeps (Sent base) (Since-execute base HasClose HasClose-grows) p
        (run_action (action_ctx ctx) p cfg (claim p v)).1 sent)

last_close-Sent :
    (n : ℕ) (w : World)
    → pos_part w.info.config.retry_count ≡ suc n
    → AllReachable w
    → Sent w.output (last_close w)
unfolding alloc new_action
last_close-Sent n w c r =
    let u = alloc w.info.name w.info.namespace close (pos 0) w in
    execute_close-Sent w.output (close_ctx (w.now + close_limit)) w.next_ptr n u (omega arith)
      (ap (λ a. a.type) (write_self w.heap w.next_ptr _)) c (r, ([], refl, tt))

-- A pipeline that is stopped while its valve is recorded as open, where the valve has an attempt to
-- make and each bridge has a client, hands the client at least one command to close before its main
-- loop returns. The close it runs is then in a final state, and if that is fulfilled, the valve is
-- recorded as closed. All this holds whatever happens meanwhile.
pub run_done_sends_close :
    (n : ℕ) (w : World)
    → w.info.state ≡ opened
    → pos_part w.info.config.retry_count ≡ suc n
    → AllReachable w
    → let v = (run_done w).1 in
      ((newer : List Output) × (v.output ≡ newer ++ w.output) × HasClose newer)
      × (is_terminal (v.heap w.next_ptr) ≡ true)
      × ((v.heap w.next_ptr).state ≡ fulfilled → v.info.state ≡ closed)
run_done_sends_close n w h c r =
    let sent = subst (Sent w.output) (sym (run_done-opened w h)) (last_close-Sent n w c r) in
    (sent.1, (run_done_ends w h).1, run_done_closes w h)
