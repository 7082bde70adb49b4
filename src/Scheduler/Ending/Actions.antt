-- ===== src/Scheduler/Ending/Actions.antt =====
-- internal/scheduler/pipeline.go: `run_action`, from the end of its attempts to its own. Internal
-- lemmas.
use valve_controller.Common.{
  ◌≡◌, refl, Bool, true, false, not, [], Option, none, some, Bool-cases, inl, inr, sym, ◌∙◌, ap,
  subst,
}
use valve_controller.Device.{ValveState, Time, ValveConfig}
use valve_controller.Scheduler.Action.{
  ActionType, is_open_valve, fulfilled, Failure, is_terminal, is_open_timed,
  is_internal_safety_ping,
}
use valve_controller.Scheduler.World.{Ptr, Ctx, World, ◌>>◌, modify, when, emit}
use valve_controller.Scheduler.Shared.{add_to_history}
use valve_controller.Scheduler.Wait.{pause_step}
use valve_controller.Scheduler.Execute.{
  fulfil_action, timed_wait, timed_close, complete, conclude_action, run_action, release,
  check_closed, powers,
}
use valve_controller.Scheduler.Execute.Attempt.{attempt_with_retry}
use valve_controller.Scheduler.Keeps.Waits.{if_either, pause_step-keeps}
use valve_controller.Scheduler.Keeps.Attempts.{when-keeps, attempt_with_retry-keeps}
use valve_controller.Scheduler.Keeps.Tasks.{Holds-wait, Holds-self}
use valve_controller.Scheduler.Keeps.Runs.{
  attempts, check_closed-keeps, fulfil_action-keeps, timed_wait-keeps,
}
use valve_controller.Scheduler.Ending.Parts.{powers_of_other}
use valve_controller.Scheduler.Ending.{
  Confirms, IsTyped, Typed, At, InState, fulfil_action-InState, Recorded, Recorded-wait,
  fulfil_action-Recorded, Ended, timed_wait-Typed, timed_close-Ended, fail_action-Ended,
  update_action_id-Ended,
}

module _ (S : World → Type 0) (C : ValveState → Type 0) (given : Confirms S C) (t : ActionType)
    (p : Ptr) where
  -- `C` of the recorded state, and the end of the action at `p`.
  abbrev Outcome : World → Type 0
  Outcome = Recorded S C given

  abbrev Over : World → Type 0
  Over = Ended S C given t p

  -- A fulfilled action that is no timed open is at its end; a timed open waits and closes.
  timed-Ended :
      (ctx : Ctx) (cfg : ValveConfig) (now : Time) (w : World)
      → S w
      → InState t p fulfilled w
      → (powers t ≡ false → Outcome w)
      → Over (when (is_open_timed (w.heap p).type) (timed_wait ctx p now >> timed_close p cfg) w).1
  timed-Ended ctx cfg now w h ((r, s), lt) c = elim (Bool-cases (is_open_timed (w.heap p).type)) [
    | inl e ↦ rw e (
        timed_close-Ended S C given t p cfg _ (timed_wait-keeps S given.run_keeps ctx p now w tt h)
          (timed_wait-Typed S C given t p ctx now w (r, lt)))
    | inr e ↦ rw e (inl (((r, s), lt), λ o. c (powers_of_other t o (ap is_open_timed (sym r) ∙ e))))
  ]

  complete-Ended :
      (ctx : Ctx) (cfg : ValveConfig) (power : Bool) (w : World)
      → S w
      → Typed t p w
      → (powers t ≡ false → Outcome w)
      → Over (complete ctx p cfg power w).1
  unfolding complete check_closed emit
  complete-Ended ctx cfg power w m h c =
      let u = (when (not power) (modify check_closed) w).1 in
      let checked = when-keeps (Typed t p) (not power) (modify check_closed) w h h in
      let v = pause_step (fulfil_action p u) in
      let paused =
        pause_step-keeps (InState t p fulfilled) (Holds-wait (At t p fulfilled) p)
          (fulfil_action p u) (fulfil_action-InState t p u checked) in
      let kept = pause_step-keeps S given.run_keeps.run_wait_keeps (fulfil_action p u) (
        fulfil_action-keeps S given.run_keeps p u tt (
          when-keeps S (not power) (modify check_closed) w m
            (check_closed-keeps S given.run_keeps w m))) in
      let closed_then = λ (o : powers t ≡ false).
        pause_step-keeps Outcome (Recorded-wait S C given) (fulfil_action p u) (
          fulfil_action-Recorded S C given p u
            (when-keeps Outcome (not power) (modify check_closed) w (c o) (c o))) in
      update_action_id-Ended S C given t p [] _
        (timed-Ended ctx cfg u.now v kept paused closed_then)

  conclude-Ended :
      (ctx : Ctx) (cfg : ValveConfig) (power : Bool) (e : Option Failure) (w : World)
      → S w
      → Typed t p w
      → (e ≡ none → powers t ≡ false → Outcome w)
      → Over (conclude_action ctx p cfg power e w).1
  conclude-Ended ctx cfg power none w m h c = complete-Ended ctx cfg power w m h (c refl)
  conclude-Ended ctx cfg power (some e) w m h c = fail_action-Ended S C given t p power e w h

  confirmed :
      (ctx : Ctx) (cfg : ValveConfig) (w : World)
      → S w
      → (power : Bool) → false ≡ power
      → (attempt_with_retry ctx p power cfg.retry_count cfg.command_timeout w).0 ≡ none
      → Outcome (attempt_with_retry ctx p power cfg.retry_count cfg.command_timeout w).1
  confirmed ctx cfg w m power off =
      subst
        (λ b.
          (attempt_with_retry ctx p b cfg.retry_count cfg.command_timeout w).0 ≡ none
          → Outcome (attempt_with_retry ctx p b cfg.retry_count cfg.command_timeout w).1)
        off (given.confirm ctx p cfg.retry_count cfg.command_timeout w m)

  pub run_action-Ended :
      (ctx : Ctx) (cfg : ValveConfig) (w : World)
      → S w
      → Typed t p w
      → Over (run_action ctx p cfg w).1
  unfolding run_action
  run_action-Ended ctx cfg w m h =
      let power = powers (w.heap p).type in
      let own = Holds-self (IsTyped t p) p power (λ a s r. r) (λ a n t r. r) in
      conclude-Ended ctx cfg power _ _
        (attempt_with_retry-keeps S p power (attempts S given.run_keeps p power tt) ctx
          cfg.retry_count cfg.command_timeout w m)
        (attempt_with_retry-keeps (Typed t p) p power own ctx cfg.retry_count cfg.command_timeout w
          h)
        (λ e o. confirmed ctx cfg w m power (sym (ap powers h.0 ∙ o)) e)

  -- An ended action is in a final state, and if it is fulfilled and no indefinite open, `C` holds.
  pub final_of_Ended :
      (w : World)
      → Over w
      → (is_terminal (w.heap p) ≡ true)
        × ((w.heap p).type ≡ t)
        × (is_open_valve t ≡ false → (w.heap p).state ≡ fulfilled → Outcome w)
  unfolding is_terminal
  final_of_Ended w (inl (((r, s), lt), c)) = (rw s refl, r, λ o s'. c o)
  final_of_Ended w (inr (inl ((r, s), lt))) = (rw s refl, r, λ o s'. cc)
  final_of_Ended w (inr (inr ((r, s), lt))) = (rw s refl, r, λ o s'. cc)

  pub release-Ended : (w : World) → Over w → Over (release p w)
  unfolding release add_to_history
  release-Ended w e = if_either Over (is_internal_safety_ping (w.heap p)) _ _ e e
