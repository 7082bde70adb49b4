-- ===== src/Scheduler/Confirmation/Script.antt =====
-- internal/scheduler/pipeline.go: scripts in which no device reports a given power.
use valve_controller.Scheduler.Keeps.Waits.{one_phase}
use valve_controller.Common.{ℤ, Bool, true, false, List, [], ◌∷◌, ◌≡◌, All}
use valve_controller.Scheduler.World.{Op, sensor, World, emit, set_action}
use valve_controller.Scheduler.Shared.{
  finish_wait, update_config, submit, alloc, enqueue, record_state, power_is,
}
use valve_controller.Scheduler.Wait.{head_ops, tail_ops}
use valve_controller.Scheduler.Keeps.{WaitKeeps, AnyPtr, Any, script-Any, RunKeeps}

-- No event reports the power `e`.
abbrev pub IsSilent : ℤ → Op → Type 0
IsSilent e (sensor ev) = power_is ev.power e ≡ false
IsSilent e _ = Unit

module _ (e : ℤ) where
  -- From now on, no device reports the power `e`.
  abbrev pub Silence : World → Type 0
  Silence w = All (All (IsSilent e)) w.script

  Silence-tail :
      (s : List (List Op)) → All (All (IsSilent e)) s → All (All (IsSilent e)) (tail_ops s)
  Silence-tail [] h = tt
  Silence-tail (ops ∷ s) (p, h) = h

  pub Silence-head : (s : List (List Op)) → All (All (IsSilent e)) s → All (IsSilent e) (head_ops s)
  Silence-head [] h = tt
  Silence-head (ops ∷ s) (p, h) = p

  record_state-Silence : (power : Bool) (w : World) → Silence w → Silence (record_state power w)
  unfolding record_state
  record_state-Silence true w h = h
  record_state-Silence false w h = h

  Silence-wait : WaitKeeps Any Silence
  unfolding emit update_config submit alloc enqueue finish_wait
  Silence-wait = record {
    scripted = λ w _. script-Any w.script;
    submits = λ type d w _ h. h;
    configures = λ info w h. h;
    stops = λ w _ h. h;
    pings = λ b w h. h;
    closes = λ w _ h. record_state-Silence false w h;
    scripts = λ w h. Silence-tail w.script h;
    emits = λ o w h. h;
    finishes = λ x r w e n h. h;
    clocks = λ t w h. h;
  }

  pub Silence-run : RunKeeps Any AnyPtr Silence
  unfolding emit update_config submit alloc enqueue set_action
  Silence-run = record {
    run_wait_keeps = Silence-wait;
    run_phase = one_phase Silence (λ d x w h. h) Silence-wait;
    run_marks = λ q w _ h. h;
    acts = λ q f w _ h. h;
    fresh = λ w _. tt;
    records = record_state-Silence;
    allocs = λ name namespace type d w h. h;
    forgets = λ w h. h;
    names = λ id w h. h;
  }
