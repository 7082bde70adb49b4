-- ===== src/Scheduler/Cancellation.antt =====
-- internal/scheduler/pipeline.go: `Enqueue` of a close while `execute` sleeps.
use valve_controller.Common.{
  ◌≡◌, refl, subst, Bool, true, false, List, [], ◌∷◌, arith, In, inl, inr,
}
use valve_controller.Device.{Duration, Time}
use valve_controller.Scheduler.Action.{ActionType, close, new_action}
use valve_controller.Scheduler.World.{
  Ctx, pipeline_ctx, close_ctx, action_ctx, timeout_ctx, Op, enqueues, World, emit, is_done,
}
use valve_controller.Scheduler.Shared.{
  finish_wait, alloc, submit, enqueue, update_config, record_state,
}
use valve_controller.Scheduler.Wait.{
  react, observe, observe_all, head_ops, tail_ops, pause_step, sleep_step,
}
use valve_controller.Scheduler.Keeps.{Any, ops-Any, script-Any, WaitKeeps}
use valve_controller.Scheduler.Keeps.Tasks.{write_self}
use valve_controller.Scheduler.Keeps.Waits.{watch_ctx-keeps, react-keeps, observe_all-keeps}

-- An action runs that can be cancelled.
abbrev HasCancel : World → Type 0
HasCancel w = w.cancel_fn ≡ true

HasCancel-wait : WaitKeeps Any HasCancel
unfolding emit update_config submit alloc enqueue record_state finish_wait
HasCancel-wait = record {
  scripted = λ w _. script-Any w.script;
  submits = λ type d w _ h. h;
  configures = λ info w h. h;
  stops = λ w _ h. h;
  pings = λ b w h. h;
  closes = λ w _ h. h;
  scripts = λ w h. h;
  emits = λ o w h. h;
  finishes = λ x r w e n h. h;
  clocks = λ t w h. h;
}

-- The context of the running action is cancelled.
abbrev IsCancelled : World → Type 0
IsCancelled w = w.action_cancelled ≡ true

submit-IsCancelled :
    (type : ActionType) (d : Duration) (w : World) → IsCancelled w → IsCancelled (submit type d w)
unfolding submit alloc enqueue
submit-IsCancelled type d w h = ground arith

IsCancelled-wait : WaitKeeps Any IsCancelled
unfolding emit update_config record_state finish_wait
IsCancelled-wait = record {
  scripted = λ w _. script-Any w.script;
  submits = λ type d w _ h. submit-IsCancelled type d w h;
  configures = λ info w h. h;
  stops = λ w _ h. h;
  pings = λ b w h. h;
  closes = λ w _ h. h;
  scripts = λ w h. h;
  emits = λ o w h. h;
  finishes = λ x r w e n h. h;
  clocks = λ t w h. h;
}

submit_cancels : (d : Duration) (w : World) → HasCancel w → IsCancelled (submit close d w)
unfolding submit alloc enqueue new_action
submit_cancels d w h = ground (arith, write_self w.heap w.next_ptr)

react-IsCancelled :
    (d : Duration) (op : Op) (w : World)
    → enqueues close d ≡ op
    → HasCancel w
    → IsCancelled (react op w)
unfolding react
react-IsCancelled d op w e h = subst (λ o. IsCancelled (react o w)) e (submit_cancels d w h)

observe_all_cancels :
    (d : Duration) (ops : List Op) (w : World)
    → In (enqueues close d) ops
    → HasCancel w
    → IsCancelled (observe_all ops w)
unfolding observe_all observe
observe_all_cancels d [] w i h = absurd i
observe_all_cancels d (op ∷ ops) w (inl e) h =
    observe_all-keeps IsCancelled IsCancelled-wait ops _ (ops-Any ops)
      (watch_ctx-keeps IsCancelled IsCancelled-wait (react op w) (react-IsCancelled d op w e h))
observe_all_cancels d (op ∷ ops) w (inr i) h = observe_all_cancels d ops _ i (
    watch_ctx-keeps HasCancel HasCancel-wait (react op w)
      (react-keeps HasCancel HasCancel-wait op w tt h))

-- The context is that of the action, or one with a deadline that descends from it.
abbrev pub is_of_action : Ctx → Bool
is_of_action (action_ctx _) = true
is_of_action (timeout_ctx parent _) = is_of_action parent
is_of_action _ = false

IsCancelled-is_done :
    (ctx : Ctx) (w : World) → is_of_action ctx ≡ true → IsCancelled w → is_done ctx w ≡ true
unfolding is_done
IsCancelled-is_done pipeline_ctx w o h = cc
IsCancelled-is_done (close_ctx deadline) w o h = cc
IsCancelled-is_done (action_ctx parent) w o h = ground arith
IsCancelled-is_done (timeout_ctx parent deadline) w o h =
    ground (arith, IsCancelled-is_done parent w o h)

-- Where the running action can be cancelled (`cancelFn` is set), a close that is requested during a
-- sleep under the context of this action, or under a context with a deadline that descends from it,
-- ends the sleep: the clock does not go on to its deadline. Such are the wait of a timed open for its
-- duration and the gaps between the sends of an attempt, other than those of the close that ends a
-- timed open, which has a context of its own.
pub sleep_step_cut :
    (ctx : Ctx) (deadline : Time) (d : Duration) (w : World)
    → is_of_action ctx ≡ true
    → w.cancel_fn ≡ true
    → In (enqueues close d) (head_ops w.script)
    → sleep_step ctx deadline w ≡ pause_step w
unfolding sleep_step pause_step
sleep_step_cut ctx deadline d w o h i =
    let cut =
      observe_all_cancels d (head_ops w.script) (record w { script = tail_ops w.script }) i h in
    rw (IsCancelled-is_done ctx (pause_step w) o cut) refl
