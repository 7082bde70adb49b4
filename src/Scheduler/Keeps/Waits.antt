-- ===== src/Scheduler/Keeps/Waits.antt =====
-- Every scheduling point keeps what its primitive steps keep.
use Prim.Native.Nat.{max}
use valve_controller.Common.{
  ◌+◌, ℤ, Bool, true, false, ◌&&◌, List, [], ◌∷◌, All, Option, none, some, Bool-cases, Option-cases,
  inl, inr, if◌then◌else◌,
}
use valve_controller.Common.Text.{Text}
use valve_controller.Device.{Time}
use valve_controller.Mqtt.Dispatcher.{contains, ids, dispatch, Dispatcher}
use valve_controller.Mqtt.Event.{SensorEvent}
use valve_controller.Scheduler.Action.{context_done}
use valve_controller.Scheduler.World.{
  Ctx, Op, sensor, elapse, published, enqueues, configures, stops, ping_checks, ping_applies,
  Waiter, World, is_done,
}
use valve_controller.Scheduler.Shared.{
  finish_wait, apply_closed, ping_may_record, power_is, set_gauge, write_status,
}
use valve_controller.Scheduler.Wait.{
  on_event, react, watch_ctx, observe, observe_all, pause_step, head_ops, advance, sleep_step,
  wait_for_power, has_result, wait_deadline, await_step, cancel_wait, send_zb_send,
}
use valve_controller.Scheduler.Keeps.{begun, WaitKeeps, PhaseKeeps}

pub if_either {ℓ} :
    {A : Type 0} (P : A → Type ℓ) (b : Bool) (x y : A) → P x → P y → P (if b then x else y)
if_either P true x y h k = h
if_either P false x y h k = k

module _ {A : Op → Type 0} (P : World → Type 0) (keeps : WaitKeeps A P) where
  pub watch_ctx-keeps : (w : World) → P w → P (watch_ctx w)
  unfolding watch_ctx
  watch_ctx-keeps w h = elim (Option-cases w.waiter) [
    | inl e ↦ rw (e, watch_ctx) h
    | inr (x, e) ↦
        rw (e, watch_ctx)
          (elim (Option-cases x.result) [
            | inl e' ↦
                rw (e', watch_ctx)
                  (if_either P (is_done x.ctx w) _ w (keeps.finishes x (some context_done) w e e' h)
                    h)
            | inr (r, e') ↦ rw (e', watch_ctx) h
          ])
  ]

  on_event-keeps : (ev : SensorEvent) (w : World) → P w → P (on_event ev w)
  unfolding on_event
  on_event-keeps ev w h = elim (Option-cases w.waiter) [
    | inl e ↦ rw (e, on_event) h
    | inr (x, e) ↦
        rw (e, on_event)
          (elim (Option-cases x.result) [
            | inl e' ↦
                rw (e', on_event)
                  (if_either P
                    (contains x.subscription.1 (ids (dispatch w.dispatcher ev))
                      && power_is ev.power x.expected)
                    _ w (keeps.finishes x none w e e' h) h)
            | inr (r, e') ↦ rw (e', on_event) h
          ])
  ]

  pub apply_closed-keeps : (w : World) → A ping_applies → P w → P (apply_closed w)
  unfolding apply_closed set_gauge write_status
  apply_closed-keeps w a h = keeps.emits _ _ (keeps.emits _ _ (keeps.closes w a h))

  pub react-keeps : (op : Op) (w : World) → A op → P w → P (react op w)
  unfolding react
  react-keeps (sensor ev) w a h = on_event-keeps ev w h
  react-keeps (elapse n) w a h = keeps.clocks (w.now + n) w h
  react-keeps (published accepted) w a h = h
  react-keeps (enqueues type duration) w a h = keeps.submits type duration w a h
  react-keeps (configures info) w a h = keeps.configures info w h
  react-keeps stops w a h = keeps.stops w a h
  react-keeps ping_checks w a h = keeps.pings (ping_may_record w) w h
  react-keeps ping_applies w a h =
      if_either P w.ping_due _ w (apply_closed-keeps _ a (keeps.pings false w h)) h

  pub observe_all-keeps : (ops : List Op) (w : World) → All A ops → P w → P (observe_all ops w)
  unfolding observe_all observe
  observe_all-keeps [] w a h = h
  observe_all-keeps (op ∷ ops) w (a, rest) h =
      observe_all-keeps ops (observe op w) rest
        (watch_ctx-keeps (react op w) (react-keeps op w a h))

  All-head_ops : (s : List (List Op)) → All (All A) s → All A (head_ops s)
  All-head_ops [] h = tt
  All-head_ops (ops ∷ s) (a, h) = a

  pub pause_step-keeps : (w : World) → P w → P (pause_step w)
  unfolding pause_step
  pause_step-keeps w h =
      observe_all-keeps (head_ops w.script) _ (All-head_ops w.script (keeps.scripted w h))
        (keeps.scripts w h)

  pub advance-keeps : (t : Time) (w : World) → P w → P (advance t w)
  unfolding advance
  advance-keeps t w h = watch_ctx-keeps _ (keeps.clocks (max w.now t) w h)

  pub sleep_step-keeps : (ctx : Ctx) (t : Time) (w : World) → P w → P (sleep_step ctx t w)
  unfolding sleep_step
  sleep_step-keeps ctx t w h =
      let k = pause_step-keeps w h in
      if_either P (is_done ctx (pause_step w)) _ _ k (advance-keeps t (pause_step w) k)

  pub wait_for_power-keeps :
      (ctx : Ctx) (name : Text) (expected : ℤ) (w : World)
      → P (begun ctx name expected w)
      → P (wait_for_power ctx name expected w)
  unfolding wait_for_power
  wait_for_power-keeps ctx name expected w h = watch_ctx-keeps _ h

  pub await_step-keeps : (w : World) → P w → P (await_step w)
  unfolding await_step
  await_step-keeps w h =
      let k = pause_step-keeps w h in
      let v = pause_step w in
      if_either P (has_result w) w _ h
        (if_either P (has_result v) v _ k (advance-keeps (wait_deadline v) v k))

  pub send_zb_send-keeps :
      (bridge target : Text) (power : Bool) (w : World)
      → P w
      → P (send_zb_send bridge target power w).1
  unfolding send_zb_send
  send_zb_send-keeps bridge target power w h = elim (Bool-cases (w.bridges bridge)) [
    | inl e ↦ rw (e, send_zb_send) (pause_step-keeps _ (keeps.emits _ w h))
    | inr e ↦ rw (e, send_zb_send) h
  ]

-- What does not depend on the wait and the subscriptions holds throughout.
module _ (P : World → Type 0)
    (frees : (d : Dispatcher (Unit {0})) (x : Option Waiter) (w : World)
      → P w
      → P (record w { dispatcher = d; waiter = x })) where
  pub cancel_wait-keeps : (w : World) → P w → P (cancel_wait w)
  unfolding cancel_wait finish_wait
  cancel_wait-keeps w h = elim (Option-cases w.waiter) [
    | inl e ↦ rw (e, cancel_wait) h
    | inr (x, e) ↦
        rw (e, cancel_wait)
          (elim (Option-cases x.result) [
            | inl e' ↦ rw (e', cancel_wait) (frees _ _ w h)
            | inr (r, e') ↦ rw (e', cancel_wait) (frees w.dispatcher none w h)
          ])
  ]

  abbrev pub one_phase : {A : Op → Type 0} → WaitKeeps A P → PhaseKeeps A P
  one_phase keeps = record {
    Waiting = P;
    waiting_keeps = keeps;
    begins = λ ctx name expected w h. frees _ _ w h;
    ends = cancel_wait-keeps;
  }
