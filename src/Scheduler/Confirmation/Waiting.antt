-- ===== src/Scheduler/Confirmation/Waiting.antt =====
-- internal/scheduler/pipeline.go: `waitForPower` and its waits where no device reports the power.
use valve_controller.Common.{
  ℕ, zero, suc, ◌+◌, ℤ, Bool, true, false, ◌&&◌, List, [], ◌∷◌, Option, none, some, ◌≡◌, refl, ◌≢◌,
  ap, subst, ◌∙◌, All, Bool-cases, Option-cases, inl, inr, arith, if◌then◌else◌,
}
use valve_controller.Common.Text.{Text}
use valve_controller.Mqtt.Event.{SensorEvent}
use valve_controller.Scheduler.Action.{context_done}
use valve_controller.Scheduler.World.{
  Ctx, Op, sensor, elapse, published, enqueues, configures, stops, ping_checks, ping_applies,
  Waiter, World, emit, is_done,
}
use valve_controller.Scheduler.Shared.{
  update_config, submit, alloc, enqueue, apply_closed, set_gauge, write_status, record_state,
  power_is, finish_wait,
}
use valve_controller.Scheduler.Wait.{
  on_event, watch_ctx, react, observe, observe_all, head_ops, pause_step, advance, sleep_step,
  wait_for_power, has_result, wait_result, wait_deadline, await_step, send_zb_send,
}
use valve_controller.Scheduler.Execute.Attempt.{repeat_gap, send_loop}
use valve_controller.Scheduler.Keeps.{Any, WaitKeeps}
use valve_controller.Scheduler.Keeps.Waits.{if_either, sleep_step-keeps, send_zb_send-keeps}
use valve_controller.Scheduler.Confirmation.Script.{IsSilent, Silence, Silence-head, Silence-run}

watch_ctx-cases :
    (P : World → Type 0) (w : World)
    → P w
    → ((x : Waiter) → w.waiter ≡ some x → P (finish_wait x (some context_done) w))
    → P (watch_ctx w)
unfolding watch_ctx
watch_ctx-cases P w h k = elim (Option-cases w.waiter) [
  | inl n ↦ rw (n, watch_ctx) h
  | inr (x, n) ↦
      rw (n, watch_ctx)
        (elim (Option-cases x.result) [
          | inl r ↦ rw (r, watch_ctx) (if_either P (is_done x.ctx w) _ w (k x n) h)
          | inr (r', r) ↦ rw (r, watch_ctx) h
        ])
]

on_event-cases :
    (P : World → Type 0) (ev : SensorEvent) (w : World)
    → P w
    → ((x : Waiter)
        → w.waiter ≡ some x
        → power_is ev.power x.expected ≡ true
        → P (finish_wait x none w))
    → P (on_event ev w)
unfolding on_event
on_event-cases P ev w h k = elim (Option-cases w.waiter) [
  | inl n ↦ rw (n, on_event) h
  | inr (x, n) ↦
      rw (n, on_event)
        (elim (Option-cases x.result) [
          | inl r ↦ rw (r, on_event) (both P _ (power_is ev.power x.expected) _ w (k x n) h)
          | inr (r', r) ↦ rw (r, on_event) h
        ])
]
  where
    both :
        (P : World → Type 0) (a b : Bool) (x y : World)
        → (b ≡ true → P x)
        → P y
        → P (if a && b then x else y)
    both P true true x y h k = h refl
    both P true false x y h k = k
    both P false b x y h k = k

module _ (e : ℤ) where
  -- The wait, if there is one, is for the power `e` and was not confirmed.
  abbrev pub Waits : Option Waiter → Type 0
  Waits none = Unit
  Waits (some x) = (x.expected ≡ e) × (x.result ≢ some none)

  abbrev pub Unconfirmed : World → Type 0
  Unconfirmed w = Waits w.waiter

  watch_ctx-Unconfirmed : (w : World) → Unconfirmed w → Unconfirmed (watch_ctx w)
  unfolding finish_wait
  watch_ctx-Unconfirmed w h =
      watch_ctx-cases Unconfirmed w h (λ x n. ((subst Waits n h).0, λ z. cc))

  on_event-Unconfirmed :
      (ev : SensorEvent) (w : World)
      → power_is ev.power e ≡ false
      → Unconfirmed w
      → Unconfirmed (on_event ev w)
  unfolding finish_wait
  on_event-Unconfirmed ev w s h = on_event-cases Unconfirmed ev w h (λ x n p.
      let same : power_is ev.power x.expected ≡ power_is ev.power e =
        ap (power_is ev.power) (subst Waits n h).0 in
      absurd cc)

  apply_closed_waiter : (w : World) → (apply_closed w).waiter ≡ w.waiter
  unfolding apply_closed set_gauge write_status emit record_state
  apply_closed_waiter w = refl

  react-Unconfirmed :
      (op : Op) (w : World) → IsSilent e op → Unconfirmed w → Unconfirmed (react op w)
  unfolding react update_config submit alloc enqueue
  react-Unconfirmed (sensor ev) w s h = on_event-Unconfirmed ev w s h
  react-Unconfirmed (elapse n) w s h = h
  react-Unconfirmed (published accepted) w s h = h
  react-Unconfirmed (enqueues type duration) w s h = h
  react-Unconfirmed (configures info) w s h = h
  react-Unconfirmed stops w s h = h
  react-Unconfirmed ping_checks w s h = h
  react-Unconfirmed ping_applies w s h = elim (Bool-cases w.ping_due) [
    | inl p ↦ rw p (rw (apply_closed_waiter (record w { ping_due = false })) h)
    | inr p ↦ rw p h
  ]

  observe_all-Unconfirmed :
      (ops : List Op) (w : World)
      → All (IsSilent e) ops
      → Unconfirmed w
      → Unconfirmed (observe_all ops w)
  unfolding observe_all observe
  observe_all-Unconfirmed [] w s h = h
  observe_all-Unconfirmed (op ∷ ops) w (s, s') h =
      observe_all-Unconfirmed ops (observe op w) s'
        (watch_ctx-Unconfirmed (react op w) (react-Unconfirmed op w s h))

  pause_step-Unconfirmed : (w : World) → Silence e w → Unconfirmed w → Unconfirmed (pause_step w)
  unfolding pause_step
  pause_step-Unconfirmed w s h =
      observe_all-Unconfirmed (head_ops w.script) _ (Silence-head e w.script s) h

  advance-Unconfirmed : (t : ℕ) (w : World) → Unconfirmed w → Unconfirmed (advance t w)
  unfolding advance
  advance-Unconfirmed t w h = watch_ctx-Unconfirmed _ h

  sleep_step-Unconfirmed :
      (ctx : Ctx) (t : ℕ) (w : World)
      → Silence e w
      → Unconfirmed w
      → Unconfirmed (sleep_step ctx t w)
  unfolding sleep_step
  sleep_step-Unconfirmed ctx t w s h =
      let k = pause_step-Unconfirmed w s h in
      if_either Unconfirmed (is_done ctx (pause_step w)) _ _ k
        (advance-Unconfirmed t (pause_step w) k)

  pub wait_for_power-Unconfirmed :
      (ctx : Ctx) (name : Text) (w : World) → Unconfirmed (wait_for_power ctx name e w)
  unfolding wait_for_power
  wait_for_power-Unconfirmed ctx name w = watch_ctx-Unconfirmed _ (refl, λ z. cc)

  send_zb_send-Unconfirmed :
      (bridge target : Text) (power : Bool) (w : World)
      → Silence e w
      → Unconfirmed w
      → Unconfirmed (send_zb_send bridge target power w).1
  unfolding send_zb_send emit
  send_zb_send-Unconfirmed bridge target power w s h = elim (Bool-cases (w.bridges bridge)) [
    | inl b ↦ rw (b, send_zb_send) (pause_step-Unconfirmed _ s h)
    | inr b ↦ rw (b, send_zb_send) h
  ]

  pub silent_waits : WaitKeeps Any (Silence e)
  silent_waits = (Silence-run e).run_wait_keeps

  pub send_loop-Unconfirmed :
      (ctx wait_ctx : Ctx) (bridge target : Text) (power first sent : Bool) (rounds : ℕ) (w : World)
      → Silence e w
      → Unconfirmed w
      → Unconfirmed (send_loop ctx wait_ctx bridge target power first sent rounds w).1
  unfolding send_loop
  send_loop-Unconfirmed ctx wait_ctx bridge target power first sent zero w s h = h
  send_loop-Unconfirmed ctx wait_ctx bridge target power true sent (suc rounds) w s h =
      send_loop-Unconfirmed ctx wait_ctx bridge target power false _ rounds _
        (send_zb_send-keeps (Silence e) silent_waits bridge target power w s)
        (send_zb_send-Unconfirmed bridge target power w s h)
  send_loop-Unconfirmed ctx wait_ctx bridge target power false sent (suc rounds) w s h =
      let t = w.now + repeat_gap in
      let s' = sleep_step-keeps (Silence e) silent_waits wait_ctx t w s in
      send_loop-Unconfirmed ctx wait_ctx bridge target power false _ rounds _
        (send_zb_send-keeps (Silence e) silent_waits bridge target power _ s')
        (send_zb_send-Unconfirmed bridge target power _ s'
          (sleep_step-Unconfirmed wait_ctx t w s h))

  pub await_step-Unconfirmed :
      (w : World) → Silence e w → Unconfirmed w → Unconfirmed (await_step w)
  unfolding await_step
  await_step-Unconfirmed w s h =
      let k = pause_step-Unconfirmed w s h in
      let v = pause_step w in
      if_either Unconfirmed (has_result w) w _ h
        (if_either Unconfirmed (has_result v) v _ k (advance-Unconfirmed (wait_deadline v) v k))

  pub wait_result-ne-none : (w : World) → Unconfirmed w → wait_result w ≢ none
  wait_result-ne-none w h z = elim (Option-cases w.waiter) [
    | inl n ↦ ground arith
    | inr (x, n) ↦ elim (Option-cases x.result) [
      | inl r ↦ ground arith
      | inr (o, r) ↦
          let nothing : o ≡ none = ground arith in (subst Waits n h).1 (r ∙ ap some nothing)
    ]
  ]
