-- ===== src/Scheduler/Confirmation/Telemetry/Sending.antt =====
-- internal/scheduler/pipeline.go: a wait that is started, a command that is accepted, and the events
-- that end the wait.
use valve_controller.Common.{
  ℤ, Bool, true, false, List, [], ◌∷◌, map, none, some, ◌≡◌, refl, sym, ap, subst, ◌∙◌, In, arith,
  ◌||◌,
}
use valve_controller.Common.Text.{Text}
use valve_controller.Mqtt.Event.{SensorEvent}
use valve_controller.Mqtt.Address.{dispatch_key}
use valve_controller.Mqtt.Dispatcher.{ids, subs_at, subscribe}
use valve_controller.Mqtt.Dispatcher.Subscriber.{In-subscribe_self}
use valve_controller.Scheduler.World.{
  Ptr, Ctx, Op, sensor, published, Waiter, World, is_done, emit, command,
}
use valve_controller.Scheduler.Wait.{
  react, observe, observe_all, pause_step, wait_for_power, has_result, wait_result, await_step,
  send_zb_send, head_ops, tail_ops, accepted_of, cancel_wait,
}
use valve_controller.Scheduler.Execute.Attempt.{send_loop, return, judge, conclude}
use valve_controller.Scheduler.Confirmation.Telemetry.Listening.{
  IsAbout, Listens, IsConfirmed, is_done-same, watch_ctx-listening, all-about,
}

pub Listens-frame :
    (name : Text) (e : ℤ) (x : Waiter) (v w : World)
    → v.waiter ≡ w.waiter
    → v.dispatcher ≡ w.dispatcher
    → v.now ≡ w.now
    → v.stopped ≡ w.stopped
    → v.action_cancelled ≡ w.action_cancelled
    → Listens name e x w
    → Listens name e x v
Listens-frame name e x v w a d n s c h = record {
  waiter = a ∙ h.waiter;
  unanswered = h.unanswered;
  expected = h.expected;
  registered =
      subst (λ z. In x.subscription.1 (ids (subs_at (dispatch_key name) z.handlers))) (sym d)
        h.registered;
  running = is_done-same x.ctx v w n s c ∙ h.running;
}

-- The wait as `waitForPower` starts it.
abbrev pub started : Ctx → Text → ℤ → World → Waiter
started ctx name e w = record {
  subscription = (subscribe name tt w.dispatcher).1;
  expected = e;
  ctx = ctx;
  result = none;
}

abbrev pub waiting : Ctx → Text → ℤ → World → World
waiting ctx name e w = record w {
  dispatcher = (subscribe name tt w.dispatcher).0;
  waiter = some (started ctx name e w);
}

pub waiting-Listens :
    (ctx : Ctx) (name : Text) (e : ℤ) (w : World)
    → is_done ctx w ≡ false
    → Listens name e (started ctx name e w) (waiting ctx name e w)
unfolding subscribe
waiting-Listens ctx name e w h = record {
  waiter = refl;
  unanswered = refl;
  expected = refl;
  registered = In-subscribe_self name tt w.dispatcher;
  running = is_done-same ctx (waiting ctx name e w) w refl refl refl ∙ h;
}

pub wait_for_power-running :
    (ctx : Ctx) (name : Text) (e : ℤ) (w : World)
    → is_done ctx w ≡ false
    → wait_for_power ctx name e w ≡ waiting ctx name e w
unfolding wait_for_power
wait_for_power-running ctx name e w h =
    watch_ctx-listening name e (started ctx name e w) (waiting ctx name e w)
      (waiting-Listens ctx name e w h)

pause_step-head :
    (ops : List Op) (later : List (List Op)) (w : World)
    → w.script ≡ ops ∷ later
    → pause_step w ≡ observe_all ops (record w { script = later })
unfolding pause_step
pause_step-head ops later w h =
    ap (λ s. observe_all (head_ops s) (record w { script = tail_ops s })) h

Listens-open :
    (name : Text) (e : ℤ) (x : Waiter) (w : World) → Listens name e x w → has_result w ≡ false
Listens-open name e x w h = ground (arith, h.waiter, h.unanswered)

IsConfirmed-has_result : (w : World) → IsConfirmed w → has_result w ≡ true
IsConfirmed-has_result w (x, h, r) = ground arith

IsConfirmed-wait_result : (w : World) → IsConfirmed w → wait_result w ≡ none
IsConfirmed-wait_result w (x, h, r) = ground arith

await_step-paused :
    (w : World)
    → has_result w ≡ false
    → has_result (pause_step w) ≡ true
    → await_step w ≡ pause_step w
unfolding await_step
await_step-paused w h k = rw (h, k) refl

-- Where the events are what happens next, the awaited result is a success.
await_step-success :
    (name : Text) (e : ℤ) (x : Waiter) (ev : SensorEvent) (evs : List SensorEvent)
    (later : List (List Op)) (w : World)
    → Listens name e x w
    → w.script ≡ map sensor evs ∷ later
    → In ev evs
    → IsAbout name ev
    → ev.power ≡ some e
    → wait_result (await_step w) ≡ none
await_step-success name e x ev evs later w h script i about p =
    let v = record w { script = later } in
    let l = Listens-frame name e x v w refl refl refl refl refl h in
    let paused = pause_step-head (map sensor evs) later w script in
    let done : IsConfirmed (pause_step w) =
      subst IsConfirmed (sym paused) (all-about name e x ev evs v l i about p) in
    let waited =
      await_step-paused w (Listens-open name e x w h)
        (IsConfirmed-has_result (pause_step w) done) in
    subst (λ u. wait_result u ≡ none) (sym waited) (IsConfirmed-wait_result (pause_step w) done)

observe_published :
    (name : Text) (e : ℤ) (x : Waiter) (v : World)
    → Listens name e x v
    → observe_all (published true ∷ []) v ≡ v
unfolding observe_all observe react
observe_published name e x v l = watch_ctx-listening name e x v l

send_zb_send-accepted :
    (name : Text) (e : ℤ) (x : Waiter) (bridge target : Text) (power : Bool)
    (later : List (List Op)) (w : World)
    → Listens name e x w
    → w.bridges bridge ≡ true
    → w.script ≡ (published true ∷ []) ∷ later
    → send_zb_send bridge target power w
      ≡ (true, record (emit (command bridge target power) w) { script = later })
unfolding send_zb_send emit
send_zb_send-accepted name e x bridge target power later w h b script =
    let u = emit (command bridge target power) w in
    let v = record u { script = later } in
    let l = Listens-frame name e x v w refl refl refl refl refl h in
    let paused : pause_step u ≡ v =
      pause_step-head (published true ∷ []) later u script ∙ observe_published name e x v l in
    rw b (ap (λ o. (accepted_of (head_ops o), pause_step u)) script ∙ ap (λ z. (true, z)) paused)

-- A single message is published, and accepted; then the events of a message of the bridge arrive.
send_loop-once :
    (name : Text) (e : ℤ) (x : Waiter) (ctx wait_ctx : Ctx) (bridge target : Text) (power : Bool)
    (later : List (List Op)) (w : World)
    → Listens name e x w
    → w.bridges bridge ≡ true
    → w.script ≡ (published true ∷ []) ∷ later
    → send_loop ctx wait_ctx bridge target power true false 1 w
      ≡ (true, record (emit (command bridge target power) w) { script = later })
unfolding send_loop
send_loop-once name e x ctx wait_ctx bridge target power later w h b script =
    ap (λ r. (r.0 || false, r.1))
      (send_zb_send-accepted name e x bridge target power later w h b script)

conclude-success :
    (ctx : Ctx) (p : Ptr) (power : Bool) (w : World)
    → wait_result (await_step w) ≡ none
    → (conclude ctx p power true w).0 ≡ return none
unfolding conclude judge
conclude-success ctx p power w h = ap (λ r. (judge ctx p power r (cancel_wait (await_step w))).0) h

-- The publishing and the end of an attempt from a state in which the wait goes on.
pub sent-success :
    (name : Text) (e : ℤ) (x : Waiter) (ctx wait_ctx : Ctx) (p : Ptr) (bridge target : Text)
    (power : Bool) (ev : SensorEvent) (evs : List SensorEvent) (later : List (List Op)) (w : World)
    → Listens name e x w
    → w.bridges bridge ≡ true
    → w.script ≡ (published true ∷ []) ∷ map sensor evs ∷ later
    → In ev evs
    → IsAbout name ev
    → ev.power ≡ some e
    → let r = send_loop ctx wait_ctx bridge target power true false 1 w in
      (conclude ctx p power r.0 r.1).0 ≡ return none
unfolding emit
sent-success name e x ctx wait_ctx p bridge target power ev evs later w h b script i about q =
    let rest = map sensor evs ∷ later in
    let v = record (emit (command bridge target power) w) { script = rest } in
    let sent = send_loop-once name e x ctx wait_ctx bridge target power rest w h b script in
    let l = Listens-frame name e x v w refl refl refl refl refl h in
    ap (λ r. (conclude ctx p power r.0 r.1).0) sent
    ∙ conclude-success ctx p power v (await_step-success name e x ev evs later v l refl i about q)
