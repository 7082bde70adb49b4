-- ===== src/Scheduler/Confirmation/Telemetry/Listening.antt =====
-- internal/scheduler/pipeline.go: the handler of `waitForPower` on the events of a message.
use valve_controller.Common.{
  ℕ, ℤ, eqb_ℤ, true, false, ◌&&◌, List, [], ◌∷◌, map, none, some, ◌≡◌, refl, sym, ap, subst, ◌∙◌,
  ◌⊎◌, inl, inr, In, arith, Bool-cases, if◌then◌else◌, leb,
}
use valve_controller.Common.Text.{Text}
use valve_controller.Mqtt.Event.{SensorEvent}
use valve_controller.Mqtt.Address.{dispatch_key}
use valve_controller.Mqtt.Dispatcher.{Dispatcher, contains, ids, subs_at, dispatch}
use valve_controller.Mqtt.Dispatcher.Delivery.{contains_iff, reached, dispatch_reaches}
use valve_controller.Mqtt.Dispatcher.Subscriber.{IsNamed}
use valve_controller.Scheduler.World.{
  Ctx, pipeline_ctx, close_ctx, action_ctx, timeout_ctx, sensor, Waiter, World, is_done,
}
use valve_controller.Scheduler.Shared.{power_is, finish_wait}
use valve_controller.Scheduler.Wait.{on_event, watch_ctx, react, observe, observe_all}

-- The event is about the device, by one of the identifiers that it carries.
abbrev pub IsAbout : Text → SensorEvent → Type 0
IsAbout name ev = IsNamed ev.device_name name ⊎ IsNamed ev.short_addr name

-- The wait for the power of a device goes on.
pub record Listens (name : Text) (e : ℤ) (x : Waiter) (w : World) : Type 0 where
  pub waiter : w.waiter ≡ some x
  pub unanswered : x.result ≡ none
  pub expected : x.expected ≡ e
  pub registered : In x.subscription.1 (ids (subs_at (dispatch_key name) w.dispatcher.handlers))
  pub running : is_done x.ctx w ≡ false

abbrev pub IsConfirmed : World → Type 0
IsConfirmed w = (x : Waiter) × (w.waiter ≡ some x) × (x.result ≡ some none)

pub is_done-same :
    (ctx : Ctx) (v w : World)
    → v.now ≡ w.now
    → v.stopped ≡ w.stopped
    → v.action_cancelled ≡ w.action_cancelled
    → is_done ctx v ≡ is_done ctx w
unfolding is_done
is_done-same pipeline_ctx v w n s c = s
is_done-same (close_ctx deadline) v w n s c = ap (leb deadline) n
is_done-same (action_ctx parent) v w n s c = ground (arith, is_done-same parent v w n s c)
is_done-same (timeout_ctx parent deadline) v w n s c = ground (arith, is_done-same parent v w n s c)

pub reached-named :
    (d : Dispatcher (Unit {0})) (n : ℕ) (name s : Text)
    → IsNamed s name
    → In n (ids (subs_at (dispatch_key name) d.handlers))
    → In n (ids (reached d s))
reached-named d n name [] (p, e) i = absurd (p refl)
reached-named d n name (c ∷ s) (p, e) i = rw e i

pub dispatch-about :
    (d : Dispatcher (Unit {0})) (ev : SensorEvent) (n : ℕ) (name : Text)
    → IsAbout name ev
    → In n (ids (subs_at (dispatch_key name) d.handlers))
    → contains n (ids (dispatch d ev)) ≡ true
dispatch-about d ev n name about i = (contains_iff n (ids (dispatch d ev))).1 (
    (dispatch_reaches d ev n).1 (elim about [
      | inl p ↦ inl (reached-named d n name ev.device_name p i)
      | inr p ↦ inr (reached-named d n name ev.short_addr p i)
    ]))

module _ (name : Text) (e : ℤ) (x : Waiter) where
  pub watch_ctx-listening : (w : World) → Listens name e x w → watch_ctx w ≡ w
  unfolding watch_ctx
  watch_ctx-listening w h = ground (arith, h.waiter, h.unanswered, h.running)

pub watch_ctx-IsConfirmed : (w : World) → IsConfirmed w → IsConfirmed (watch_ctx w)
unfolding watch_ctx
watch_ctx-IsConfirmed w (x, h, r) = (x, ground arith, r)

pub on_event-IsConfirmed :
    (ev : SensorEvent) (w : World) → IsConfirmed w → IsConfirmed (on_event ev w)
unfolding on_event
on_event-IsConfirmed ev w (x, h, r) = (x, ground arith, r)

pub eqb_ℤ_refl : (a : ℤ) → eqb_ℤ a a ≡ true
eqb_ℤ_refl a = ground arith

pub finish_wait-IsConfirmed : (x : Waiter) (w : World) → IsConfirmed (finish_wait x none w)
unfolding finish_wait
finish_wait-IsConfirmed x w = (record x { result = some none }, refl, refl)

-- What the handler does while the wait goes on, by its test.
pub on_event-test :
    (name : Text) (e : ℤ) (x : Waiter) (ev : SensorEvent) (w : World)
    → Listens name e x w
    → on_event ev w ≡ (
        if contains x.subscription.1 (ids (dispatch w.dispatcher ev))
          && power_is ev.power x.expected
        then finish_wait x none w
        else w)
unfolding on_event
on_event-test name e x ev w h = ground (arith, h.waiter, h.unanswered)

pub on_event-listening :
    (name : Text) (e : ℤ) (x : Waiter) (ev : SensorEvent) (w : World)
    → Listens name e x w
    → (on_event ev w ≡ w) ⊎ IsConfirmed (on_event ev w)
on_event-listening name e x ev w h =
    let test =
      contains x.subscription.1 (ids (dispatch w.dispatcher ev)) && power_is ev.power x.expected in
    rw (on_event-test name e x ev w h) (elim (Bool-cases test) [
      | inl t ↦ inr (rw t (finish_wait-IsConfirmed x w))
      | inr t ↦ inl (rw t refl)
    ])

pub on_event-about :
    (name : Text) (e : ℤ) (x : Waiter) (ev : SensorEvent) (w : World)
    → Listens name e x w
    → IsAbout name ev
    → ev.power ≡ some e
    → IsConfirmed (on_event ev w)
on_event-about name e x ev w h about p =
    let reached = dispatch-about w.dispatcher ev x.subscription.1 name about h.registered in
    let same : power_is ev.power x.expected ≡ true = rw (p, h.expected) (eqb_ℤ_refl e) in
    rw (on_event-test name e x ev w h) (rw (reached, same) (finish_wait-IsConfirmed x w))

pub observe-IsConfirmed :
    (ev : SensorEvent) (w : World) → IsConfirmed w → IsConfirmed (observe (sensor ev) w)
unfolding observe react
observe-IsConfirmed ev w h = watch_ctx-IsConfirmed (on_event ev w) (on_event-IsConfirmed ev w h)

pub observe-listening :
    (name : Text) (e : ℤ) (x : Waiter) (ev : SensorEvent) (w : World)
    → Listens name e x w
    → (observe (sensor ev) w ≡ w) ⊎ IsConfirmed (observe (sensor ev) w)
unfolding observe react
observe-listening name e x ev w h = elim (on_event-listening name e x ev w h) [
  | inl same ↦ inl (ap watch_ctx same ∙ watch_ctx-listening name e x w h)
  | inr done ↦ inr (watch_ctx-IsConfirmed (on_event ev w) done)
]

pub all-IsConfirmed :
    (evs : List SensorEvent) (w : World)
    → IsConfirmed w
    → IsConfirmed (observe_all (map sensor evs) w)
unfolding observe_all
all-IsConfirmed [] w h = h
all-IsConfirmed (ev ∷ evs) w h =
    all-IsConfirmed evs (observe (sensor ev) w) (observe-IsConfirmed ev w h)

-- Once the event is among those that are dispatched, the wait is over and was confirmed.
pub all-about :
    (name : Text) (e : ℤ) (x : Waiter) (ev : SensorEvent) (evs : List SensorEvent) (w : World)
    → Listens name e x w
    → In ev evs
    → IsAbout name ev
    → ev.power ≡ some e
    → IsConfirmed (observe_all (map sensor evs) w)
unfolding observe_all observe react
all-about name e x ev [] w h i about p = absurd i
all-about name e x ev (ev' ∷ evs) w h (inl same) about p =
    all-IsConfirmed evs (observe (sensor ev') w) (
      subst (λ z. IsConfirmed (observe (sensor z) w)) same
        (watch_ctx-IsConfirmed (on_event ev w) (on_event-about name e x ev w h about p)))
all-about name e x ev (ev' ∷ evs) w h (inr i) about p = elim (observe-listening name e x ev' w h) [
  | inl same ↦
      subst (λ v. IsConfirmed (observe_all (map sensor evs) v)) (sym same)
        (all-about name e x ev evs w h i about p)
  | inr done ↦ all-IsConfirmed evs (observe (sensor ev') w) done
]
