-- ===== src/Scheduler/Valves/Refinement.antt =====
-- internal/scheduler/scheduler.go: the register as its callers see it, a map from keys to what is
-- known of each valve. Addresses, cancel functions and pipelines are forgotten.
use mathlib.Core.Path.{fun_ext}
use valve_controller.Common.{
  ℕ, ◌≡◌, refl, sym, subst, ap, ◌⊎◌, ◌∙◌, List, [], ◌∷◌, inl, inr, arith, Option-cases, Bool-cases,
  if◌then◌else◌, pos,
}
use valve_controller.Common.Text.{Text, eq_text, eq_text_iff}
use valve_controller.Common.Dict.{lookup, lookup-delete}
use valve_controller.Device.{ValveInfo, Duration, key}
use valve_controller.Mqtt.Event.{SensorEvent}
use valve_controller.Scheduler.Action.{ActionType, close}
use valve_controller.Scheduler.World.{World, emit}
use valve_controller.Scheduler.Shared.{submit, alloc, enqueue}
use valve_controller.Scheduler.Valves.{
  Scheduler, Result, ok, err, valve_not_found, new_scheduler, at_pipe, register_valve,
  deregister_valve, get_pipeline, request_open, request_close, get_valve_info, set_if, set_int32_if,
  sense, update_sensor_fields,
}
use valve_controller.Scheduler.Valves.Register.{
  IsOrderly, new_scheduler-IsOrderly, register_valve-IsOrderly, deregister_valve-IsOrderly, merged,
  get_valve_info-register_valve,
}
use valve_controller.Scheduler.Valves.Requests.{Result-cases, opening}

-- The calls that change the register.
pub data Request : Type 0 where
  registers : ValveInfo → Request
  deregisters : Text → Request
  opens : Text → Duration → Request
  closes : Text → Request
  senses : Text → SensorEvent → Request

unfoldable pub serve : Request → Scheduler → Scheduler
serve (registers info) s = register_valve info s
serve (deregisters k) s = deregister_valve k s
serve (opens k d) s = (request_open k d s).1
serve (closes k) s = (request_close k s).1
serve (senses k ev) s = update_sensor_fields k ev s

unfoldable pub serve_all : List Request → Scheduler → Scheduler
serve_all [] s = s
serve_all (r ∷ rs) s = serve_all rs (serve r s)

abbrev pub View : Type 0
View = Text → Result ValveInfo

-- `GetValveInfo` at every key.
abbrev pub view : Scheduler → View
view s k = get_valve_info k s

abbrev pub sensed : SensorEvent → Result ValveInfo → Result ValveInfo
sensed ev (err e) = err e
sensed ev (ok i) = ok (record i {
  link_quality = set_int32_if ev.link_quality i.link_quality;
  battery_percentage = set_int32_if ev.battery_percentage i.battery_percentage;
  daily_irrigation_volume = set_if ev.daily_irrigation_volume i.daily_irrigation_volume;
  last_valve_open_duration = set_if ev.last_valve_open_duration i.last_valve_open_duration;
})

abbrev pub registered : ValveInfo → Result ValveInfo → Result ValveInfo
registered info old = ok (merged info old)

abbrev pub at_key : Text → (Result ValveInfo → Result ValveInfo) → View → View
at_key k f v j = if eq_text k j then f (v j) else v j

-- What each call promises for the map.
unfoldable pub promised : Request → View → View
promised (registers info) v = at_key (key info) (registered info) v
promised (deregisters k) v = at_key k (λ _. err valve_not_found) v
promised (opens k d) v = v
promised (closes k) v = v
promised (senses k ev) v = at_key k (sensed ev) v

unfoldable pub promised_all : List Request → View → View
promised_all [] v = v
promised_all (r ∷ rs) v = promised_all rs (promised r v)

at_pipe-IsOrderly :
    (a : ℕ) (f : World → World) (s : Scheduler) → IsOrderly s → IsOrderly (at_pipe a f s)
at_pipe-IsOrderly a f s v = record {
  agree = v.agree;
  allocated = v.allocated;
  single = v.single;
  distinct = v.distinct;
}

-- `Open` and `Close` change nothing, or one action is submitted to one pipeline.
abbrev pub Submits : Scheduler → Scheduler → Type 0
Submits s s' =
    (s' ≡ s) ⊎ ((a : ℕ) × (t : ActionType) × (d : Duration) × (s' ≡ at_pipe a (submit t d) s))

pub request_open-Submits :
    (k : Text) (d : Duration) (s : Scheduler) → Submits s (request_open k d s).1
unfolding request_open
request_open-Submits k d s = elim (Result-cases (get_pipeline k s)) [
  | inl (e, h) ↦ inl (rw (request_open, h) refl)
  | inr (a, h) ↦ elim (Bool-cases (s.pipes a).info.config.disabled) [
    | inl off ↦ inl (rw (request_open, h) (rw off refl))
    | inr on ↦ inr (a, opening d, d, rw (request_open, h) (rw on refl))
  ]
]

pub request_close-Submits : (k : Text) (s : Scheduler) → Submits s (request_close k s).1
unfolding request_close
request_close-Submits k s = elim (Result-cases (get_pipeline k s)) [
  | inl (e, h) ↦ inl (rw (request_close, h) refl)
  | inr (a, h) ↦ inr (a, close, pos 0, rw (request_close, h) refl)
]

pub Submits-get_pipeline :
    (s s' : Scheduler) → Submits s s' → (k : Text) → get_pipeline k s' ≡ get_pipeline k s
unfolding get_pipeline
Submits-get_pipeline s s' (inl e) k = ap (get_pipeline k) e
Submits-get_pipeline s s' (inr (a, t, d, e)) k = ap (get_pipeline k) e

Submits-IsOrderly : (s s' : Scheduler) → Submits s s' → IsOrderly s → IsOrderly s'
Submits-IsOrderly s s' (inl e) v = subst IsOrderly (sym e) v
Submits-IsOrderly s s' (inr (a, t, d, e)) v =
    subst IsOrderly (sym e) (at_pipe-IsOrderly a (submit t d) s v)

update_sensor_fields-IsOrderly :
    (k : Text) (ev : SensorEvent) (s : Scheduler)
    → IsOrderly s
    → IsOrderly (update_sensor_fields k ev s)
unfolding update_sensor_fields
update_sensor_fields-IsOrderly k ev s v = elim (Option-cases (lookup k s.pipelines)) [
  | inl e ↦ rw (update_sensor_fields, e) v
  | inr (a, e) ↦ rw (update_sensor_fields, e) (at_pipe-IsOrderly a (sense ev) s v)
]

pub serve-IsOrderly : (r : Request) (s : Scheduler) → IsOrderly s → IsOrderly (serve r s)
unfolding serve
serve-IsOrderly (registers info) s v = register_valve-IsOrderly info s v
serve-IsOrderly (deregisters k) s v = deregister_valve-IsOrderly k s v
serve-IsOrderly (opens k d) s v = Submits-IsOrderly s _ (request_open-Submits k d s) v
serve-IsOrderly (closes k) s v = Submits-IsOrderly s _ (request_close-Submits k s) v
serve-IsOrderly (senses k ev) s v = update_sensor_fields-IsOrderly k ev s v

-- What is done to a pipeline without a change of its info changes no view.
submit-view :
    (a : ℕ) (t : ActionType) (d : Duration) (s : Scheduler) (j : Text)
    → view (at_pipe a (submit t d) s) j ≡ view s j
unfolding get_valve_info get_pipeline submit enqueue alloc
submit-view a t d s j = elim (Option-cases (lookup j s.pipelines)) [
  | inl e ↦ ground (arith, e)
  | inr (b, e) ↦ ground (arith, e)
]

Submits-view : (s s' : Scheduler) → Submits s s' → (j : Text) → view s' j ≡ view s j
Submits-view s s' (inl e) j = ap (λ x. view x j) e
Submits-view s s' (inr (a, t, d, e)) j = ap (λ x. view x j) e ∙ submit-view a t d s j

pub deregister_valve-view :
    (k : Text) (s : Scheduler)
    → IsOrderly s
    → (j : Text)
    → view (deregister_valve k s) j ≡ (if eq_text k j then err valve_not_found else view s j)
unfolding deregister_valve get_valve_info get_pipeline
deregister_valve-view k s v j = elim (Option-cases (lookup k s.cancels)) [
  | inl e ↦ rw (deregister_valve, e) (ground (arith, e, v.agree k, eq_text_iff k j))
  | inr (a, e) ↦ elim (Option-cases (lookup j s.pipelines)) [
    | inl h ↦ rw (deregister_valve, e) (ground (arith, h, lookup-delete k j s.pipelines))
    | inr (b, h) ↦
        rw (deregister_valve, e)
          (ground (arith, h, e, lookup-delete k j s.pipelines, v.agree k, v.single j k b))
  ]
]

update_sensor_fields-view :
    (k : Text) (ev : SensorEvent) (s : Scheduler)
    → IsOrderly s
    → (j : Text)
    → view (update_sensor_fields k ev s) j
      ≡ (if eq_text k j then sensed ev (view s j) else view s j)
unfolding update_sensor_fields get_valve_info get_pipeline sense emit
update_sensor_fields-view k ev s v j = elim (Option-cases (lookup k s.pipelines)) [
  | inl e ↦ elim (Option-cases (lookup j s.pipelines)) [
    | inl h ↦ rw (update_sensor_fields, e) (ground (arith, h))
    | inr (b, h) ↦ rw (update_sensor_fields, e) (ground (arith, h, eq_text_iff k j))
  ]
  | inr (a, e) ↦ elim (Option-cases (lookup j s.pipelines)) [
    | inl h ↦ rw (update_sensor_fields, e) (ground (arith, h))
    | inr (b, h) ↦ rw (update_sensor_fields, e) (ground (arith, h, eq_text_iff k j, v.single j k a))
  ]
]

-- One call does to the view what is promised.
serve-promised :
    (r : Request) (s : Scheduler) → IsOrderly s → view (serve r s) ≡ promised r (view s)
unfolding serve promised
serve-promised (registers info) s v = fun_ext (λ j. get_valve_info-register_valve j info s v)
serve-promised (deregisters k) s v = fun_ext (deregister_valve-view k s v)
serve-promised (opens k d) s v = fun_ext (Submits-view s _ (request_open-Submits k d s))
serve-promised (closes k) s v = fun_ext (Submits-view s _ (request_close-Submits k s))
serve-promised (senses k ev) s v = fun_ext (update_sensor_fields-view k ev s v)

serve_all-promised :
    (rs : List Request) (s : Scheduler)
    → IsOrderly s
    → view (serve_all rs s) ≡ promised_all rs (view s)
unfolding serve_all promised_all
serve_all-promised [] s v = refl
serve_all-promised (r ∷ rs) s v =
    serve_all-promised rs (serve r s) (serve-IsOrderly r s v)
    ∙ ap (promised_all rs) (serve-promised r s v)

new_scheduler-view :
    (pipes : ℕ → World) (j : Text) → view (new_scheduler pipes) j ≡ err valve_not_found
unfolding new_scheduler get_valve_info get_pipeline lookup
new_scheduler-view pipes j = refl

-- From an empty register on, whatever calls are made in whatever order, `GetValveInfo` answers for
-- every key as a plain map would: a registration adds the valve, or reconfigures it and keeps its live
-- state, a removal takes it out, a sensor report changes its sensor fields only, no call touches
-- another key, and an open or a close changes nothing that is known of a valve.
pub serve_all-refines :
    (rs : List Request) (pipes : ℕ → World)
    → view (serve_all rs (new_scheduler pipes)) ≡ promised_all rs (λ _. err valve_not_found)
serve_all-refines rs pipes =
    serve_all-promised rs (new_scheduler pipes) (new_scheduler-IsOrderly pipes)
    ∙ ap (promised_all rs) (fun_ext (new_scheduler-view pipes))
