-- ===== src/Rest/Handlers/Managed.antt =====
-- The reconciler of internal/k8s/mqttvalve_reconciler.go, the scheduler and internal/api/handler.go
-- together: what a valve of the cluster can be told once it is reconciled.
pub mod Ready
use valve_controller.Common.{
  ℕ, suc, ◌≡◌, refl, sym, ap, subst, ◌∙◌, ◌||◌, Bool, true, false, ◌++◌, ◌∷◌, Option, none, some,
  inl, inr, arith, Bool-cases, Option-cases, if◌then◌else◌,
}
use valve_controller.Common.Text.{Text, text, is_empty, slash, NoSlash, has_slash}
use valve_controller.Common.Dict.{lookup}
use valve_controller.Device.{Duration, ValveInfo, key}
use valve_controller.Scheduler.World.{Ptr, World, emit}
use valve_controller.Scheduler.Shared.{update_config, set_gauge}
use valve_controller.Scheduler.Reachable.{IsSound, new_pipeline-IsSound}
use valve_controller.Scheduler.Valves.{
  Scheduler, Result, ok, err, valve_disabled, new_pipeline, register_valve, deregister_valve,
  get_pipeline, get_valve_info, request_open, request_close,
}
use valve_controller.Scheduler.Valves.Register.{IsOrderly}
use valve_controller.Scheduler.Valves.Requests.{
  Result-cases, request_close-IsQueued, request_open_cases,
}
use valve_controller.Scheduler.Valves.Refinement.{
  request_open-Submits, request_close-Submits, Submits-get_pipeline,
}
use valve_controller.K8s.{MqttValve, MqttDevice, MqttBridge, found, not_found, Api, finished}
use valve_controller.K8s.Valves.{request_key, reconcile_valve, valve_config}
use valve_controller.K8s.Valves.Status.{Laws}
use valve_controller.K8s.Valves.Outcomes.{
  Answer, IsConfigured, Linked, Finished, Way, absent, unread, unlinked, removed, linked,
  reconcile_valve-Way, reconcile_valve-Finished,
}
use valve_controller.Rest.{HttpRequest, open_route, close_route, Response, Server}
use valve_controller.Rest.Views.{classify_error}
use valve_controller.Rest.Handlers.{
  request_namespace, resolve_valve_key, wanted_duration, accepted, show_action, handle_open_valve,
  handle_close_valve, require_client_cert, route, write_error,
}
use valve_controller.Rest.Handlers.Effects.{shown-action}
use valve_controller.Rest.Handlers.Keys.{NoSlash-has_slash}
use valve_controller.Rest.Handlers.Access.{is_verified}
use valve_controller.Rest.Handlers.Completion.{
  IsReady, AllReady, at_pipe-AllReady, Ends, route-Ends,
}
use valve_controller.Rest.Handlers.Managed.Ready.{Way-AllReady}

get_valve_info-ok :
    (k : Text) (i : ValveInfo) (s : Scheduler)
    → get_valve_info k s ≡ ok i
    → (a : ℕ) × (get_pipeline k s ≡ ok a) × ((s.pipes a).info ≡ i)
unfolding get_valve_info
get_valve_info-ok k i s h = elim (Result-cases (get_pipeline k s)) [
  | inl (e, p) ↦ ground (arith, p)
  | inr (a, p) ↦ (a, p, ground (arith, p))
]

module _ (k : Text) (a : ℕ) (h : Server) (known : get_pipeline k h.sched ≡ ok a) where
  accepted-status :
      (s' : Scheduler) (r : Result Ptr) (p : Ptr)
      → r ≡ ok p
      → get_pipeline k s' ≡ ok a
      → (accepted k (r, s') h).0.status ≡ 202
  accepted-status s' r p e known' =
      subst (λ x. (accepted k (x, s') h).0.status ≡ 202) (sym e)
        (ap (λ x. x.status) (shown-action 202 k a p s' known'))

  pub close-status : (accepted k (request_close k h.sched) h).0.status ≡ 202
  close-status =
      accepted-status (request_close k h.sched).1 (request_close k h.sched).0
        (h.sched.pipes a).next_ptr (request_close-IsQueued k a h.sched known).0
        (Submits-get_pipeline h.sched (request_close k h.sched).1 (request_close-Submits k h.sched)
            k
          ∙ known)

  open-status :
      (d : Duration)
      → (accepted k (request_open k d h.sched) h).0.status
        ≡ (if (h.sched.pipes a).info.config.disabled then 422 else 202)
  unfolding request_open write_error classify_error
  open-status d = elim (Bool-cases (h.sched.pipes a).info.config.disabled) [
    | inl off ↦ rw (request_open, known) (rw off refl)
    | inr on ↦
        let sub = request_open-Submits k d h.sched in
        let answered : (request_open k d h.sched).0 ≡ ok (h.sched.pipes a).next_ptr =
          rw (request_open, known) (rw on refl) in
        rw on (
          accepted-status (request_open k d h.sched).1 (request_open k d h.sched).0
            (h.sched.pipes a).next_ptr answered
            (Submits-get_pipeline h.sched (request_open k d h.sched).1 sub k ∙ known))
  ]

-- A request with a verified certificate that names the valve beside its namespace.
pub record IsFor (namespace name : Text) (r : HttpRequest) : Type 0 where
  pub verified : is_verified r ≡ true
  pub says : request_namespace r ≡ namespace
  pub full : is_empty namespace ≡ false
  pub plain : NoSlash name

pub verified-passes :
    (next : HttpRequest → Server → Response × Server) (r : HttpRequest) (h : Server)
    → is_verified r ≡ true
    → require_client_cert next r h ≡ next r h
unfolding require_client_cert
verified-passes next r h v = elim (Option-cases r.verified_chains) [
  | inl n ↦ ground (arith, n, v)
  | inr (c, n) ↦ ground (arith, n, v)
]

module _ (namespace name : Text) (r : HttpRequest) (for : IsFor namespace name r) where
  pub resolved : (s : Scheduler) → resolve_valve_key name r s ≡ ok (request_key namespace name)
  unfolding resolve_valve_key
  resolved s = rw (NoSlash-has_slash name for.plain) (rw (for.says) (rw (for.full) refl))

  pub close-accepted :
      (pd : Text → Option Duration) (h : Server)
      → route pd (close_route name) r h
        ≡ accepted
            (request_key namespace name)
            (request_close (request_key namespace name) h.sched)
            h
  unfolding route handle_close_valve
  close-accepted pd h =
      verified-passes (handle_close_valve name) r h for.verified
      ∙ rw (handle_close_valve, resolved h.sched) refl

  open-accepted :
      (pd : Text → Option Duration) (d : Duration) (h : Server)
      → wanted_duration pd (r.query (text "duration")) ≡ inr d
      → route pd (open_route name) r h
        ≡ accepted
            (request_key namespace name)
            (request_open (request_key namespace name) d h.sched)
            h
  unfolding route handle_open_valve
  open-accepted pd d h w =
      verified-passes (handle_open_valve pd name) r h for.verified
      ∙ rw (handle_open_valve, resolved h.sched) (rw w refl)

-- What an API request for a valve of the cluster comes to, the scheduler being that of `h`.
abbrev pub Commanded :
    (takes_done : ℕ → Bool) → (Text → Option Duration) → Text → HttpRequest → Bool → Server → Type 0
Commanded c pd name r disabled h =
    ((route pd (close_route name) r h).0.status ≡ 202)
    × Ends c (route pd (close_route name) r h)
    × ((route pd (open_route name) r h).0.status ≡ (if disabled then 422 else 202))

configured-Commanded :
    (c : ℕ → Bool) (pd : Text → Option Duration) (d : Duration) (namespace name : Text)
    (r : HttpRequest) (h : Server) (valve : MqttValve) (dev : MqttDevice) (bridge : MqttBridge)
    → IsFor namespace name r
    → wanted_duration pd (r.query (text "duration")) ≡ inr d
    → AllReady h.sched
    → IsConfigured valve dev bridge (get_valve_info (request_key namespace name) h.sched)
    → Commanded c pd name r (valve.spec.disabled || dev.disabled) h
unfolding valve_config
configured-Commanded c pd d namespace name r h valve dev bridge for w ready
      (i, known, config, _, _, _) =
    let k = request_key namespace name in
    let (a, p, same) = get_valve_info-ok k i h.sched known in
    let closed =
      ap (λ x. x.0.status) (close-accepted namespace name r for pd h) ∙ close-status k a h p in
    let off = ap (λ x. x.config.disabled) same ∙ ap (λ x. x.disabled) config in
    (
      closed,
      route-Ends c pd (close_route name) r h ready closed,
      ap (λ x. x.0.status) (open-accepted namespace name r for pd d h w)
          ∙ open-status k a h p d
          ∙ ap (λ (b : Bool). if b then 422 else 202) off,
    )

found-injective : (a b : MqttValve) → found a ≡ found b → a ≡ b
found-injective a b h = ap (λ x. elim x [ found v ↦ v | _ ↦ a ]) h

found-ne-not_found : (a : MqttValve) → ¬ found a ≡ not_found
found-ne-not_found a h = cc

still-here : (a b : MqttValve) → found a ≡ found b → a.deleted ≡ false → ¬ b.deleted ≡ true
still-here a b h here gone = cc (ap (λ x. x.deleted) (found-injective a b h))

-- Given the documented laws of the API server, a register whose two maps are in order, and pipelines
-- with a free action slot, a queue within its bounds and neither a further request nor a stop to come,
-- of which none of a registered valve has been stopped: once `Reconcile` of a valve that is in the cluster and not being deleted has finished, the valve has a
-- device and that a bridge, and an API request with a verified certificate that names the valve and
-- its namespace is accepted if it is a close, and this close ends within as many rounds as actions
-- wait; if it is an open, with a valid duration or none, it is accepted exactly when neither the
-- valve nor the device is disabled.
pub reconciled_valve-Commanded :
    (c : ℕ → Bool) (api : Api) (pd : Text → Option Duration) (d : Duration) (namespace name : Text)
    (st : api.Store) (r : HttpRequest) (h : Server) (valve : MqttValve)
    → Laws api
    → IsOrderly h.sched
    → AllReady h.sched
    → api.get_valve namespace name st ≡ found valve
    → valve.deleted ≡ false
    → (reconcile_valve api namespace name h.sched st).0 ≡ finished
    → IsFor namespace name r
    → wanted_duration pd (r.query (text "duration")) ≡ inr d
    → let h' = record h { sched = (reconcile_valve api namespace name h.sched st).1 } in
      (dev : MqttDevice) × (bridge : MqttBridge) × Linked api valve dev bridge st
      × Commanded c pd name r (valve.spec.disabled || dev.disabled) h'
reconciled_valve-Commanded c api pd d namespace name st r h valve laws v ready e here done for w =
    let s' = (reconcile_valve api namespace name h.sched st).1 in
    let h' = record h { sched = s' } in
    let ready' =
      Way-AllReady api namespace name h.sched st (reconcile_valve api namespace name h.sched st)
        (reconcile_valve-Way api namespace name h.sched st)
        (λ x e' gone. still-here valve x (sym e ∙ e') here gone) ready in
    elim (reconcile_valve-Finished api namespace name h.sched st laws v done) [
      | inl (gone, _) ↦ absurd (found-ne-not_found valve (sym e ∙ gone))
      | inr (inl (valve', e', gone, _)) ↦ absurd (still-here valve valve' (sym e ∙ e') here gone)
      | inr (inr (valve', dev, bridge, e', l, g)) ↦
          let same = found-injective valve' valve (sym e' ∙ e) in
          (
            dev,
            bridge,
            subst (λ x. Linked api x dev bridge st) same l,
            configured-Commanded c pd d namespace name r h' valve dev bridge for w ready' (
                subst
                  (λ x. IsConfigured x dev bridge (get_valve_info (request_key namespace name) s'))
                  same g),
          )
    ]
