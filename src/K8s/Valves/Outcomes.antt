-- ===== src/K8s/Valves/Outcomes.antt =====
-- internal/k8s/mqttvalve_reconciler.go: what `Reconcile` ensures of the scheduler.
use valve_controller.Common.{
  ℕ, ◌≡◌, ◌≢◌, refl, subst, ap, ◌∙◌, ◌⊎◌, inl, inr, Bool, true, false, List, some, arith,
  Option-cases, if◌then◌else◌,
}
use valve_controller.Common.Text.{Text, eq_text, eq_text_iff, eq_text_refl}
use valve_controller.Device.{ValveInfo, key}
use valve_controller.Scheduler.Valves.{
  Scheduler, Result, ok, err, valve_not_found, register_valve, deregister_valve, get_valve_info,
}
use valve_controller.Scheduler.Valves.Register.{IsOrderly, merged, get_valve_info-register_valve}
use valve_controller.Scheduler.Valves.Refinement.{view, deregister_valve-view}
use valve_controller.K8s.{
  MqttValve, MqttDevice, MqttBridge, Found-cases, found, not_found, Api, ReconcileResult, finished,
  reconcile_failed, requeue_after,
}
use valve_controller.K8s.Valves.{
  valve_config, valve_info, find_device, request_key, configured, configure, reconcile_valve,
}
use valve_controller.K8s.Valves.Status.{Laws}

abbrev pub Answer : Api → Type 0
Answer api = ReconcileResult × Scheduler × api.Store

-- The valve is known under its key by the address and configuration of the device and the bridge.
abbrev pub IsConfigured : MqttValve → MqttDevice → MqttBridge → Result ValveInfo → Type 0
IsConfigured valve dev bridge known =
    (i : ValveInfo) × (known ≡ ok i)
    × (i.config ≡ valve_config valve.spec dev.disabled)
    × (i.bridge_name ≡ bridge.bridge_name)
    × (i.friendly_name ≡ dev.friendly_name)
    × (i.short_addr ≡ dev.short_addr)

-- The answers of the API by which a valve is configured.
abbrev pub Linked : (api : Api) → MqttValve → MqttDevice → MqttBridge → api.Store → Type 0
Linked api valve dev bridge st =
    (devs : List MqttDevice) × (api.list_devices st ≡ some devs)
    × (find_device valve.name valve.namespace devs ≡ some dev)
    × (api.get_bridge dev.bridge_ref.namespace dev.bridge_ref.name st ≡ found bridge)

-- The three ways to finish.
abbrev pub Finished : (api : Api) → Text → Text → Scheduler → Scheduler → api.Store → Type 0
Finished api namespace name s s' st =
    ((api.get_valve namespace name st ≡ not_found) × (s' ≡ s))
    ⊎ (((valve : MqttValve) × (api.get_valve namespace name st ≡ found valve)
          × (valve.deleted ≡ true)
          × (get_valve_info (request_key namespace name) s' ≡ err valve_not_found))
        ⊎ ((valve : MqttValve) × (dev : MqttDevice) × (bridge : MqttBridge) × (api.get_valve
                namespace name st
              ≡ found valve)
            × Linked api valve dev bridge st
            × IsConfigured valve dev bridge (get_valve_info (request_key namespace name) s')))

merged-IsConfigured :
    (valve : MqttValve) (dev : MqttDevice) (bridge : MqttBridge) (old : Result ValveInfo)
    → IsConfigured valve dev bridge (ok (merged (valve_info valve dev bridge) old))
unfolding valve_info
merged-IsConfigured valve dev bridge (err e) =
    (valve_info valve dev bridge, refl, refl, refl, refl, refl)
merged-IsConfigured valve dev bridge (ok i) =
    (merged (valve_info valve dev bridge) (ok i), refl, refl, refl, refl, refl)

valve_info-key :
    (valve : MqttValve) (dev : MqttDevice) (bridge : MqttBridge)
    → key (valve_info valve dev bridge) ≡ request_key valve.namespace valve.name
unfolding valve_info key
valve_info-key valve dev bridge = refl

register_valve-IsConfigured :
    (valve : MqttValve) (dev : MqttDevice) (bridge : MqttBridge) (s : Scheduler)
    → IsOrderly s
    → IsConfigured valve dev bridge (
        get_valve_info
          (request_key valve.namespace valve.name)
          (register_valve (valve_info valve dev bridge) s))
register_valve-IsConfigured valve dev bridge s v =
    let k = request_key valve.namespace valve.name in
    let info = valve_info valve dev bridge in
    rw (get_valve_info-register_valve k info s v) (
      rw (valve_info-key valve dev bridge)
        (rw (eq_text_refl k) (merged-IsConfigured valve dev bridge (get_valve_info k s))))

-- The branches of `Reconcile`, with what is returned.
pub data Way (api : Api) (namespace name : Text) (s : Scheduler) (st : api.Store)
    : Answer api → Type 0 where
  absent :
      api.get_valve namespace name st ≡ not_found → Way api namespace name s st (finished, s, st)
  unread : Way api namespace name s st (reconcile_failed, s, st)
  unlinked : Way api namespace name s st (requeue_after 30, s, st)
  removed :
      (valve : MqttValve)
      → api.get_valve namespace name st ≡ found valve
      → valve.deleted ≡ true
      → Way api namespace name s st (finished, deregister_valve (request_key namespace name) s, st)
  linked :
      (valve : MqttValve) (dev : MqttDevice) (bridge : MqttBridge)
      → api.get_valve namespace name st ≡ found valve
      → Linked api valve dev bridge st
      → Way api namespace name s st (configured api valve dev bridge s st)

configure-Way :
    (api : Api) (namespace name : Text) (s : Scheduler) (st : api.Store) (valve : MqttValve)
    → api.get_valve namespace name st ≡ found valve
    → Way api namespace name s st (configure api valve s st)
unfolding configure
configure-Way api namespace name s st valve h = elim (Option-cases (api.list_devices st)) [
  | inl e ↦ rw (configure, e) unlinked
  | inr (devs, l) ↦ elim (Option-cases (find_device valve.name valve.namespace devs)) [
    | inl e ↦ rw (configure, l) (rw e unlinked)
    | inr (dev, d) ↦
        elim (Found-cases (api.get_bridge dev.bridge_ref.namespace dev.bridge_ref.name st)) [
          | inl e ↦ rw (configure, l) (rw d (rw e unlinked))
          | inr (inl e) ↦ rw (configure, l) (rw d (rw e unlinked))
          | inr (inr (bridge, b)) ↦
              rw (configure, l) (rw d (rw b (linked valve dev bridge h (devs, l, d, b))))
        ]
  ]
]

found-Way :
    (api : Api) (namespace name : Text) (s : Scheduler) (st : api.Store) (valve : MqttValve)
    (b : Bool)
    → api.get_valve namespace name st ≡ found valve
    → valve.deleted ≡ b
    → Way api namespace name s st (
        if b
        then (finished, deregister_valve (request_key namespace name) s, st)
        else configure api valve s st)
found-Way api namespace name s st valve true e gone = removed valve e gone
found-Way api namespace name s st valve false e here = configure-Way api namespace name s st valve e

pub reconcile_valve-Way :
    (api : Api) (namespace name : Text) (s : Scheduler) (st : api.Store)
    → Way api namespace name s st (reconcile_valve api namespace name s st)
unfolding reconcile_valve
reconcile_valve-Way api namespace name s st = elim (Found-cases (api.get_valve namespace name st)) [
  | inl e ↦ rw (reconcile_valve, e) (absent e)
  | inr (inl e) ↦ rw (reconcile_valve, e) unread
  | inr (inr (valve, e)) ↦
      rw (reconcile_valve, e) (found-Way api namespace name s st valve valve.deleted e refl)
]

deregister_valve-unknown :
    (k : Text) (s : Scheduler)
    → IsOrderly s
    → get_valve_info k (deregister_valve k s) ≡ err valve_not_found
deregister_valve-unknown k s v = rw (deregister_valve-view k s v k) (rw (eq_text_refl k) refl)

requeue-ne-finished : (n : ℕ) → ¬ requeue_after n ≡ finished
requeue-ne-finished n h = cc

failed-ne-finished : ¬ reconcile_failed ≡ finished
failed-ne-finished h = cc

own_key :
    (api : Api) (namespace name : Text) (st : api.Store) (valve : MqttValve)
    → Laws api
    → api.get_valve namespace name st ≡ found valve
    → request_key valve.namespace valve.name ≡ request_key namespace name
own_key api namespace name st valve laws e =
    let (n, m) = laws.keyed namespace name st valve e in
    ap (λ x. request_key x valve.name) n ∙ ap (request_key namespace) m

Way-Finished :
    (api : Api) (namespace name : Text) (s : Scheduler) (st : api.Store) (r : Answer api)
    → Laws api
    → IsOrderly s
    → Way api namespace name s st r
    → r.0 ≡ finished
    → Finished api namespace name s r.1 st
Way-Finished api namespace name s st _ laws v (absent e) h = inl (e, refl)
Way-Finished api namespace name s st _ laws v unread h = absurd (failed-ne-finished h)
Way-Finished api namespace name s st _ laws v unlinked h = absurd (requeue-ne-finished 30 h)
Way-Finished api namespace name s st _ laws v (removed valve e gone) h =
    inr (inl (valve, e, gone, deregister_valve-unknown (request_key namespace name) s v))
Way-Finished api namespace name s st _ laws v (linked valve dev bridge e l) h =
    let s' = register_valve (valve_info valve dev bridge) s in
    let known =
      subst (λ k. IsConfigured valve dev bridge (get_valve_info k s'))
        (own_key api namespace name st valve laws e)
        (register_valve-IsConfigured valve dev bridge s v) in
    inr (inr (valve, dev, bridge, e, l, known))

-- Given the documented laws of the API server and a register whose two maps are in order: where
-- `Reconcile` of a valve is finished, and is not called again on its own, the valve is not in the
-- cluster and the scheduler is as it was, or it is being deleted and the scheduler no longer knows
-- it, or the scheduler knows it with the configuration of its spec, the names and the address of
-- its device and the bridge of that device.
pub reconcile_valve-Finished :
    (api : Api) (namespace name : Text) (s : Scheduler) (st : api.Store)
    → Laws api
    → IsOrderly s
    → (reconcile_valve api namespace name s st).0 ≡ finished
    → Finished api namespace name s (reconcile_valve api namespace name s st).1 st
reconcile_valve-Finished api namespace name s st laws v h =
    Way-Finished api namespace name s st (reconcile_valve api namespace name s st) laws v
      (reconcile_valve-Way api namespace name s st) h

Way-unfinished :
    (api : Api) (namespace name : Text) (s : Scheduler) (st : api.Store) (r : Answer api)
    → Way api namespace name s st r
    → r.0 ≢ finished
    → (r.1 ≡ s) × (r.2 ≡ st)
Way-unfinished api namespace name s st _ (absent e) h = absurd (h refl)
Way-unfinished api namespace name s st _ unread h = (refl, refl)
Way-unfinished api namespace name s st _ unlinked h = (refl, refl)
Way-unfinished api namespace name s st _ (removed valve e gone) h = absurd (h refl)
Way-unfinished api namespace name s st _ (linked valve dev bridge e l) h = absurd (h refl)

-- Where `Reconcile` of a valve fails or asks to be called again, it has changed neither the scheduler
-- nor the cluster.
pub reconcile_valve_unfinished :
    (api : Api) (namespace name : Text) (s : Scheduler) (st : api.Store)
    → (reconcile_valve api namespace name s st).0 ≢ finished
    → let r = reconcile_valve api namespace name s st in (r.1 ≡ s) × (r.2 ≡ st)
reconcile_valve_unfinished api namespace name s st h =
    Way-unfinished api namespace name s st (reconcile_valve api namespace name s st)
      (reconcile_valve-Way api namespace name s st) h

Way-isolates :
    (api : Api) (namespace name j : Text) (s : Scheduler) (st : api.Store) (r : Answer api)
    → Laws api
    → IsOrderly s
    → eq_text (request_key namespace name) j ≡ false
    → Way api namespace name s st r
    → view r.1 j ≡ view s j
Way-isolates api namespace name j s st _ laws v ne (absent e) = refl
Way-isolates api namespace name j s st _ laws v ne unread = refl
Way-isolates api namespace name j s st _ laws v ne unlinked = refl
Way-isolates api namespace name j s st _ laws v ne (removed valve e gone) =
    rw (deregister_valve-view (request_key namespace name) s v j) (rw ne refl)
Way-isolates api namespace name j s st _ laws v ne (linked valve dev bridge e l) =
    let info = valve_info valve dev bridge in
    let k = valve_info-key valve dev bridge ∙ own_key api namespace name st valve laws e in
    rw (get_valve_info-register_valve j info s v) (rw k (rw ne refl))

-- Given the documented laws of the API server and a register whose two maps are in order: on every
-- branch `Reconcile` of one valve leaves what is known of every other valve as it was.
pub reconcile_valve_isolates :
    (api : Api) (namespace name j : Text) (s : Scheduler) (st : api.Store)
    → Laws api
    → IsOrderly s
    → request_key namespace name ≢ j
    → get_valve_info j (reconcile_valve api namespace name s st).1 ≡ get_valve_info j s
reconcile_valve_isolates api namespace name j s st laws v ne =
    Way-isolates api namespace name j s st (reconcile_valve api namespace name s st) laws v
      (ground (arith, eq_text_iff (request_key namespace name) j))
      (reconcile_valve-Way api namespace name s st)
