-- ===== src/K8s/Valves/Devices.antt =====
-- internal/k8s/mqttvalve_reconciler.go: which valves a device and a bridge concern.
use valve_controller.Common.{
  ◌≡◌, refl, sym, subst, ◌↔◌, In-append_cases, inl, inr, true, false, List, [], ◌∷◌, ◌++◌, Option,
  none, some, arith, In, In-append, Bool-cases,
}
use valve_controller.Common.Text.{Text, eq_text_iff}
use valve_controller.K8s.{ObjectRef, TypeRef, MqttDevice, MqttBridge, Api}
use valve_controller.K8s.Valves.{
  refers_to, find_device, valve_requests, is_on, bridge_requests, map_device_to_valve,
  map_bridge_to_valves,
}

abbrev pub valve_request : Text → Text → ObjectRef
valve_request name namespace = record { name = name; namespace = namespace }

refers_to-requests :
    (name namespace : Text) (ref : Option TypeRef)
    → refers_to name namespace ref ≡ true
    → valve_requests ref ≡ valve_request name namespace ∷ []
refers_to-requests name namespace none h = cc
refers_to-requests name namespace (some ref) h =
    ground (arith, eq_text_iff ref.name name, eq_text_iff ref.namespace namespace)

find_device-In :
    (name namespace : Text) (devs : List MqttDevice) (dev : MqttDevice)
    → find_device name namespace devs ≡ some dev
    → In dev devs × (refers_to name namespace dev.type_ref ≡ true)
unfolding find_device
find_device-In name namespace [] dev h = cc
find_device-In name namespace (d ∷ devs) dev h =
    elim (Bool-cases (refers_to name namespace d.type_ref)) [
      | inl e ↦
          let same : dev ≡ d = cc in
          (inl same, subst (λ x. refers_to name namespace x.type_ref ≡ true) (sym same) e)
      | inr e ↦ let (i, r) = find_device-In name namespace devs dev cc in (inr i, r)
    ]

-- What a device asks for: the valve it refers to.
abbrev pub Concerns : ObjectRef → MqttBridge → MqttDevice → Type 0
Concerns req bridge dev = (is_on bridge dev ≡ true) × In req (map_device_to_valve (some dev))

bridge_requests-on :
    (bridge : MqttBridge) (d : MqttDevice) (devs : List MqttDevice)
    → is_on bridge d ≡ true
    → bridge_requests bridge (d ∷ devs) ≡ valve_requests d.type_ref ++ bridge_requests bridge devs
unfolding bridge_requests
bridge_requests-on bridge d devs e = ground arith

bridge_requests-off :
    (bridge : MqttBridge) (d : MqttDevice) (devs : List MqttDevice)
    → is_on bridge d ≡ false
    → bridge_requests bridge (d ∷ devs) ≡ bridge_requests bridge devs
unfolding bridge_requests
bridge_requests-off bridge d devs e = ground arith

-- A device of the list that sits on the bridge and asks for the valve.
abbrev pub Concerned : ObjectRef → MqttBridge → List MqttDevice → Type 0
Concerned req bridge devs = (dev : MqttDevice) × In dev devs × Concerns req bridge dev

still_Concerned :
    (req : ObjectRef) (bridge : MqttBridge) (d : MqttDevice) (devs : List MqttDevice)
    → Concerned req bridge devs
    → Concerned req bridge (d ∷ devs)
still_Concerned req bridge d devs (dev, i, c) = (dev, inr i, c)

requests-Concerned :
    (req : ObjectRef) (bridge : MqttBridge) (devs : List MqttDevice)
    → In req (bridge_requests bridge devs)
    → Concerned req bridge devs
unfolding bridge_requests map_device_to_valve
requests-Concerned req bridge [] h = absurd h
requests-Concerned req bridge (d ∷ devs) h = elim (Bool-cases (is_on bridge d)) [
  | inl e ↦
      elim (In-append_cases req (valve_requests d.type_ref) (bridge_requests bridge devs)
        (subst (In req) (bridge_requests-on bridge d devs e) h)) [
          | inl here ↦ (d, inl refl, (e, here))
          | inr z ↦ still_Concerned req bridge d devs (requests-Concerned req bridge devs z)
        ]
  | inr e ↦
      still_Concerned req bridge d devs (
        requests-Concerned req bridge devs (subst (In req) (bridge_requests-off bridge d devs e) h))
]

Concerned-requests :
    (req : ObjectRef) (bridge : MqttBridge) (devs : List MqttDevice)
    → Concerned req bridge devs
    → In req (bridge_requests bridge devs)
unfolding map_device_to_valve
Concerned-requests req bridge [] (dev, i, c) = absurd i
Concerned-requests req bridge (d ∷ devs) (dev, inl same, (on, asks)) =
    let e = subst (λ x. is_on bridge x ≡ true) same on in
    let here = subst (λ x. In req (valve_requests x.type_ref)) same asks in
    subst (In req) (sym (bridge_requests-on bridge d devs e))
      (In-append req (valve_requests d.type_ref) (bridge_requests bridge devs) (inl here))
Concerned-requests req bridge (d ∷ devs) (dev, inr i, c) =
    let z = Concerned-requests req bridge devs (dev, i, c) in
    elim (Bool-cases (is_on bridge d)) [
      | inl e ↦
          subst (In req) (sym (bridge_requests-on bridge d devs e))
            (In-append req (valve_requests d.type_ref) (bridge_requests bridge devs) (inr z))
      | inr e ↦ subst (In req) (sym (bridge_requests-off bridge d devs e)) z
    ]

-- Where the devices can be listed, a change of a bridge asks for exactly the valves that the
-- listed devices on the bridge ask for when they change themselves.
pub map_bridge_to_valves_iff :
    (api : Api) (st : api.Store) (bridge : MqttBridge) (devs : List MqttDevice) (req : ObjectRef)
    → api.list_devices st ≡ some devs
    → In req (map_bridge_to_valves api (some bridge) st) ↔ Concerned req bridge devs
unfolding map_bridge_to_valves
map_bridge_to_valves_iff api st bridge devs req h =
    rw (map_bridge_to_valves, h)
      (requests-Concerned req bridge devs, Concerned-requests req bridge devs)

-- Where the devices can be listed, a valve whose device, as `findDevice` finds it, sits on a
-- bridge is reconciled when that device changes and when that bridge changes.
pub find_device-requests :
    (api : Api) (st : api.Store) (bridge : MqttBridge) (devs : List MqttDevice) (dev : MqttDevice)
    (name namespace : Text)
    → api.list_devices st ≡ some devs
    → find_device name namespace devs ≡ some dev
    → is_on bridge dev ≡ true
    → let req = valve_request name namespace in
      In req (map_device_to_valve (some dev)) × In req (map_bridge_to_valves api (some bridge) st)
unfolding map_device_to_valve
find_device-requests api st bridge devs dev name namespace l h on =
    let req = valve_request name namespace in
    let (i, r) = find_device-In name namespace devs dev h in
    let asks : In req (valve_requests dev.type_ref) =
      subst (In req) (sym (refers_to-requests name namespace dev.type_ref r)) (inl refl) in
    (asks, (map_bridge_to_valves_iff api st bridge devs req l).1 (dev, i, (on, asks)))
