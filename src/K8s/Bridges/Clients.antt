-- ===== src/K8s/Bridges/Clients.antt =====
-- internal/k8s/mqttbridge_reconciler.go: what `Reconcile` ensures of the clients.
use valve_controller.Common.{
  ◌≡◌, pos, refl, sym, subst, ap, ◌∙◌, ◌⊎◌, inl, inr, Bool, true, false, none, some, arith,
  Option-cases, if◌then◌else◌, map, eqb_ℤ,
}
use valve_controller.Common.Text.{Text, eq_text_iff}
use valve_controller.Common.Dict.{lookup, lookup-delete_self}
use valve_controller.Mqtt.Bridge.{BridgeConfig, BridgeClient}
use valve_controller.Mqtt.Manager.{Manager, upsert, remove, same_config}
use valve_controller.Mqtt.Manager.Clients.{completed, topics_equal_iff, upsert-same_config}
use valve_controller.K8s.{
  MqttBridge, Found-cases, found, not_found, get_failed, Api, finished, reconcile_failed,
}
use valve_controller.K8s.Valves.{or_default}
use valve_controller.K8s.Bridges.{
  topic_entry, bridge_config, credentials, with_credentials, connect_bridge, reconcile_bridge,
}

-- The manager has a client for the bridge, with its host, port and topics and the user name of its
-- credentials.
abbrev pub HasClient : (api : Api) → MqttBridge → Manager → api.Store → Type 0
HasClient api bridge mgr st =
    (c : Text × Text) × (bc : BridgeClient) × (credentials api bridge.credentials_secret_ref st
      ≡ some c)
    × (lookup bridge.bridge_name mgr.bridges ≡ some bc)
    × (bc.cfg.host ≡ bridge.host)
    × (eqb_ℤ bc.cfg.port (or_default bridge.port (pos 1883)) ≡ true)
    × (bc.cfg.username ≡ c.0)
    × (bc.cfg.topics ≡ map topic_entry bridge.topics)

-- The three ways to finish.
abbrev pub BridgeFinished : (api : Api) → Text → Text → Manager → Manager → api.Store → Type 0
BridgeFinished api namespace name mgr mgr' st =
    ((api.get_bridge namespace name st ≡ not_found) × (mgr' ≡ mgr))
    ⊎ (((bridge : MqttBridge) × (api.get_bridge namespace name st ≡ found bridge)
          × (bridge.deleted ≡ true)
          × (lookup bridge.bridge_name mgr'.bridges ≡ none))
        ⊎ ((bridge : MqttBridge) × (api.get_bridge namespace name st ≡ found bridge)
            × HasClient api bridge mgr' st))

same_config-parts :
    (old cfg : BridgeConfig)
    → same_config old cfg ≡ true
    → (old.host ≡ cfg.host)
      × (eqb_ℤ old.port cfg.port ≡ true)
      × (old.username ≡ cfg.username)
      × (old.topics ≡ cfg.topics)
unfolding same_config
same_config-parts old cfg h = ground (
  arith,
  eq_text_iff old.host cfg.host,
  eq_text_iff old.username cfg.username,
  topics_equal_iff old.topics cfg.topics,
)

connect_bridge-credentials :
    (api : Api) (bridge : MqttBridge) (connects : Bool) (mgr : Manager) (st : api.Store)
    (c : Text × Text)
    → credentials api bridge.credentials_secret_ref st ≡ some c
    → let r = upsert (with_credentials api c (bridge_config bridge)) connects mgr in
      connect_bridge api bridge connects mgr st ≡ (if r.0 then finished else reconcile_failed, r.1)
unfolding connect_bridge
connect_bridge-credentials api bridge connects mgr st c e = rw (connect_bridge, e) refl

-- Where the credentials of a bridge cannot be read, `Reconcile` fails and touches no client.
connect_bridge_refused :
    (api : Api) (bridge : MqttBridge) (connects : Bool) (mgr : Manager) (st : api.Store)
    → credentials api bridge.credentials_secret_ref st ≡ none
    → connect_bridge api bridge connects mgr st ≡ (reconcile_failed, mgr)
unfolding connect_bridge
connect_bridge_refused api bridge connects mgr st e = rw (connect_bridge, e) refl

failed-ne-finished : ¬ reconcile_failed ≡ finished
failed-ne-finished h = cc

succeeded : (b : Bool) → (if b then finished else reconcile_failed) ≡ finished → b ≡ true
succeeded b h = ground arith

upsert-HasClient :
    (api : Api) (bridge : MqttBridge) (connects : Bool) (mgr : Manager) (st : api.Store)
    (c : Text × Text)
    → credentials api bridge.credentials_secret_ref st ≡ some c
    → (upsert (with_credentials api c (bridge_config bridge)) connects mgr).0 ≡ true
    → HasClient api bridge
        (upsert (with_credentials api c (bridge_config bridge)) connects mgr).1
        st
unfolding bridge_config
upsert-HasClient api bridge connects mgr st c e h =
    let cfg = with_credentials api c (bridge_config bridge) in
    let (bc, here, same) = upsert-same_config cfg connects mgr h in
    let (host, port, user, topics) = same_config-parts bc.cfg (completed cfg mgr) same in
    (c, bc, e, here, host, port, user, topics)

connect_bridge-HasClient :
    (api : Api) (bridge : MqttBridge) (connects : Bool) (mgr : Manager) (st : api.Store)
    → (connect_bridge api bridge connects mgr st).0 ≡ finished
    → HasClient api bridge (connect_bridge api bridge connects mgr st).1 st
connect_bridge-HasClient api bridge connects mgr st h =
    elim (Option-cases (credentials api bridge.credentials_secret_ref st)) [
      | inl e ↦ absurd (
          failed-ne-finished
            (sym (ap (λ r. r.0) (connect_bridge_refused api bridge connects mgr st e)) ∙ h))
      | inr (c, e) ↦
          let run = connect_bridge-credentials api bridge connects mgr st c e in
          let r = upsert (with_credentials api c (bridge_config bridge)) connects mgr in
          subst (λ x. HasClient api bridge x.1 st) (sym run)
            (upsert-HasClient api bridge connects mgr st c e
              (succeeded r.0 (sym (ap (λ x. x.0) run) ∙ h)))
    ]

remove-lookup : (k : Text) (mgr : Manager) → lookup k (remove k mgr).1.bridges ≡ none
unfolding remove
remove-lookup k mgr = lookup-delete_self k mgr.bridges

found-BridgeFinished :
    (api : Api) (namespace name : Text) (connects : Bool) (mgr : Manager) (st : api.Store)
    (bridge : MqttBridge) (b : Bool)
    → api.get_bridge namespace name st ≡ found bridge
    → bridge.deleted ≡ b
    → let r =
        if b
        then (finished, (remove bridge.bridge_name mgr).1)
        else connect_bridge api bridge connects mgr st in
      r.0 ≡ finished → BridgeFinished api namespace name mgr r.1 st
found-BridgeFinished api namespace name connects mgr st bridge true e gone h =
    inr (inl (bridge, e, gone, remove-lookup bridge.bridge_name mgr))
found-BridgeFinished api namespace name connects mgr st bridge false e here h =
    inr (inr (bridge, e, connect_bridge-HasClient api bridge connects mgr st h))

reconcile_bridge-found :
    (api : Api) (namespace name : Text) (connects : Bool) (mgr : Manager) (st : api.Store)
    (bridge : MqttBridge)
    → api.get_bridge namespace name st ≡ found bridge
    → reconcile_bridge api namespace name connects mgr st ≡ (
        if bridge.deleted
        then (finished, (remove bridge.bridge_name mgr).1)
        else connect_bridge api bridge connects mgr st)
unfolding reconcile_bridge
reconcile_bridge-found api namespace name connects mgr st bridge e = rw (reconcile_bridge, e) refl

reconcile_bridge-unread :
    (api : Api) (namespace name : Text) (connects : Bool) (mgr : Manager) (st : api.Store)
    → api.get_bridge namespace name st ≡ get_failed
    → reconcile_bridge api namespace name connects mgr st ≡ (reconcile_failed, mgr)
unfolding reconcile_bridge
reconcile_bridge-unread api namespace name connects mgr st e = rw (reconcile_bridge, e) refl

reconcile_bridge-absent :
    (api : Api) (namespace name : Text) (connects : Bool) (mgr : Manager) (st : api.Store)
    → api.get_bridge namespace name st ≡ not_found
    → reconcile_bridge api namespace name connects mgr st ≡ (finished, mgr)
unfolding reconcile_bridge
reconcile_bridge-absent api namespace name connects mgr st e = rw (reconcile_bridge, e) refl

-- Where `Reconcile` of a bridge is finished without an error, the bridge is not in the cluster and
-- nothing has changed, or it is being deleted and the manager has no client for it, or the manager has
-- a client for it with the host, port and topics of its spec and the user name of its secret.
pub reconcile_bridge-BridgeFinished :
    (api : Api) (namespace name : Text) (connects : Bool) (mgr : Manager) (st : api.Store)
    → (reconcile_bridge api namespace name connects mgr st).0 ≡ finished
    → BridgeFinished api namespace name mgr
        (reconcile_bridge api namespace name connects mgr st).1
        st
reconcile_bridge-BridgeFinished api namespace name connects mgr st h =
    elim (Found-cases (api.get_bridge namespace name st)) [
      | inl e ↦
          inl (e, ap (λ r. r.1) (reconcile_bridge-absent api namespace name connects mgr st e))
      | inr (inl e) ↦ absurd (
          failed-ne-finished (
            sym (ap (λ r. r.0) (reconcile_bridge-unread api namespace name connects mgr st e)) ∙ h))
      | inr (inr (bridge, e)) ↦
          let run = reconcile_bridge-found api namespace name connects mgr st bridge e in
          subst (λ r. BridgeFinished api namespace name mgr r.1 st) (sym run)
            (found-BridgeFinished api namespace name connects mgr st bridge bridge.deleted e refl
              (sym (ap (λ r. r.0) run) ∙ h))
    ]
