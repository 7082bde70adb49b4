-- ===== src/Mqtt/Manager/Clients.antt =====
-- internal/mqtt/manager.go: what `Upsert` and `Remove` make of the clients.
use valve_controller.Common.{
  ◌≡◌, refl, sym, ap, ◌∙◌, ◌≢◌, ◌↔◌, Bool, true, false, List, [], ◌∷◌, none, some, arith, inl, inr,
  Bool-cases, Option-cases, if◌then◌else◌, eqb_ℤ, ℤ,
}
use valve_controller.Common.Text.{Text, eq_text, eq_text_iff, eq_text_refl}
use valve_controller.Common.Dict.{Dict, lookup, insert, delete, lookup-insert, lookup-insert_self}
use valve_controller.Mqtt.Bridge.{
  TopicEntry, BridgeConfig, BridgeClient, new_bridge_client, disconnect,
}
use valve_controller.Mqtt.Manager.{
  Manager, disconnect_at, connect_new, topics_equal, same_config, upsert, remove, connection_states,
  states,
}

-- `topicsEqual` holds of two lists exactly when they are equal.
pub topics_equal_iff : (a b : List TopicEntry) → (topics_equal a b ≡ true) ↔ (a ≡ b)
unfolding topics_equal
topics_equal_iff [] [] = ground arith
topics_equal_iff [] (y ∷ b) = ground arith
topics_equal_iff (x ∷ a) [] = ground arith
topics_equal_iff (x ∷ a) (y ∷ b) =
    ground (arith, eq_text_iff x.topic y.topic, eq_text_iff x.type y.type, topics_equal_iff a b)

topics_equal_refl : (a : List TopicEntry) → topics_equal a a ≡ true
topics_equal_refl a = (topics_equal_iff a a).1 refl

eqb_ℤ_refl : (a : ℤ) → eqb_ℤ a a ≡ true
eqb_ℤ_refl a = ground arith

same_config_refl : (cfg : BridgeConfig) → same_config cfg cfg ≡ true
unfolding same_config
same_config_refl cfg = simp (
  eq_text_refl cfg.host,
  eqb_ℤ_refl cfg.port,
  eq_text_refl cfg.username,
  topics_equal_refl cfg.topics,
)

-- The config as `Upsert` completes it.
abbrev pub completed : BridgeConfig → Manager → BridgeConfig
completed cfg mgr = record cfg { hostname = mgr.hostname }

module _ (cfg : BridgeConfig) (mgr : Manager) where
  new_config :
      (m : Dict BridgeClient)
      → (bc : BridgeClient) × (lookup cfg.bridge_name
            (insert cfg.bridge_name (new_bridge_client (completed cfg mgr)) m)
          ≡ some bc)
        × (same_config bc.cfg (completed cfg mgr) ≡ true)
  unfolding new_bridge_client
  new_config m = (
    new_bridge_client (completed cfg mgr),
    lookup-insert_self cfg.bridge_name _ m,
    same_config_refl (completed cfg mgr),
  )

  -- After a success the client of the bridge has the config asked for.
  upserted :
      (bc : BridgeClient) × (lookup cfg.bridge_name (upsert cfg true mgr).1.bridges ≡ some bc)
      × (same_config bc.cfg (completed cfg mgr) ≡ true)
  unfolding upsert
  upserted = elim (Option-cases (lookup cfg.bridge_name mgr.bridges)) [
    | inl e ↦ rw (e, upsert) (new_config _)
    | inr (old, e) ↦ elim (Bool-cases (same_config old.cfg (completed cfg mgr))) [
      | inl same ↦ rw (e, upsert) (rw same (old, e, same))
      | inr other ↦ rw (e, upsert) (rw other (new_config _))
    ]
  ]

  upsert_hostname : (connects : Bool) → (upsert cfg connects mgr).1.hostname ≡ mgr.hostname
  unfolding upsert
  upsert_hostname connects = ground arith

-- Where a bridge has a client of the same config, `Upsert` changes nothing.
upsert_known :
    (cfg : BridgeConfig) (connects : Bool) (mgr : Manager) (bc : BridgeClient)
    → lookup cfg.bridge_name mgr.bridges ≡ some bc
    → same_config bc.cfg (completed cfg mgr) ≡ true
    → upsert cfg connects mgr ≡ (true, mgr)
unfolding upsert
upsert_known cfg connects mgr bc e same = rw (upsert, e) (rw same refl)

-- To upsert a bridge again with the same config changes nothing and connects to nothing: it succeeds
-- whether or not a connection can be made.
pub upsert-upsert :
    (cfg : BridgeConfig) (connects : Bool) (mgr : Manager)
    → let once = (upsert cfg true mgr).1 in upsert cfg connects once ≡ (true, once)
upsert-upsert cfg connects mgr =
    let (bc, e, same) = upserted cfg mgr in
    let name = upsert_hostname cfg mgr true in
    upsert_known cfg connects (upsert cfg true mgr).1 bc e
      (ap (λ h. same_config bc.cfg (record cfg { hostname = h })) name ∙ same)

true-ne-false : ¬ true ≡ false
true-ne-false h = cc

-- What fails where no connection can be made.
upsert_refused :
    (cfg : BridgeConfig) (mgr : Manager)
    → lookup cfg.bridge_name mgr.bridges ≡ none
    → (upsert cfg false mgr).0 ≡ false
unfolding upsert
upsert_refused cfg mgr e = rw (upsert, e) refl

upsert_refused_other :
    (cfg : BridgeConfig) (mgr : Manager) (old : BridgeClient)
    → lookup cfg.bridge_name mgr.bridges ≡ some old
    → same_config old.cfg (completed cfg mgr) ≡ false
    → (upsert cfg false mgr).0 ≡ false
unfolding upsert
upsert_refused_other cfg mgr old e other = rw (upsert, e) (rw other refl)

-- Whenever `Upsert` succeeds, the bridge has a client of the config asked for.
pub upsert-same_config :
    (cfg : BridgeConfig) (connects : Bool) (mgr : Manager)
    → (upsert cfg connects mgr).0 ≡ true
    → (bc : BridgeClient) × (lookup cfg.bridge_name (upsert cfg connects mgr).1.bridges ≡ some bc)
      × (same_config bc.cfg (completed cfg mgr) ≡ true)
upsert-same_config cfg true mgr h = upserted cfg mgr
upsert-same_config cfg false mgr h = elim (Option-cases (lookup cfg.bridge_name mgr.bridges)) [
  | inl e ↦ absurd (true-ne-false (sym h ∙ upsert_refused cfg mgr e))
  | inr (old, e) ↦ elim (Bool-cases (same_config old.cfg (completed cfg mgr))) [
    | inl same ↦
        let kept =
          ap (λ r. lookup cfg.bridge_name r.1.bridges) (upsert_known cfg false mgr old e same) in
        (old, kept ∙ e, same)
    | inr other ↦ absurd (true-ne-false (sym h ∙ upsert_refused_other cfg mgr old e other))
  ]
]

insert_other :
    (k j : Text) (bc : BridgeClient) (m : Dict BridgeClient)
    → k ≢ j
    → lookup j (insert k bc m) ≡ lookup j m
insert_other k j bc m ne = ground (arith, lookup-insert k j bc m, eq_text_iff k j)

disconnect_isolates :
    (k j : Text) (m : Dict BridgeClient) → k ≢ j → lookup j (disconnect_at k m) ≡ lookup j m
disconnect_isolates k j m ne = elim (Option-cases (lookup k m)) [
  | inl e ↦ rw (e, disconnect_at) refl
  | inr (bc, e) ↦ rw (e, disconnect_at) (insert_other k j (disconnect bc) m ne)
]

connect_isolates :
    (cfg : BridgeConfig) (connects : Bool) (mgr : Manager) (j : Text)
    → cfg.bridge_name ≢ j
    → lookup j (connect_new cfg connects mgr).1.bridges ≡ lookup j mgr.bridges
connect_isolates cfg true mgr j ne =
    insert_other cfg.bridge_name j _ _ ne ∙ disconnect_isolates cfg.bridge_name j mgr.bridges ne
connect_isolates cfg false mgr j ne = disconnect_isolates cfg.bridge_name j mgr.bridges ne

-- `Upsert` leaves the clients of all other bridges as they were, also where it fails.
pub upsert_isolates :
    (cfg : BridgeConfig) (connects : Bool) (mgr : Manager) (j : Text)
    → cfg.bridge_name ≢ j
    → lookup j (upsert cfg connects mgr).1.bridges ≡ lookup j mgr.bridges
unfolding upsert
upsert_isolates cfg connects mgr j ne =
    let new = connect_isolates (completed cfg mgr) connects mgr j ne in
    elim (Option-cases (lookup cfg.bridge_name mgr.bridges)) [
      | inl e ↦ rw (e, upsert) new
      | inr (old, e) ↦ elim (Bool-cases (same_config old.cfg (completed cfg mgr))) [
        | inl same ↦ rw (e, upsert) (rw same refl)
        | inr other ↦ rw (e, upsert) (rw other new)
      ]
    ]

states-delete :
    (k j : Text) (m : Dict BridgeClient)
    → lookup j (states (delete k m)) ≡ (if eq_text k j then none else lookup j (states m))
unfolding lookup delete
states-delete k j [] = ground arith
states-delete k j ((i, bc) ∷ m) =
    ground (arith, eq_text_iff i k, eq_text_iff i j, eq_text_iff k j, states-delete k j m)

-- After `Remove` the readiness probe no longer sees the bridge, and sees the others as before.
pub connection_states-remove :
    (k j : Text) (mgr : Manager)
    → lookup j (connection_states (remove k mgr).1)
      ≡ (if eq_text k j then none else lookup j (connection_states mgr))
unfolding connection_states remove
connection_states-remove k j mgr = states-delete k j mgr.bridges
