-- ===== src/Mqtt/Manager/Identity.antt =====
-- internal/mqtt/manager.go and internal/mqtt/bridge.go: as whom the clients log in at a broker.
use valve_controller.Common.{
  ◌≡◌, refl, sym, ap, subst, ◌∙◌, Bool, true, false, List, [], ◌∷◌, ◌++◌, none, some, inl, inr,
  Bool-cases, Option-cases,
}
use valve_controller.Common.Text.{Text, text, eq_text, eq_text_iff}
use valve_controller.Common.Dict.{Dict, lookup, insert, delete, lookup-insert, lookup-delete}
use valve_controller.Mqtt.Bridge.{BridgeConfig, BridgeClient, new_bridge_client, disconnect}
use valve_controller.Mqtt.Bridge.Options.{client_id, client_options}
use valve_controller.Mqtt.Manager.{
  Manager, new_manager, disconnect_at, connect_new, same_config, upsert, remove, stop_all,
}

-- What is asked of the manager.
pub data Call : Type 0 where
  upserts : BridgeConfig → (connects : Bool) → Call
  removes : (bridge_name : Text) → Call
  stops_all : Call

abbrev pub call : Call → Manager → Manager
call (upserts cfg connects) mgr = (upsert cfg connects mgr).1
call (removes bridge_name) mgr = (remove bridge_name mgr).1
call stops_all mgr = (stop_all mgr).1

abbrev pub call_all : List Call → Manager → Manager
call_all [] mgr = mgr
call_all (c ∷ cs) mgr = call_all cs (call c mgr)

-- Each client is that of the bridge under whose name it stands, and says the host of the manager.
abbrev pub IsNamed : Text → Dict BridgeClient → Type 0
IsNamed hostname m =
    (k : Text) (bc : BridgeClient)
    → lookup k m ≡ some bc
    → (bc.cfg.bridge_name ≡ k) × (bc.cfg.hostname ≡ hostname)

some-injective : {A : Type 0} (a b : A) → some a ≡ some b → a ≡ b
some-injective a b h = ap (λ x. elim x [ none ↦ a | some y ↦ y ]) h

insert-IsNamed :
    (hostname k : Text) (bc : BridgeClient) (m : Dict BridgeClient)
    → bc.cfg.bridge_name ≡ k
    → bc.cfg.hostname ≡ hostname
    → IsNamed hostname m
    → IsNamed hostname (insert k bc m)
insert-IsNamed hostname k bc m n h v j bc' e =
    let e' = sym (lookup-insert k j bc m) ∙ e in
    elim (Bool-cases (eq_text k j)) [
      | inl s ↦
          let same = some-injective bc bc' (rw s at e') in
          (
            ap (λ b. b.cfg.bridge_name) (sym same) ∙ n ∙ (eq_text_iff k j).0 s,
            ap (λ b. b.cfg.hostname) (sym same) ∙ h,
          )
      | inr s ↦ v j bc' (rw s at e')
    ]

delete-IsNamed :
    (hostname k : Text) (m : Dict BridgeClient) → IsNamed hostname m → IsNamed hostname (delete k m)
delete-IsNamed hostname k m v j bc e =
    let e' = sym (lookup-delete k j m) ∙ e in
    elim (Bool-cases (eq_text k j)) [
      | inl s ↦ absurd (none-ne-some bc (rw s at e'))
      | inr s ↦ v j bc (rw s at e')
    ]
  where
    none-ne-some : (b : BridgeClient) → ¬ none ≡ some b
    none-ne-some b h = cc

disconnect_at-IsNamed :
    (hostname k : Text) (m : Dict BridgeClient)
    → IsNamed hostname m
    → IsNamed hostname (disconnect_at k m)
unfolding disconnect
disconnect_at-IsNamed hostname k m v = elim (Option-cases (lookup k m)) [
  | inl e ↦ rw (disconnect_at, e) v
  | inr (bc, e) ↦
      let (n, h) = v k bc e in
      rw (disconnect_at, e) (insert-IsNamed hostname k (disconnect bc) m n h v)
]

connect_new-IsNamed :
    (cfg : BridgeConfig) (connects : Bool) (mgr : Manager)
    → cfg.hostname ≡ mgr.hostname
    → IsNamed mgr.hostname mgr.bridges
    → IsNamed mgr.hostname (connect_new cfg connects mgr).1.bridges
unfolding new_bridge_client
connect_new-IsNamed cfg true mgr h v =
    insert-IsNamed mgr.hostname cfg.bridge_name (new_bridge_client cfg)
      (disconnect_at cfg.bridge_name mgr.bridges) refl h
      (disconnect_at-IsNamed mgr.hostname cfg.bridge_name mgr.bridges v)
connect_new-IsNamed cfg false mgr h v =
    disconnect_at-IsNamed mgr.hostname cfg.bridge_name mgr.bridges v

connect_new_hostname :
    (cfg : BridgeConfig) (connects : Bool) (mgr : Manager)
    → (connect_new cfg connects mgr).1.hostname ≡ mgr.hostname
connect_new_hostname cfg true mgr = refl
connect_new_hostname cfg false mgr = refl

-- The manager keeps its host name, and its clients their names.
abbrev Keeps : Manager → Manager → Type 0
Keeps mgr mgr' = (mgr'.hostname ≡ mgr.hostname) × IsNamed mgr.hostname mgr'.bridges

upsert-Keeps :
    (given : BridgeConfig) (connects : Bool) (mgr : Manager)
    → IsNamed mgr.hostname mgr.bridges
    → Keeps mgr (upsert given connects mgr).1
unfolding upsert
upsert-Keeps given connects mgr v =
    let cfg = record given { hostname = mgr.hostname } in
    let connected : Keeps mgr (connect_new cfg connects mgr).1 =
      (connect_new_hostname cfg connects mgr, connect_new-IsNamed cfg connects mgr refl v) in
    elim (Option-cases (lookup given.bridge_name mgr.bridges)) [
      | inl e ↦ rw (upsert, e) connected
      | inr (old, e) ↦ elim (Bool-cases (same_config old.cfg cfg)) [
        | inl s ↦ rw (upsert, e) (rw s (refl, v))
        | inr s ↦ rw (upsert, e) (rw s connected)
      ]
    ]

call-Keeps : (c : Call) (mgr : Manager) → IsNamed mgr.hostname mgr.bridges → Keeps mgr (call c mgr)
unfolding remove stop_all lookup
call-Keeps (upserts cfg connects) mgr v = upsert-Keeps cfg connects mgr v
call-Keeps (removes bridge_name) mgr v =
    (refl, delete-IsNamed mgr.hostname bridge_name mgr.bridges v)
call-Keeps stops_all mgr v = (refl, λ k bc e. cc e)

call_all-Keeps :
    (cs : List Call) (mgr : Manager)
    → IsNamed mgr.hostname mgr.bridges
    → Keeps mgr (call_all cs mgr)
call_all-Keeps [] mgr v = (refl, v)
call_all-Keeps (c ∷ cs) mgr v =
    let (h, w) = call-Keeps c mgr v in
    let (h', w') =
      call_all-Keeps cs (call c mgr) (subst (λ n. IsNamed n (call c mgr).bridges) (sym h) w) in
    (h' ∙ h, subst (λ n. IsNamed n (call_all cs (call c mgr)).bridges) h w')

append-cancel : (s t u : Text) → s ++ t ≡ s ++ u → t ≡ u
append-cancel [] t u h = h
append-cancel (c ∷ s) t u h = append-cancel s t u (cc h)

-- Two clients of the same host with the same id are of the same bridge.
client_id-injective :
    (a b : BridgeConfig)
    → a.hostname ≡ b.hostname
    → client_id a ≡ client_id b
    → a.bridge_name ≡ b.bridge_name
unfolding client_id
client_id-injective a b h e =
    let rest = append-cancel (text "valve-controller-") _ _ e in
    let at = ap (λ n. n ++ (text "-" ++ b.bridge_name)) (sym h) in
    append-cancel (text "-") _ _ (append-cancel a.hostname _ _ (rest ∙ at))

-- Whatever calls a new manager gets, no two clients of different bridges log in at a broker with
-- the same client id.
pub call_all_distinct :
    (hostname : Text) (cs : List Call) (j k : Text) (a b : BridgeClient)
    → let m = (call_all cs (new_manager hostname)).bridges in
      lookup j m ≡ some a
      → lookup k m ≡ some b
      → (client_options a.cfg).client_id ≡ (client_options b.cfg).client_id
      → j ≡ k
unfolding new_manager lookup client_options
call_all_distinct hostname cs j k a b ea eb same =
    let (h, v) = call_all-Keeps cs (new_manager hostname) (λ i bc e. cc e) in
    let (na, ha) = v j a ea in
    let (nb, hb) = v k b eb in sym na ∙ client_id-injective a.cfg b.cfg (ha ∙ sym hb) same ∙ nb
