-- ===== src/Rest/Handlers/Keys.antt =====
-- internal/api/handler.go: which valve a request is about, and the readiness probe.
use valve_controller.Common.{
  ◌≡◌, refl, ◌↔◌, true, false, [], ◌∷◌, All, arith, Bool-cases, inl, inr, if◌then◌else◌,
}
use valve_controller.Common.Text.{Text, has_slash, NoSlash}
use valve_controller.Common.Dict.{Dict}
use valve_controller.Mqtt.Bridge.{BridgeClient}
use valve_controller.Mqtt.Manager.{states, connection_states}
use valve_controller.Scheduler.Valves.{Scheduler}
use valve_controller.Rest.{Server}
use valve_controller.Rest.Handlers.{all_connected, handle_readyz}

pub NoSlash-has_slash : (s : Text) → NoSlash s → has_slash s ≡ false
unfolding has_slash
NoSlash-has_slash [] h = refl
NoSlash-has_slash (c ∷ s) (p, h) = ground (arith, NoSlash-has_slash s h)

all_connected_iff :
    (m : Dict BridgeClient) → (all_connected (states m) ≡ true) ↔ All (λ e. e.1.connected ≡ true) m
unfolding all_connected
all_connected_iff [] = (λ _. tt, λ _. refl)
all_connected_iff ((k, bc) ∷ m) = elim (Bool-cases bc.connected) [
  | inl e ↦
      let (there, back) = all_connected_iff m in
      (λ z. (e, there (ground arith)), λ z. ground (arith, back z.1))
  | inr e ↦ (λ z. absurd (ground arith), λ z. absurd (ground (arith, z.0)))
]

readyz-status :
    (h : Server)
    → (handle_readyz h).status ≡ (if all_connected (states h.mqtt.bridges) then 200 else 503)
unfolding handle_readyz connection_states
readyz-status h = ground arith

-- The readiness probe answers 200 exactly when the client of every bridge is connected.
pub readyz_iff :
    (h : Server) → ((handle_readyz h).status ≡ 200) ↔ All (λ e. e.1.connected ≡ true) h.mqtt.bridges
readyz_iff h =
    let (there, back) = all_connected_iff h.mqtt.bridges in
    (λ z. there (ground (arith, readyz-status h)), λ z. ground (arith, readyz-status h, back z))
