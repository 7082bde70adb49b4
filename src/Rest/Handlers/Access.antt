-- ===== src/Rest/Handlers/Access.antt =====
-- internal/api/router.go and internal/api/middleware.go: who may do what, and what a request changes.
use valve_controller.Common.{
  ◌≡◌, ◌≢◌, refl, sym, ap, ◌↔◌, subst, ◌||◌, ◌⊎◌, inl, inr, Bool, true, false, Option, none, some,
  arith, ◌==◌, Bool-cases, Option-cases, if◌then◌else◌,
}
use valve_controller.Common.Text.{Text}
use valve_controller.Device.{Duration}
use valve_controller.Rest.{
  HttpRequest, Route, healthz, readyz, metrics, list_valves_route, get_valve_route, open_route,
  close_route, list_actions_route, get_action_route, Response, Server,
}
use valve_controller.Rest.Handlers.{
  handle_list_valves, handle_get_valve, handle_open_valve, handle_close_valve, handle_list_actions,
  handle_get_action, require_client_cert, unauthorized, route,
}
use valve_controller.Rest.Handlers.Effects.{
  IsAccepted, Served, ok_is_plain, handle_list_valves-Plain, handle_get_valve-Plain,
  handle_open_valve-Served, handle_close_valve-Served, handle_list_actions-Plain,
  handle_get_action-Plain, handle_readyz-Plain,
}

-- The probes and the metrics.
abbrev pub is_open : Route → Bool
is_open healthz = true
is_open readyz = true
is_open metrics = true
is_open _ = false

-- Whether a client certificate was verified.
abbrev pub is_verified : HttpRequest → Bool
is_verified r = elim r.verified_chains [ none ↦ false | some n ↦ if n == 0 then false else true ]

-- A route is turned away unchanged, or it is served.
abbrev Guarded : Bool → Server → Response × Server → Type 0
Guarded true h x = Served h x
Guarded false h x = x ≡ (unauthorized, h)

require_client_cert-Guarded :
    (next : HttpRequest → Server → Response × Server) (r : HttpRequest) (h : Server)
    → Served h (next r h)
    → Guarded (is_verified r) h (require_client_cert next r h)
unfolding require_client_cert
require_client_cert-Guarded next r h e = elim (Option-cases r.verified_chains) [
  | inl eq ↦ rw (require_client_cert, is_verified, eq) refl
  | inr (n, eq) ↦ elim (Bool-cases (n == 0)) [
    | inl z ↦ rw (require_client_cert, is_verified, eq) (rw z refl)
    | inr z ↦ rw (require_client_cert, is_verified, eq) (rw z e)
  ]
]

-- What the public routes do, and what stands behind the certificate.
route-Guarded :
    (pd : Text → Option Duration) (rt : Route) (r : HttpRequest) (h : Server)
    → Guarded (is_open rt || is_verified r) h (route pd rt r h)
unfolding route
route-Guarded pd healthz r h = inl (ok_is_plain, refl)
route-Guarded pd readyz r h = inl (handle_readyz-Plain h, refl)
route-Guarded pd metrics r h = inl (ok_is_plain, refl)
route-Guarded pd list_valves_route r h =
    require_client_cert-Guarded (λ r h. (handle_list_valves h, h)) r h
      (inl (handle_list_valves-Plain h, refl))
route-Guarded pd (get_valve_route name) r h =
    require_client_cert-Guarded (λ r h. (handle_get_valve name r h, h)) r h
      (inl (handle_get_valve-Plain name r h, refl))
route-Guarded pd (open_route name) r h =
    require_client_cert-Guarded (handle_open_valve pd name) r h
      (handle_open_valve-Served name r h pd)
route-Guarded pd (close_route name) r h =
    require_client_cert-Guarded (handle_close_valve name) r h (handle_close_valve-Served name r h)
route-Guarded pd (list_actions_route name) r h =
    require_client_cert-Guarded (λ r h. (handle_list_actions name r h, h)) r h
      (inl (handle_list_actions-Plain name r h, refl))
route-Guarded pd (get_action_route name id) r h =
    require_client_cert-Guarded (λ r h. (handle_get_action name id r h, h)) r h
      (inl (handle_get_action-Plain name r h id, refl))

-- What a request does to the server.
abbrev pub Effect : Server → Response × Server → Type 0
Effect h (shown, h') = ((shown.status ≢ 202) × (h' ≡ h)) ⊎ IsAccepted h (shown, h')

Guarded-Effect : (b : Bool) (h : Server) (x : Response × Server) → Guarded b h x → Effect h x
Guarded-Effect true h x (inl (plain, e)) = inl (plain.0, e)
Guarded-Effect true h x (inr a) = inr a
Guarded-Effect false h x e = subst (Effect h) (sym e) (inl (λ z. omega (arith, z), refl))

-- A request on any route changes nothing at all, and is not answered with 202, or it is answered with
-- 202 and the action shown waits in the queue of a known pipeline, and the clients of the bridges are
-- as they were.
pub route-Effect :
    (pd : Text → Option Duration) (rt : Route) (r : HttpRequest) (h : Server)
    → Effect h (route pd rt r h)
route-Effect pd rt r h =
    Guarded-Effect (is_open rt || is_verified r) h (route pd rt r h) (route-Guarded pd rt r h)

accepted-status : (h : Server) (x : Response × Server) → IsAccepted h x → x.0.status ≡ 202
accepted-status h x (k, a, p, t, known, queued, sub, same, e) = ap (λ y. y.status) e

Guarded-status :
    (b : Bool) (h : Server) (x : Response × Server)
    → Guarded b h x
    → (x.0.status ≡ 401) ↔ (b ≡ false)
Guarded-status true h x (inl (plain, e)) = (λ z. absurd (plain.1 z), λ z. cc)
Guarded-status true h x (inr a) = (λ z. absurd (omega (arith, z, accepted-status h x a)), λ z. cc)
Guarded-status false h x e = (λ z. refl, λ z. ap (λ y. y.0.status) e)

-- A request is answered with 401 exactly when its route is neither a probe nor the metrics and no
-- client certificate was verified.
pub route_unauthorized_iff :
    (pd : Text → Option Duration) (rt : Route) (r : HttpRequest) (h : Server)
    → ((route pd rt r h).0.status ≡ 401) ↔ ((is_open rt || is_verified r) ≡ false)
route_unauthorized_iff pd rt r h =
    Guarded-status (is_open rt || is_verified r) h (route pd rt r h) (route-Guarded pd rt r h)
