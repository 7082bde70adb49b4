-- ===== src/Rest/Handlers.antt =====
-- internal/api/handler.go, internal/api/router.go and `requireClientCert` of
-- internal/api/middleware.go. A handler gives the response and the state after it.
pub mod Access
pub mod Effects
pub mod Keys
pub mod Completion
pub mod Managed
pub mod Reported
use valve_controller.Common.{
  ℕ, ℤ, pos, ltb_ℤ, Bool, true, false, ◌⊎◌, inl, inr, List, [], ◌∷◌, ◌++◌, Option, none, some, map,
  length, In, if◌then◌else◌, ◌==◌,
}
use valve_controller.Common.Text.{Text, text, is_empty, slash, has_slash}
use valve_controller.Common.Dict.{Dict}
use valve_controller.Device.{Duration, ValveInfo}
use valve_controller.Mqtt.Manager.{Manager, connection_states}
use valve_controller.Scheduler.World.{Ptr}
use valve_controller.Scheduler.Valves.{
  Fault, Result, ok, err, Scheduler, get_pipeline, request_open, request_close, get_action,
  list_actions, get_valve_info, find_key, list_valves,
}
use valve_controller.Rest.{
  HttpRequest, Route, healthz, readyz, metrics, list_valves_route, get_valve_route, open_route,
  close_route, list_actions_route, get_action_route, ActionResponse, ValveResponse,
  CollectionResponse, Body, fault_body, text_body, status_body, ready_body, metrics_body,
  valve_body, valves_body, action_body, actions_body, Response, Server,
}
use valve_controller.Rest.Views.{to_action_response, listed, to_valve_response, classify_error}

abbrev pub respond : ℕ → Body → Response
respond status body = record { status = status; body = body }

-- `writeError`.
unfoldable pub write_error : Fault → Response
write_error e = respond (classify_error e).1 (fault_body e (classify_error e).0)

abbrev pub all_of : {A : Type 0} → List A → CollectionResponse A
all_of xs = record { items = xs; total = length xs; limit = length xs; offset = 0 }

-- The namespace of a request: the query parameter, or else the header.
unfoldable pub request_namespace : HttpRequest → Text
request_namespace r =
    if is_empty (r.query (text "namespace"))
    then r.header (text "X-Namespace")
    else r.query (text "namespace")

-- `resolveValveKey`.
unfoldable pub resolve_valve_key : Text → HttpRequest → Scheduler → Result Text
resolve_valve_key name r s =
    if has_slash name
    then ok name
    else if is_empty (request_namespace r)
    then find_key name s
    else ok (request_namespace r ++ slash ∷ name)

-- The loop of `ListValves`.
unfoldable pub valve_responses : List Text → Scheduler → List ValveResponse
valve_responses [] s = []
valve_responses (k ∷ ks) s =
    let rest = valve_responses ks s in
    elim (get_valve_info k s) [ err e ↦ rest | ok info ↦ to_valve_response info s ∷ rest ]

-- `ListValves`.
unfoldable pub handle_list_valves : Server → Response
handle_list_valves h =
    respond 200 (valves_body (all_of (valve_responses (list_valves h.sched) h.sched)))

-- `GetValve`.
unfoldable pub handle_get_valve : Text → HttpRequest → Server → Response
handle_get_valve name r h = elim (resolve_valve_key name r h.sched) [
  | err e ↦ write_error e
  | ok k ↦ elim (get_valve_info k h.sched) [
    | err e ↦ write_error e
    | ok info ↦ respond 200 (valve_body (to_valve_response info h.sched))
  ]
]

-- An action of the pipeline with the key, by its address. (The key of an address is known.)
abbrev pub show_action : ℕ → Text → Ptr → Scheduler → Response
show_action status k p s = elim (get_pipeline k s) [
  | err e ↦ write_error e
  | ok a ↦ respond status (action_body (to_action_response ((s.pipes a).heap p)))
]

abbrev pub accepted : Text → Result Ptr × Scheduler → Server → Response × Server
accepted k (err e, s) h = (write_error e, record h { sched = s })
accepted k (ok p, s) h = (show_action 202 k p s, record h { sched = s })

abbrev pub invalid_duration : Response
invalid_duration = respond 422 (text_body (text "invalid duration format") (text "INVALID_INPUT"))

abbrev pub not_positive : Response
not_positive = respond 422 (text_body (text "duration must be positive") (text "INVALID_INPUT"))

abbrev pub unauthorized : Response
unauthorized = respond 401 (text_body (text "client certificate required") (text "UNAUTHORIZED"))

-- What the query parameter says of the duration; `parse_duration` is `time.ParseDuration`.
unfoldable pub wanted_duration : (Text → Option Duration) → Text → Response ⊎ Duration
wanted_duration parse_duration d = if is_empty d then inr (pos 0) else elim (parse_duration d) [
  | none ↦ inl invalid_duration
  | some x ↦ if ltb_ℤ (pos 0) x then inr x else inl not_positive
]

-- `OpenValve`.
unfoldable pub handle_open_valve :
    (Text → Option Duration) → Text → HttpRequest → Server → Response × Server
handle_open_valve parse_duration name r h = elim (resolve_valve_key name r h.sched) [
  | err e ↦ (write_error e, h)
  | ok k ↦ elim (wanted_duration parse_duration (r.query (text "duration"))) [
    | inl refusal ↦ (refusal, h)
    | inr d ↦ accepted k (request_open k d h.sched) h
  ]
]

-- `CloseValve`.
unfoldable pub handle_close_valve : Text → HttpRequest → Server → Response × Server
handle_close_valve name r h = elim (resolve_valve_key name r h.sched) [
  | err e ↦ (write_error e, h)
  | ok k ↦ accepted k (request_close k h.sched) h
]

-- `ListActions`.
unfoldable pub handle_list_actions : Text → HttpRequest → Server → Response
handle_list_actions name r h = elim (resolve_valve_key name r h.sched) [
  | err e ↦ write_error e
  | ok k ↦ elim (listed k h.sched) [
    | err e ↦ write_error e
    | ok xs ↦ respond 200 (actions_body (all_of (map to_action_response xs)))
  ]
]

-- `GetAction`.
unfoldable pub handle_get_action : Text → Text → HttpRequest → Server → Response
handle_get_action name action_id r h = elim (resolve_valve_key name r h.sched) [
  | err e ↦ write_error e
  | ok k ↦ elim (get_action k action_id h.sched) [
    | err e ↦ write_error e
    | ok p ↦ show_action 200 k p h.sched
  ]
]

-- The loop of `Readyz`.
unfoldable pub all_connected : Dict Bool → Bool
all_connected [] = true
all_connected ((_, connected) ∷ states) = if connected then all_connected states else false

-- `Readyz`.
unfoldable pub handle_readyz : Server → Response
handle_readyz h =
    let states = connection_states h.mqtt in
    if all_connected states
    then respond 200 (ready_body (text "ok") states)
    else respond 503 (ready_body (text "not ready") states)

-- `requireClientCert`.
unfoldable pub require_client_cert :
    (HttpRequest → Server → Response × Server) → HttpRequest → Server → Response × Server
require_client_cert next r h = elim r.verified_chains [
  | none ↦ (unauthorized, h)
  | some n ↦ if n == 0 then (unauthorized, h) else next r h
]

-- `NewRouter`: what is called for each route.
unfoldable pub route : (Text → Option Duration) → Route → HttpRequest → Server → Response × Server
route parse_duration healthz r h = (respond 200 (status_body (text "ok")), h)
route parse_duration readyz r h = (handle_readyz h, h)
route parse_duration metrics r h = (respond 200 metrics_body, h)
route parse_duration list_valves_route r h =
    require_client_cert (λ r h. (handle_list_valves h, h)) r h
route parse_duration (get_valve_route name) r h =
    require_client_cert (λ r h. (handle_get_valve name r h, h)) r h
route parse_duration (open_route name) r h =
    require_client_cert (handle_open_valve parse_duration name) r h
route parse_duration (close_route name) r h = require_client_cert (handle_close_valve name) r h
route parse_duration (list_actions_route name) r h =
    require_client_cert (λ r h. (handle_list_actions name r h, h)) r h
route parse_duration (get_action_route name action_id) r h =
    require_client_cert (λ r h. (handle_get_action name action_id r h, h)) r h
