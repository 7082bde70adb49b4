-- ===== src/Rest/Handlers/Effects.antt =====
-- internal/api/handler.go: what a request changes.
use valve_controller.Common.{
  ℕ, ◌≡◌, ◌≢◌, refl, sym, subst, ◌∙◌, ◌⊎◌, inl, inr, Option, arith, Sum-cases,
}
use valve_controller.Common.Text.{Text, text}
use valve_controller.Device.{Duration}
use valve_controller.Scheduler.Action.{ActionType, close}
use valve_controller.Scheduler.World.{Ptr}
use valve_controller.Scheduler.Valves.{
  Fault, valve_not_found, valve_disabled, action_not_found, ambiguous, Result, ok, err, Scheduler,
  get_pipeline, get_valve_info, get_action, request_open, request_close,
}
use valve_controller.Scheduler.Valves.Requests.{
  IsQueued, Result-cases, opening, request_open_cases, request_close-IsQueued,
}
use valve_controller.Scheduler.Valves.Refinement.{
  Submits, request_open-Submits, request_close-Submits, Submits-get_pipeline,
}
use valve_controller.Rest.{HttpRequest, action_body, Response, Server}
use valve_controller.Rest.Views.{to_action_response, listed, classify_error}
use valve_controller.Rest.Handlers.{
  respond, write_error, resolve_valve_key, handle_list_valves, handle_get_valve, show_action,
  accepted, wanted_duration, handle_open_valve, handle_close_valve, handle_list_actions,
  handle_get_action, handle_readyz,
}

-- The action shown waits in the queue of its pipeline.
abbrev pub IsAccepted : Server → Response × Server → Type 0
IsAccepted h (shown, h') =
    (k : Text) × (a : ℕ) × (p : Ptr) × (t : ActionType) × (get_pipeline k h.sched ≡ ok a)
    × IsQueued p t (h'.sched.pipes a)
    × Submits h.sched h'.sched
    × (h'.mqtt ≡ h.mqtt)
    × (shown ≡ respond 202 (action_body (to_action_response ((h'.sched.pipes a).heap p))))

-- What is answered is neither an acceptance nor a refusal of the client.
abbrev pub Plain : Response → Type 0
Plain x = (x.status ≢ 202) × (x.status ≢ 401)

-- What a handler does.
abbrev pub Served : Server → Response × Server → Type 0
Served h (shown, h') = (Plain shown × (h' ≡ h)) ⊎ IsAccepted h (shown, h')

status-Plain : (n : ℕ) (x : Response) → x.status ≡ n → n ≢ 202 → n ≢ 401 → Plain x
status-Plain n x e p q = (λ z. p (sym e ∙ z), λ z. q (sym e ∙ z))

write_error-Plain : (e : Fault) → Plain (write_error e)
unfolding write_error classify_error
write_error-Plain valve_not_found = (λ z. omega (arith, z), λ z. omega (arith, z))
write_error-Plain valve_disabled = (λ z. omega (arith, z), λ z. omega (arith, z))
write_error-Plain action_not_found = (λ z. omega (arith, z), λ z. omega (arith, z))
write_error-Plain (ambiguous keys) = (λ z. omega (arith, z), λ z. omega (arith, z))

-- 200 is plain.
pub ok_is_plain : (let n : ℕ = 200 in (n ≢ 202) × (n ≢ 401))
ok_is_plain = (λ z. omega (arith, z), λ z. omega (arith, z))

pub shown-action :
    (status : ℕ) (k : Text) (a : ℕ) (p : Ptr) (s : Scheduler)
    → get_pipeline k s ≡ ok a
    → show_action status k p s
      ≡ respond status (action_body (to_action_response ((s.pipes a).heap p)))
shown-action status k a p s e = rw (show_action, e) refl

show_action-Plain : (k : Text) (p : Ptr) (s : Scheduler) → Plain (show_action 200 k p s)
show_action-Plain k p s = elim (Result-cases (get_pipeline k s)) [
  | inl (e, eq) ↦ rw (show_action, eq) (write_error-Plain e)
  | inr (a, eq) ↦ rw (show_action, eq) ok_is_plain
]

module _ (k : Text) (h : Server) where
  refused-Served :
      (e : Fault) (r : Result Ptr × Scheduler) → r ≡ (err e, h.sched) → Served h (accepted k r h)
  refused-Served e r eq =
      subst (λ x. Served h (accepted k x h)) (sym eq) (inl (write_error-Plain e, refl))

  queued-Served :
      (s' : Scheduler) (r : Result Ptr) (a : ℕ) (p : Ptr) (t : ActionType)
      → Submits h.sched s'
      → get_pipeline k h.sched ≡ ok a
      → r ≡ ok p
      → IsQueued p t (s'.pipes a)
      → Served h (accepted k (r, s') h)
  queued-Served s' r a p t sub known eq queued =
      subst (λ x. Served h (accepted k (x, s') h)) (sym eq)
        (inr (
          k,
          a,
          p,
          t,
          known,
          queued,
          sub,
          refl,
          shown-action 202 k a p s' (Submits-get_pipeline h.sched s' sub k ∙ known),
        ))

  open-Served : (d : Duration) → Served h (accepted k (request_open k d h.sched) h)
  open-Served d = elim (request_open_cases k d h.sched) [
    | inl (e, eq) ↦ refused-Served e (request_open k d h.sched) eq
    | inr (a, known, on, eq, queued) ↦
        queued-Served (request_open k d h.sched).1 (request_open k d h.sched).0 a
          (h.sched.pipes a).next_ptr (opening d) (request_open-Submits k d h.sched) known eq queued
  ]

  close_unknown :
      (e : Fault) → get_pipeline k h.sched ≡ err e → request_close k h.sched ≡ (err e, h.sched)
  unfolding request_close
  close_unknown e eq = rw (request_close, eq) refl

  close-Served : Served h (accepted k (request_close k h.sched) h)
  close-Served = elim (Result-cases (get_pipeline k h.sched)) [
    | inl (e, eq) ↦ refused-Served e (request_close k h.sched) (close_unknown e eq)
    | inr (a, known) ↦
        let (eq, queued) = request_close-IsQueued k a h.sched known in
        queued-Served (request_close k h.sched).1 (request_close k h.sched).0 a
          (h.sched.pipes a).next_ptr close (request_close-Submits k h.sched) known eq queued
  ]

wanted_duration-status :
    (pd : Text → Option Duration) (d : Text) (x : Response)
    → wanted_duration pd d ≡ inl x
    → x.status ≡ 422
unfolding wanted_duration
wanted_duration-status pd d x h = ground arith

module _ (name : Text) (r : HttpRequest) (h : Server) where
  pub handle_open_valve-Served :
      (pd : Text → Option Duration) → Served h (handle_open_valve pd name r h)
  unfolding handle_open_valve
  handle_open_valve-Served pd = elim (Result-cases (resolve_valve_key name r h.sched)) [
    | inl (e, eq) ↦ rw (handle_open_valve, eq) (inl (write_error-Plain e, refl))
    | inr (k, eq) ↦ elim (Sum-cases (wanted_duration pd (r.query (text "duration")))) [
      | inl (x, w) ↦
          let s = wanted_duration-status pd (r.query (text "duration")) x w in
          rw (handle_open_valve, eq)
            (rw w
              (inl (status-Plain 422 x s (λ z. omega (arith, z)) (λ z. omega (arith, z)), refl)))
      | inr (d, w) ↦ rw (handle_open_valve, eq) (rw w (open-Served k h d))
    ]
  ]

  pub handle_close_valve-Served : Served h (handle_close_valve name r h)
  unfolding handle_close_valve
  handle_close_valve-Served = elim (Result-cases (resolve_valve_key name r h.sched)) [
    | inl (e, eq) ↦ rw (handle_close_valve, eq) (inl (write_error-Plain e, refl))
    | inr (k, eq) ↦ rw (handle_close_valve, eq) (close-Served k h)
  ]

  pub handle_get_valve-Plain : Plain (handle_get_valve name r h)
  unfolding handle_get_valve
  handle_get_valve-Plain = elim (Result-cases (resolve_valve_key name r h.sched)) [
    | inl (e, eq) ↦ rw (handle_get_valve, eq) (write_error-Plain e)
    | inr (k, eq) ↦ elim (Result-cases (get_valve_info k h.sched)) [
      | inl (e, known) ↦ rw (handle_get_valve, eq) (rw known (write_error-Plain e))
      | inr (info, known) ↦ rw (handle_get_valve, eq) (rw known ok_is_plain)
    ]
  ]

  pub handle_list_actions-Plain : Plain (handle_list_actions name r h)
  unfolding handle_list_actions
  handle_list_actions-Plain = elim (Result-cases (resolve_valve_key name r h.sched)) [
    | inl (e, eq) ↦ rw (handle_list_actions, eq) (write_error-Plain e)
    | inr (k, eq) ↦ elim (Result-cases (listed k h.sched)) [
      | inl (e, known) ↦ rw (handle_list_actions, eq) (rw known (write_error-Plain e))
      | inr (xs, known) ↦ rw (handle_list_actions, eq) (rw known ok_is_plain)
    ]
  ]

  pub handle_get_action-Plain : (id : Text) → Plain (handle_get_action name id r h)
  unfolding handle_get_action
  handle_get_action-Plain id = elim (Result-cases (resolve_valve_key name r h.sched)) [
    | inl (e, eq) ↦ rw (handle_get_action, eq) (write_error-Plain e)
    | inr (k, eq) ↦ elim (Result-cases (get_action k id h.sched)) [
      | inl (e, known) ↦ rw (handle_get_action, eq) (rw known (write_error-Plain e))
      | inr (p, known) ↦ rw (handle_get_action, eq) (rw known (show_action-Plain k p h.sched))
    ]
  ]

pub handle_readyz-Plain : (h : Server) → Plain (handle_readyz h)
unfolding handle_readyz
handle_readyz-Plain h = (λ z. ground arith, λ z. ground arith)

pub handle_list_valves-Plain : (h : Server) → Plain (handle_list_valves h)
unfolding handle_list_valves
handle_list_valves-Plain h = ok_is_plain
