-- ===== src/K8s/Valves/Status.antt =====
-- internal/k8s/mqttvalve_reconciler.go: what `UpdateValveStatus` and `patchReadyCondition` leave in the
-- cluster, given what the API server and `RetryOnConflict` are documented to do.
use valve_controller.Common.{
  ◌≡◌, refl, sym, subst, ap, ◌∙◌, ◌⊎◌, inl, inr, Bool, true, some, is_some, if◌then◌else◌,
}
use valve_controller.Common.Text.{Text, text, eq_text_refl}
use valve_controller.Device.{ValveState, opened, closed, unknown, unset, Time}
use valve_controller.K8s.{
  condition_true, condition_false, MqttValveStatus, MqttValve, Found-cases, found, not_found,
  get_failed, Outcome, written, conflict, write_failed, Api,
}
use valve_controller.K8s.Conditions.{status_of, status_of-set_condition}
use valve_controller.K8s.Valves.{
  with_state, ready_condition, with_condition, change_status, update_valve_status,
  patch_ready_condition,
}

-- What a call of `RetryOnConflict` may give: the outcome of one run, or after a conflict, and
-- whatever others wrote meanwhile, that of a later run.
pub data Retried {S : Type 0} (f : S → Outcome × S) : S → Outcome × S → Type 0 where
  at_once : (st : S) → Retried f st (f st)
  later : (st st' : S) (r : Outcome × S) → (f st).0 ≡ conflict → Retried f st' r → Retried f st r

-- What the source relies on.
pub record Laws (api : Api) : Type 0 where
  pub retries :
      (f : api.Store → Outcome × api.Store) (st : api.Store)
      → Retried f st (api.retry_on_conflict f st)
  -- An object stands under its own key.
  pub keyed :
      (namespace name : Text) (st : api.Store) (v : MqttValve)
      → api.get_valve namespace name st ≡ found v
      → (v.namespace ≡ namespace) × (v.name ≡ name)
  -- A status that was written is what is read next.
  pub stores :
      (v : MqttValve) (st : api.Store)
      → (api.update_status v st).0 ≡ written
      → (u : MqttValve) × (api.get_valve v.namespace v.name (api.update_status v st).1 ≡ found u)
        × (u.status ≡ v.status)

last_run :
    {S : Type 0} (f : S → Outcome × S) (st : S) (r : Outcome × S)
    → Retried f st r
    → (st' : S) × (f st' ≡ r)
last_run f _ _ (at_once st) = (st, refl)
last_run f _ _ (later st st' r c h) = last_run f st' r h

-- The valve is gone, or its status is one that the change makes.
abbrev Changed : (api : Api) → (Time → MqttValve → MqttValve) → Text → Text → api.Store → Type 0
Changed api f namespace name st =
    (api.get_valve namespace name st ≡ not_found)
    ⊎ ((t : Time) × (v : MqttValve) × (u : MqttValve) × (api.get_valve namespace name st ≡ found u)
        × (u.status ≡ (f t v).status))

written-ne-write_failed : ¬ write_failed ≡ written
written-ne-write_failed h = cc

module _ (api : Api) (laws : Laws api) (f : Time → MqttValve → MqttValve)
    (keeps : (t : Time) (v : MqttValve)
      → ((f t v).namespace ≡ v.namespace) × ((f t v).name ≡ v.name))
    (namespace name : Text) where
  change_status-failed :
      (st : api.Store)
      → api.get_valve namespace name st ≡ get_failed
      → change_status api f namespace name st ≡ (write_failed, st)
  unfolding change_status
  change_status-failed st e = rw (change_status, e) refl

  change_status-found :
      (st : api.Store) (v : MqttValve)
      → api.get_valve namespace name st ≡ found v
      → change_status api f namespace name st ≡ api.update_status (f (api.now st) v) st
  unfolding change_status
  change_status-found st v e = rw (change_status, e) refl

  update-Changed :
      (st : api.Store) (v : MqttValve)
      → api.get_valve namespace name st ≡ found v
      → (api.update_status (f (api.now st) v) st).0 ≡ written
      → Changed api f namespace name (api.update_status (f (api.now st) v) st).1
  update-Changed st v e h =
      let new = f (api.now st) v in
      let after = (api.update_status new st).1 in
      let (same_namespace, same_name) = keeps (api.now st) v in
      let (own_namespace, own_name) = laws.keyed namespace name st v e in
      let (u, here, status) = laws.stores new st h in
      let at : api.get_valve namespace name after ≡ found u =
        subst (λ n. api.get_valve n name after ≡ found u) (same_namespace ∙ own_namespace)
          (subst (λ n. api.get_valve new.namespace n after ≡ found u) (same_name ∙ own_name)
            here) in
      inr (api.now st, v, u, at, status)

  change_status-Changed :
      (st : api.Store)
      → (change_status api f namespace name st).0 ≡ written
      → Changed api f namespace name (change_status api f namespace name st).1
  unfolding change_status
  change_status-Changed st h = elim (Found-cases (api.get_valve namespace name st)) [
    | inl e ↦ rw (change_status, e) (inl e)
    | inr (inl e) ↦
        absurd (written-ne-write_failed (sym (ap (λ r. r.0) (change_status-failed st e)) ∙ h))
    | inr (inr (v, e)) ↦
        let same = change_status-found st v e in
        subst (λ r. Changed api f namespace name r.1) (sym same)
          (update-Changed st v e (sym (ap (λ r. r.0) same) ∙ h))
  ]

  retried-Changed :
      (st : api.Store)
      → (api.retry_on_conflict (change_status api f namespace name) st).0 ≡ written
      → Changed api f namespace name
          (api.retry_on_conflict (change_status api f namespace name) st).1
  retried-Changed st h =
      let run = change_status api f namespace name in
      let (st', e) = last_run run st (api.retry_on_conflict run st) (laws.retries run st) in
      subst (λ r. Changed api f namespace name r.1) e
        (change_status-Changed st' (ap (λ r. r.0) e ∙ h))

with_state-keeps :
    (state : ValveState) (id : Text) (t : Time) (v : MqttValve)
    → ((with_state state id t v).namespace ≡ v.namespace)
      × ((with_state state id t v).name ≡ v.name)
unfolding with_state
with_state-keeps opened id t v = (refl, refl)
with_state-keeps closed id t v = (refl, refl)
with_state-keeps unknown id t v = (refl, refl)
with_state-keeps unset id t v = (refl, refl)

abbrev pub IsStamped : ValveState → MqttValveStatus → Type 0
IsStamped opened status = is_some status.last_open_time ≡ true
IsStamped closed status = is_some status.last_close_time ≡ true
IsStamped _ status = Unit

-- The state, the action, and the time of an open or a close.
abbrev pub IsReported : ValveState → Text → MqttValveStatus → Type 0
IsReported state id status =
    (status.valve_state ≡ state) × (status.current_action_id ≡ id) × IsStamped state status

with_state-IsReported :
    (state : ValveState) (id : Text) (t : Time) (v : MqttValve)
    → IsReported state id (with_state state id t v).status
unfolding with_state
with_state-IsReported opened id t v = (refl, refl, refl)
with_state-IsReported closed id t v = (refl, refl, refl)
with_state-IsReported unknown id t v = (refl, refl, tt)
with_state-IsReported unset id t v = (refl, refl, tt)

-- Given the documented laws of the API server: where `UpdateValveStatus` returns no error, after
-- however many conflicts, the valve is gone from the cluster, or its status there has the state
-- and the action id given, with a time of opening if the state is open and a time of closing if it
-- is closed.
pub update_valve_status-IsReported :
    (api : Api) (name namespace : Text) (state : ValveState) (id : Text) (st : api.Store)
    → Laws api
    → (update_valve_status api name namespace state id st).0 ≡ written
    → let st' = (update_valve_status api name namespace state id st).1 in
      (api.get_valve namespace name st' ≡ not_found)
      ⊎ ((u : MqttValve) × (api.get_valve namespace name st' ≡ found u)
          × IsReported state id u.status)
unfolding update_valve_status
update_valve_status-IsReported api name namespace state id st laws h =
    elim (retried-Changed api laws (with_state state id) (with_state-keeps state id) namespace name
      st h) [
        | inl e ↦ inl e
        | inr (t, v, u, here, e) ↦
            inr (u, here, subst (IsReported state id) (sym e) (with_state-IsReported state id t v))
      ]

with_condition-keeps :
    (ready : Bool) (reason message : Text) (t : Time) (v : MqttValve)
    → let v' = with_condition (ready_condition ready reason message t v.generation) v in
      (v'.namespace ≡ v.namespace) × (v'.name ≡ v.name)
unfolding with_condition
with_condition-keeps ready reason message t v = (refl, refl)

with_condition-ready :
    (ready : Bool) (reason message : Text) (t : Time) (v : MqttValve)
    → status_of
        (text "Ready")
        (with_condition (ready_condition ready reason message t v.generation) v).status.conditions
      ≡ some (if ready then condition_true else condition_false)
unfolding with_condition
with_condition-ready ready reason message t v =
    let c = ready_condition ready reason message t v.generation in
    rw (status_of-set_condition c (text "Ready") v.status.conditions)
      (rw (eq_text_refl (text "Ready")) refl)

-- Given the documented laws of the API server: where `patchReadyCondition` returns no error, after
-- however many conflicts, the valve is gone from the cluster, or it has the Ready condition in the
-- status asked for.
pub patch_ready_condition-status_of :
    (api : Api) (valve : MqttValve) (ready : Bool) (reason message : Text) (st : api.Store)
    → Laws api
    → (patch_ready_condition api valve ready reason message st).0 ≡ written
    → let st' = (patch_ready_condition api valve ready reason message st).1 in
      (api.get_valve valve.namespace valve.name st' ≡ not_found)
      ⊎ ((u : MqttValve) × (api.get_valve valve.namespace valve.name st' ≡ found u)
          × (status_of (text "Ready") u.status.conditions
              ≡ some (if ready then condition_true else condition_false)))
unfolding patch_ready_condition
patch_ready_condition-status_of api valve ready reason message st laws h =
    let change : Time → MqttValve → MqttValve =
      λ now v. with_condition (ready_condition ready reason message now v.generation) v in
    elim (retried-Changed api laws change (with_condition-keeps ready reason message)
      valve.namespace valve.name st h) [
        | inl e ↦ inl e
        | inr (t, v, u, here, e) ↦ inr (
          u,
          here,
          ap (λ x. status_of (text "Ready") x.conditions) e
              ∙ with_condition-ready ready reason message t v,
        )
      ]
