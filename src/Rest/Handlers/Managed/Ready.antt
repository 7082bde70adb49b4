-- ===== src/Rest/Handlers/Managed/Ready.antt =====
-- internal/k8s/mqttvalve_reconciler.go and internal/scheduler/scheduler.go: a reconciler leaves the
-- pipelines able to take up an action.
use valve_controller.Common.{
  ◌≡◌, refl, true, false, inl, inr, some, ℕ, ◌==◌, Option-cases, Bool-cases, arith,
}
use valve_controller.Common.Text.{Text, eq_text}
use valve_controller.Common.Dict.{Dict, lookup, insert, lookup-insert}
use valve_controller.Device.{ValveInfo, key}
use valve_controller.Scheduler.World.{World, emit}
use valve_controller.Scheduler.Shared.{update_config, set_gauge}
use valve_controller.Scheduler.Reachable.{new_pipeline-IsSound}
use valve_controller.Scheduler.Valves.{Scheduler, new_pipeline, register_valve}
use valve_controller.K8s.{Api, MqttValve, found}
use valve_controller.K8s.Valves.Outcomes.{Answer, Way, absent, unread, unlinked, removed, linked}
use valve_controller.Rest.Handlers.Completion.{IsReady, IsRegistered, AllReady, at_pipe-AllReady}

update_config-IsReady :
    (info : ValveInfo) (N : Type 0) (w : World) → IsReady N w → IsReady N (update_config info w)
unfolding update_config
update_config-IsReady info N w (s, quiet, no_stops, on) = (
  record {
    idle = record { no_current = s.idle.no_current; no_cancel = s.idle.no_cancel };
    bounded = s.bounded;
    allocated = s.allocated;
  },
  quiet,
  no_stops,
  on,
)

-- A new pipeline is not stopped, whatever was at its address.
new_pipeline-IsReady :
    (info : ValveInfo) (M N : Type 0) (w : World)
    → IsReady M w
    → IsReady N (set_gauge info.state (new_pipeline info w))
unfolding set_gauge emit new_pipeline
new_pipeline-IsReady info M N w (s, quiet, no_stops, _) =
    let n = new_pipeline-IsSound info w in
    (
      record {
        idle = record { no_current = refl; no_cancel = refl };
        bounded = n.bounded;
        allocated = n.allocated;
      },
      quiet,
      no_stops,
      λ _. refl,
    )

-- Another pipeline that is registered after an insertion was so before.
insert-registered :
    (k j : Text) (b a : ℕ) (m : Dict ℕ)
    → (b == a) ≡ false
    → lookup j (insert k b m) ≡ some a
    → lookup j m ≡ some a
insert-registered k j b a m ne h = elim (Bool-cases (eq_text k j)) [
  | inl e ↦ ground (arith, lookup-insert k j b m)
  | inr e ↦ ground (arith, lookup-insert k j b m)
]

register_valve-AllReady :
    (info : ValveInfo) (s : Scheduler) → AllReady s → AllReady (register_valve info s)
unfolding register_valve
register_valve-AllReady info s h = elim (Option-cases (lookup (key info) s.pipelines)) [
  | inl e ↦
      rw (register_valve, e)
        (λ a. elim (Bool-cases (s.next_pipe == a)) [
          | inl here ↦ rw here (new_pipeline-IsReady info (IsRegistered s a) _ (s.pipes a) (h a))
          | inr other ↦
              let (sound, quiet, no_stops, on) = h a in
              rw other (
                sound,
                quiet,
                no_stops,
                λ (k, held).
                    on (k, insert-registered (key info) k s.next_pipe a s.pipelines other held),
              )
        ])
  | inr (a, e) ↦
      rw (register_valve, e)
        (at_pipe-AllReady a (update_config info) s (update_config-IsReady info) h)
]

pub Way-AllReady :
    (api : Api) (namespace name : Text) (s : Scheduler) (st : api.Store) (r : Answer api)
    → Way api namespace name s st r
    → ((v : MqttValve) → api.get_valve namespace name st ≡ found v → ¬ v.deleted ≡ true)
    → AllReady s
    → AllReady r.1
Way-AllReady api namespace name s st _ (absent e) kept h = h
Way-AllReady api namespace name s st _ unread kept h = h
Way-AllReady api namespace name s st _ unlinked kept h = h
Way-AllReady api namespace name s st _ (removed valve e gone) kept h = absurd (kept valve e gone)
Way-AllReady api namespace name s st _ (linked valve dev bridge e l) kept h =
    register_valve-AllReady _ s h
