-- ===== src/Scheduler/Valves/Register.antt =====
-- internal/scheduler/scheduler.go: `RegisterValve` and `DeregisterValve`, and the two maps.
use valve_controller.Common.{
  NoDup, ℕ, ◌<◌, ◌≡◌, refl, sym, ◌↔◌, ◌∙◌, ◌≢◌, inl, inr, true, none, some, arith, Option-cases,
  if◌then◌else◌,
}
use valve_controller.Common.Text.{Text, eq_text, eq_text_iff}
use valve_controller.Common.Dict.{
  lookup, delete, lookup-insert, lookup-delete, lookup-delete_self, keys, insert-NoDup,
  delete-NoDup,
}
use valve_controller.Device.{ValveInfo, key}
use valve_controller.Scheduler.World.{World, emit}
use valve_controller.Scheduler.Shared.{update_config, set_gauge}
use valve_controller.Scheduler.Valves.{
  Scheduler, Result, valve_not_found, ok, err, new_scheduler, new_pipeline, at_pipe, register_valve,
  deregister_valve, get_pipeline, get_valve_info,
}

-- Both maps hold the same addresses, each in use and under one key, and no key twice.
pub record IsOrderly (s : Scheduler) : Type 0 where
  pub agree : (k : Text) → lookup k s.cancels ≡ lookup k s.pipelines
  pub allocated : (k : Text) (a : ℕ) → lookup k s.pipelines ≡ some a → a < s.next_pipe
  pub single :
      (j k : Text) (a : ℕ) → lookup j s.pipelines ≡ some a → lookup k s.pipelines ≡ some a → j ≡ k
  pub distinct : NoDup (keys s.pipelines)

pub new_scheduler-IsOrderly : (pipes : ℕ → World) → IsOrderly (new_scheduler pipes)
unfolding new_scheduler lookup
new_scheduler-IsOrderly pipes = record {
  agree = λ k. refl;
  allocated = λ k a e. cc;
  single = λ j k a e e'. cc;
  distinct = tt;
}

-- To register a valve keeps the two maps in order: they agree, each pipeline stands under one key,
-- and no key stands twice.
pub register_valve-IsOrderly :
    (info : ValveInfo) (s : Scheduler) → IsOrderly s → IsOrderly (register_valve info s)
unfolding register_valve
register_valve-IsOrderly info s v = elim (Option-cases (lookup (key info) s.pipelines)) [
  | inl e ↦
      rw (register_valve, e)
        (record {
          agree = λ k.
              rw (lookup-insert (key info) k s.next_pipe s.cancels)
                (rw (lookup-insert (key info) k s.next_pipe s.pipelines) (rw (v.agree k) refl));
          allocated = λ k a h.
              ground (arith, lookup-insert (key info) k s.next_pipe s.pipelines, v.allocated k a);
          single = λ j k a h h'. ground (
            arith,
            lookup-insert (key info) j s.next_pipe s.pipelines,
            lookup-insert (key info) k s.next_pipe s.pipelines,
            v.allocated j a,
            v.allocated k a,
            v.single j k a,
            eq_text_iff (key info) j,
            eq_text_iff (key info) k,
          );
          distinct = insert-NoDup (key info) s.next_pipe s.pipelines v.distinct;
        })
  | inr (a, e) ↦
      rw (register_valve, e)
        (record {
          agree = v.agree;
          allocated = v.allocated;
          single = v.single;
          distinct = v.distinct;
        })
]

-- To remove a valve keeps the two maps in order: they agree, each pipeline stands under one key, and
-- no key stands twice.
pub deregister_valve-IsOrderly :
    (k : Text) (s : Scheduler) → IsOrderly s → IsOrderly (deregister_valve k s)
unfolding deregister_valve
deregister_valve-IsOrderly k s v = elim (Option-cases (lookup k s.cancels)) [
  | inl e ↦ rw (deregister_valve, e) v
  | inr (a, e) ↦
      rw (deregister_valve, e)
        (record {
          agree = λ j.
              rw (lookup-delete k j s.cancels)
                (rw (lookup-delete k j s.pipelines) (rw (v.agree j) refl));
          allocated = λ j b h. ground (arith, lookup-delete k j s.pipelines, v.allocated j b);
          single = λ i j b h h'.
              ground (
                arith,
                lookup-delete k i s.pipelines,
                lookup-delete k j s.pipelines,
                v.single i j b,
              );
          distinct = delete-NoDup k s.pipelines v.distinct;
        })
]

get_pipeline-lookup :
    (k : Text) (s : Scheduler) (a : ℕ) → (get_pipeline k s ≡ ok a) ↔ (lookup k s.pipelines ≡ some a)
unfolding get_pipeline
get_pipeline-lookup k s a = ground arith

get_pipeline-unknown :
    (k : Text) (s : Scheduler)
    → lookup k s.pipelines ≡ none
    → get_pipeline k s ≡ err valve_not_found
unfolding get_pipeline
get_pipeline-unknown k s e = ground arith

abbrev stopped_at : ℕ → Text → Scheduler → Scheduler
stopped_at a k s =
    at_pipe a (λ w. record w { stopped = true })
      (record s { pipelines = delete k s.pipelines; cancels = delete k s.cancels })

deregister_valve_lem :
    (k : Text) (a : ℕ) (s : Scheduler)
    → lookup k s.cancels ≡ some a
    → deregister_valve k s ≡ stopped_at a k s
unfolding deregister_valve
deregister_valve_lem k a s e = rw (deregister_valve, e) refl

deregister_valve_unknown :
    (k : Text) (s : Scheduler) → lookup k s.cancels ≡ none → deregister_valve k s ≡ s
unfolding deregister_valve
deregister_valve_unknown k s e = rw (deregister_valve, e) refl

other_stays :
    (k j : Text) (a b : ℕ) (s : Scheduler)
    → j ≢ k
    → IsOrderly s
    → lookup k s.pipelines ≡ some a
    → lookup j s.pipelines ≡ some b
    → let s' = stopped_at a k s in (get_pipeline j s' ≡ ok b) × (s'.pipes b ≡ s.pipes b)
other_stays k j a b s ne v e h =
    let s' = stopped_at a k s in
    let kept : lookup j s'.pipelines ≡ some b =
      ground (arith, lookup-delete k j s.pipelines, eq_text_iff k j) in
    ((get_pipeline-lookup j s' b).1 kept, ground (arith, v.single j k a))

-- Where the two maps are in order, to remove a registered valve takes it out of the register and
-- stops its pipeline.
pub deregister_valve_stops :
    (k : Text) (a : ℕ) (s : Scheduler)
    → IsOrderly s
    → get_pipeline k s ≡ ok a
    → let s' = deregister_valve k s in
      (get_pipeline k s' ≡ err valve_not_found) × ((s'.pipes a).stopped ≡ true)
deregister_valve_stops k a s v h =
    let e = (get_pipeline-lookup k s a).0 h in
    rw (deregister_valve_lem k a s (v.agree k ∙ e))
      (get_pipeline-unknown k (stopped_at a k s) (lookup-delete_self k s.pipelines), ground arith)

-- Where the two maps are in order, to remove a valve leaves every other one its pipeline, which is
-- as it was.
pub deregister_valve_isolates :
    (k j : Text) (b : ℕ) (s : Scheduler)
    → IsOrderly s
    → j ≢ k
    → get_pipeline j s ≡ ok b
    → let s' = deregister_valve k s in (get_pipeline j s' ≡ ok b) × (s'.pipes b ≡ s.pipes b)
deregister_valve_isolates k j b s v ne h = elim (Option-cases (lookup k s.cancels)) [
  | inl e ↦ rw (deregister_valve_unknown k s e) (h, refl)
  | inr (a, e) ↦
      rw (deregister_valve_lem k a s e)
        (other_stays k j a b s ne v (sym (v.agree k) ∙ e) ((get_pipeline-lookup j s b).0 h))
]

abbrev pub merged : ValveInfo → Result ValveInfo → ValveInfo
merged info (err _) = info
merged info (ok old) = record old {
  config = info.config;
  friendly_name = info.friendly_name;
  short_addr = info.short_addr;
  bridge_name = info.bridge_name;
  bridge_host = info.bridge_host;
  bridge_port = info.bridge_port;
}

-- Where the two maps are in order, what a valve is known by after a registration: an old pipeline keeps its live state and takes over
-- the configuration, a new one starts from what is given, and no other valve is touched.
pub get_valve_info-register_valve :
    (j : Text) (info : ValveInfo) (s : Scheduler)
    → IsOrderly s
    → get_valve_info j (register_valve info s)
      ≡ (if eq_text (key info) j then ok (merged info (get_valve_info j s)) else get_valve_info j s)
unfolding register_valve get_pipeline get_valve_info update_config set_gauge new_pipeline emit
get_valve_info-register_valve j info s v =
    let k = key info in
    let found = lookup-insert k j s.next_pipe s.pipelines in
    elim (Option-cases (lookup k s.pipelines)) [
      | inl e ↦ elim (Option-cases (lookup j s.pipelines)) [
        | inl h ↦ rw (register_valve, e) (ground (arith, found, h))
        | inr (b, h) ↦
            rw (register_valve, e) (ground (arith, found, h, eq_text_iff k j, v.allocated j b h))
      ]
      | inr (a, e) ↦ elim (Option-cases (lookup j s.pipelines)) [
        | inl h ↦ rw (register_valve, e) (ground (arith, h, eq_text_iff k j))
        | inr (b, h) ↦ rw (register_valve, e) (ground (arith, h, eq_text_iff k j, v.single k j a e))
      ]
    ]
