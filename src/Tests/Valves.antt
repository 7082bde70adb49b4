-- ===== src/Tests/Valves.antt =====
-- The scheduler over all valves.
use valve_controller.Common.{◌⊎◌, ℕ, false, pos, true, ◌≡◌, refl, ◌↔◌, [], ◌∷◌, List, none, some}
use valve_controller.Common.Text.{text, eq_text, split_n, has_slash, before_slash, after_slash}
use valve_controller.Common.Dict.{lookup, insert}
use valve_controller.Device.{key, ValveInfo}
use valve_controller.Scheduler.Action.{close, open_timed, new_action}
use valve_controller.Scheduler.World.{World}
use valve_controller.Scheduler.Valves.{
  request_open, Fault, Scheduler, ok, err, valve_not_found, new_scheduler, register_valve,
  deregister_valve, get_pipeline, find_key, list_valves, matches,
}
use valve_controller.Scheduler.Valves.Register.{
  IsOrderly, new_scheduler-IsOrderly, register_valve-IsOrderly, deregister_valve_stops,
}
use valve_controller.Scheduler.Valves.Lookup.{IsOnly, find_key_iff}
use valve_controller.Scheduler.Valves.Refinement.{
  Request, registers, deregisters, opens, senses, serve_all, view, promised_all, serve_all-refines,
}
use valve_controller.Scheduler.Valves.Requests.{IsQueued, request_open_cases}
use valve_controller.Tests.Samples.{sample_info, sample_world, event}

abbrev pub empty : Scheduler
empty = new_scheduler (λ _. sample_world close (pos 0) 0 [])

abbrev other_info : ValveInfo
other_info = record (sample_info 0) { name = text "w" }

-- The valves n/v and n/w.
abbrev pub two : Scheduler
two = register_valve other_info (register_valve (sample_info 0) empty)

pub empty-IsOrderly : IsOrderly empty
empty-IsOrderly = new_scheduler-IsOrderly (λ _. sample_world close (pos 0) 0 [])

one-IsOrderly : IsOrderly (register_valve (sample_info 0) empty)
one-IsOrderly = register_valve-IsOrderly (sample_info 0) empty empty-IsOrderly

pub two-IsOrderly : IsOrderly two
two-IsOrderly =
    register_valve-IsOrderly other_info (register_valve (sample_info 0) empty) one-IsOrderly

registered_v : get_pipeline (text "n/v") two ≡ ok 0
unfolding get_pipeline register_valve new_scheduler lookup insert eq_text key
registered_v = refl

registered_w : get_pipeline (text "n/w") two ≡ ok 1
unfolding get_pipeline register_valve new_scheduler lookup insert eq_text key
registered_w = refl

deregister_valve_stops_example :
    let s = deregister_valve (text "n/v") two in
    (get_pipeline (text "n/v") s ≡ err valve_not_found) × ((s.pipes 0).stopped ≡ true)
deregister_valve_stops_example =
    deregister_valve_stops (text "n/v") 0 two two-IsOrderly registered_v

finds_w : find_key (text "w") two ≡ ok (text "n/w")
unfolding find_key matches split_n has_slash before_slash after_slash register_valve new_scheduler
    lookup insert eq_text key
finds_w = refl

find_key_iff_example :
    (find_key (text "w") two ≡ ok (text "n/w")) ↔ IsOnly (text "n/w") (text "w") (list_valves two)
unfolding list_valves
find_key_iff_example = find_key_iff (text "w") (text "n/w") two two-IsOrderly.distinct

-- An open of v runs, and a close of it is remembered.
abbrev busy : World
busy = record (sample_world close (pos 0) 0 []) {
  heap = λ p. record (new_action [] 0 (text "v") (text "n") close (pos 0)) { id = p ∷ [] };
  current = some 3;
  history = 2 ∷ 1 ∷ [];
}

abbrev busy_valves : Scheduler
busy_valves = record {
  pipelines = (text "n/v", 0) ∷ [];
  cancels = (text "n/v", 0) ∷ [];
  pipes = λ _. busy;
  next_pipe = 1;
}

request_open_cases_example :
    ((e : Fault) × (request_open (text "n/v") (pos 5) two ≡ (err e, two)))
    ⊎ ((a : ℕ) × (get_pipeline (text "n/v") two ≡ ok a)
        × ((two.pipes a).info.config.disabled ≡ false)
        × ((request_open (text "n/v") (pos 5) two).0 ≡ ok (two.pipes a).next_ptr)
        × IsQueued
            (two.pipes a).next_ptr
            open_timed
            ((request_open (text "n/v") (pos 5) two).1.pipes a))
request_open_cases_example = request_open_cases (text "n/v") (pos 5) two

-- Two valves are registered, one is removed, the other is opened, reports and is reconfigured.
abbrev calls : List Request
calls =
    registers (sample_info 0)
    ∷ registers other_info
    ∷ deregisters (text "n/v")
    ∷ opens (text "n/w") (pos 5)
    ∷ senses (text "n/w") (event (text "valve-center") (text "0xda76") none)
    ∷ registers (record other_info { bridge_name = text "garden" })
    ∷ []

serve_all-refines_example :
    view (serve_all calls empty) ≡ promised_all calls (λ _. err valve_not_found)
serve_all-refines_example = serve_all-refines calls (λ _. sample_world close (pos 0) 0 [])
