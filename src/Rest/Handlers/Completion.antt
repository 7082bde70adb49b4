-- ===== src/Rest/Handlers/Completion.antt =====
-- internal/api/handler.go with the scheduler and its pipelines: what becomes of an accepted command.
use valve_controller.Common.{
  false, Bool, ℕ, ◌≡◌, subst, sym, ap, ◌∙◌, some, Option-cases, Option, length, Bool-cases, inl,
  inr, ◌==◌,
}
use valve_controller.Common.Text.{Text}
use valve_controller.Common.Dict.{lookup}
use valve_controller.Device.{Duration}
use valve_controller.Scheduler.Action.{ActionType}
use valve_controller.Scheduler.World.{Ptr, World}
use valve_controller.Scheduler.Shared.{submit, alloc, enqueue}
use valve_controller.Scheduler.Reachable.{IsSound, submit-IsSound}
use valve_controller.Scheduler.Draining.{NoRequests, rounds}
use valve_controller.Scheduler.Draining.Final.{HasEnded, rounds-HasEnded}
use valve_controller.Scheduler.Draining.Steady.{NoStops}
use valve_controller.Scheduler.Valves.{Scheduler, ok, at_pipe, get_pipeline}
use valve_controller.Scheduler.Valves.Refinement.{Submits, Submits-get_pipeline}
use valve_controller.Rest.{HttpRequest, Route, action_body, Response, Server}
use valve_controller.Rest.Views.{to_action_response}
use valve_controller.Rest.Handlers.{respond, route}
use valve_controller.Rest.Handlers.Effects.{IsAccepted}
use valve_controller.Rest.Handlers.Access.{route-Effect}

-- The pipeline has a free action slot and a queue within its bounds, no other action is asked for, it
-- will not be stopped, and where `Needed` it is not stopped now.
abbrev pub IsReady : Type 0 → World → Type 0
IsReady Needed w = IsSound w × NoRequests w.script × NoStops w.script × (Needed → w.stopped ≡ false)

-- The register has a valve with this pipeline.
abbrev pub IsRegistered : Scheduler → ℕ → Type 0
IsRegistered s a = (k : Text) × (lookup k s.pipelines ≡ some a)

-- Every pipeline is ready, where those that are registered no longer may be stopped.
abbrev pub AllReady : Scheduler → Type 0
AllReady s = (a : ℕ) → IsReady (IsRegistered s a) (s.pipes a)

submit-IsReady :
    (N : Type 0) (t : ActionType) (d : Duration) (w : World)
    → IsReady N w
    → IsReady N (submit t d w)
unfolding submit alloc enqueue
submit-IsReady N t d w (s, quiet, no_stops, on) = (submit-IsSound t d w s, quiet, no_stops, on)

pub at_pipe-AllReady :
    (b : ℕ) (f : World → World) (s : Scheduler)
    → ((N : Type 0) (w : World) → IsReady N w → IsReady N (f w))
    → AllReady s
    → AllReady (at_pipe b f s)
at_pipe-AllReady b f s keep h a = elim (Bool-cases (b == a)) [
  | inl e ↦ rw e (keep (IsRegistered s a) (s.pipes a) (h a))
  | inr e ↦ rw e (h a)
]

Submits-AllReady : (s s' : Scheduler) → Submits s s' → AllReady s → AllReady s'
Submits-AllReady s s' (inl e) h = subst AllReady (sym e) h
Submits-AllReady s s' (inr (b, t, d, e)) h =
    subst AllReady (sym e) (at_pipe-AllReady b (submit t d) s (λ N. submit-IsReady N t d) h)

ok-injective : (a b : ℕ) → ok a ≡ ok b → a ≡ b
ok-injective a b h = cc

get_pipeline-IsRegistered :
    (k : Text) (s : Scheduler) (a : ℕ) → get_pipeline k s ≡ ok a → IsRegistered s a
unfolding get_pipeline
get_pipeline-IsRegistered k s a h = elim (Option-cases (lookup k s.pipelines)) [
  | inl e ↦ absurd cc (rw (get_pipeline, e) at h)
  | inr (b, e) ↦ (k, e ∙ ap some (ok-injective b a (rw (get_pipeline, e) at h)))
]

-- The action shown is in a final state once the main loop of its pipeline has made as many rounds as
-- actions wait.
abbrev pub Ends : (takes_done : ℕ → Bool) → Response × Server → Type 0
Ends c (shown, h) =
    (a : ℕ) × (p : Ptr) × (shown
      ≡ respond 202 (action_body (to_action_response ((h.sched.pipes a).heap p))))
    × (let w = h.sched.pipes a in HasEnded p (rounds c (length w.queue) w))

IsAccepted-Ends :
    (c : ℕ → Bool) (h : Server) (x : Response × Server)
    → AllReady h.sched
    → IsAccepted h x
    → Ends c x
IsAccepted-Ends c h (shown, h') ready (k, a, p, t, known, queued, sub, same, e) =
    let (sound, quiet, no_stops, on) = Submits-AllReady h.sched h'.sched sub ready a in
    let here =
      get_pipeline-IsRegistered k h'.sched a
        (Submits-get_pipeline h.sched h'.sched sub k ∙ known) in
    (a, p, e, rounds-HasEnded c (h'.sched.pipes a) p sound quiet (no_stops, on here) queued.0)

-- Where every pipeline has a free action slot, a queue within its bounds and neither a further request
-- nor a stop to come, and none of a registered valve has been stopped, a command that the API accepts
-- with 202 reaches a final state within as many rounds of the main loop as actions wait then, whatever
-- else happens while they run and whether or not the devices answer.
pub route-Ends :
    (takes_done : ℕ → Bool) (pd : Text → Option Duration) (rt : Route) (r : HttpRequest)
    (h : Server)
    → AllReady h.sched
    → (route pd rt r h).0.status ≡ 202
    → Ends takes_done (route pd rt r h)
route-Ends c pd rt r h ready e = elim (route-Effect pd rt r h) [
  | inl (refused, same) ↦ absurd (refused e)
  | inr accepted ↦ IsAccepted-Ends c h (route pd rt r h) ready accepted
]
