-- ===== src/Scheduler/Valves/Requests.antt =====
-- internal/scheduler/scheduler.go: `Open` and `Close`.
use valve_controller.Common.{
  ℕ, ◌≡◌, refl, ◌⊎◌, inl, inr, pos, ltb_ℤ, ltb, false, List, [], ◌∷◌, In, In-append, Bool-cases,
  if◌then◌else◌, length, ==_refl,
}
use valve_controller.Common.Text.{Text}
use valve_controller.Device.{Duration}
use valve_controller.Scheduler.Action.{
  ActionType, open_valve, open_timed, close, pending, new_action,
}
use valve_controller.Scheduler.World.{Ptr, World}
use valve_controller.Scheduler.Shared.{alloc, enqueue, submit, send_action, drop_first, queue_size}
use valve_controller.Scheduler.Keeps.Tasks.{write_self}
use valve_controller.Scheduler.Valves.{
  Scheduler, Fault, Result, ok, err, valve_disabled, get_pipeline, at_pipe, request_open,
  request_close,
}

send_action-In : (p : Ptr) (q : List Ptr) → In p (send_action p q)
unfolding send_action
send_action-In p q = elim (Bool-cases (ltb (length q) queue_size)) [
  | inl e ↦ rw e (In-append p q (p ∷ []) (inr (inl refl)))
  | inr e ↦ rw e (In-append p (drop_first q) (p ∷ []) (inr (inl refl)))
]

-- The action at `p` waits in the queue, is pending and of the type.
abbrev pub IsQueued : Ptr → ActionType → World → Type 0
IsQueued p t w = In p w.queue × ((w.heap p).type ≡ t) × ((w.heap p).state ≡ pending)

submit-IsQueued : (t : ActionType) (d : Duration) (w : World) → IsQueued w.next_ptr t (submit t d w)
unfolding submit alloc enqueue new_action
submit-IsQueued t d w =
    let own = write_self w.heap w.next_ptr in
    (send_action-In w.next_ptr w.queue, rw (own _) refl, rw (own _) refl)

at_pipe-IsQueued :
    (a : ℕ) (t : ActionType) (d : Duration) (s : Scheduler)
    → IsQueued (s.pipes a).next_ptr t ((at_pipe a (submit t d) s).pipes a)
at_pipe-IsQueued a t d s = rw (==_refl a) (submit-IsQueued t d (s.pipes a))

pub Result-cases :
    {A : Type 0} (r : Result A) → ((e : Fault) × (r ≡ err e)) ⊎ ((a : A) × (r ≡ ok a))
Result-cases (err e) = inl (e, refl)
Result-cases (ok a) = inr (a, refl)

abbrev pub opening : Duration → ActionType
opening duration = if ltb_ℤ (pos 0) duration then open_timed else open_valve

-- `Open` either returns an error, and nothing changes, or the valve is known and not disabled, and
-- the action returned waits in its queue: a timed open for a positive duration, else an open.
pub request_open_cases :
    (k : Text) (d : Duration) (s : Scheduler)
    → ((e : Fault) × (request_open k d s ≡ (err e, s)))
      ⊎ ((a : ℕ) × (get_pipeline k s ≡ ok a)
          × ((s.pipes a).info.config.disabled ≡ false)
          × ((request_open k d s).0 ≡ ok (s.pipes a).next_ptr)
          × IsQueued (s.pipes a).next_ptr (opening d) ((request_open k d s).1.pipes a))
unfolding request_open
request_open_cases k d s = elim (Result-cases (get_pipeline k s)) [
  | inl (e, h) ↦ inl (e, rw (request_open, h) refl)
  | inr (a, h) ↦ elim (Bool-cases (s.pipes a).info.config.disabled) [
    | inl off ↦ inl (valve_disabled, rw (request_open, h) (rw off refl))
    | inr on ↦ inr (
      a,
      h,
      on,
      rw (request_open, h) (rw on refl),
      rw (request_open, h) (rw on (at_pipe-IsQueued a (opening d) d s)),
    )
  ]
]

-- `Close` is never refused for a known valve, a disabled one included: the action returned waits in
-- its queue as a close.
pub request_close-IsQueued :
    (k : Text) (a : ℕ) (s : Scheduler)
    → get_pipeline k s ≡ ok a
    → ((request_close k s).0 ≡ ok (s.pipes a).next_ptr)
      × IsQueued (s.pipes a).next_ptr close ((request_close k s).1.pipes a)
unfolding request_close
request_close-IsQueued k a s h =
    (rw (request_close, h) refl, rw (request_close, h) (at_pipe-IsQueued a close (pos 0) s))
