-- ===== src/Scheduler/Ending/Parts.antt =====
-- internal/scheduler/pipeline.go: what the assignments and counters of `execute` leave of an
-- action. Internal lemmas.
use valve_controller.Common.{◌<◌, ◌≡◌, refl, false, arith}
use valve_controller.Common.Text.{Text}
use valve_controller.Device.{Duration}
use valve_controller.Scheduler.Action.{
  Action, ActionType, open_valve, open_timed, close, keep_close, is_open_valve, ActionState,
  cancelled, is_open_timed, is_internal_safety_ping,
}
use valve_controller.Scheduler.World.{Ptr, Output, World, emit, set_action}
use valve_controller.Scheduler.Shared.{alloc, set_gauge, write_status}
use valve_controller.Scheduler.Execute.{
  if_cancelled, count_unless_ping, mark_close_unconfirmed, powers,
}
use valve_controller.Scheduler.Keeps.Waits.{if_either}
use valve_controller.Scheduler.Keeps.Tasks.{write_self, write_ne, Holds}

mark_heap : (w : World) → (mark_close_unconfirmed w).heap ≡ w.heap
unfolding mark_close_unconfirmed emit set_gauge write_status
mark_heap w = ground arith

mark_next_ptr : (w : World) → (mark_close_unconfirmed w).next_ptr ≡ w.next_ptr
unfolding mark_close_unconfirmed emit set_gauge write_status
mark_next_ptr w = ground arith

pub if_cancelled-keeps :
    (P : World → Type 0) (s : ActionState) (x y : World)
    → (s ≡ cancelled → P x)
    → P y
    → P (if_cancelled s x y)
if_cancelled-keeps P cancelled x y h k = h refl
if_cancelled-keeps P _ x y h k = k

pub count-keeps :
    (P : World → Type 0) (p : Ptr) (o : Action → Output) (w : World)
    → P w
    → P (emit (o (w.heap p)) w)
    → P (count_unless_ping p o w)
count-keeps P p o w h k = if_either P (is_internal_safety_ping (w.heap p)) _ _ h k

module _ (R : Action → Type 0) (p : Ptr) where
  pub mark-Holds : (w : World) → Holds R p w → Holds R p (mark_close_unconfirmed w)
  mark-Holds w h = rw (mark_heap w, mark_next_ptr w) h

  pub set_action-Holds :
      (f : Action → Action) (w : World)
      → p < w.next_ptr
      → R (f (w.heap p))
      → Holds R p (set_action p f w)
  unfolding set_action
  set_action-Holds f w lt r = (rw (write_self w.heap p _) r, lt)

  pub alloc-Holds :
      (name namespace : Text) (type : ActionType) (d : Duration) (w : World)
      → Holds R p w
      → Holds R p (alloc name namespace type d w)
  unfolding alloc
  alloc-Holds name namespace type d w (r, lt) =
      (rw (write_ne w.heap w.next_ptr p _ (λ e. absurd (omega arith))) r, omega arith)

  pub count-Holds :
      (o : Action → Output) (w : World) → Holds R p w → Holds R p (count_unless_ping p o w)
  unfolding emit
  count-Holds o w h = count-keeps (Holds R p) p o w h h

pub powers_of_other :
    (t : ActionType) → is_open_valve t ≡ false → is_open_timed t ≡ false → powers t ≡ false
powers_of_other open_valve h k = absurd cc
powers_of_other open_timed h k = absurd cc
powers_of_other close h k = refl
powers_of_other keep_close h k = refl
