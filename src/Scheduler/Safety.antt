-- ===== src/Scheduler/Safety.antt =====
-- internal/scheduler/pipeline.go: what an executed action ends in, whatever the other goroutines
-- and the devices do meanwhile.
use valve_controller.Scheduler.Keeps.Waits.{one_phase}
use valve_controller.Common.{
  ◌<◌, ◌+◌, pos, ltb_ℤ, ◌≡◌, refl, ap, ◌∙◌, true, false, arith, if◌then◌else◌,
}
use valve_controller.Device.{closed, opened}
use valve_controller.Scheduler.Action.{
  new_action, close, open_timed, is_open_valve, fulfilled, is_terminal, holds_valve_open,
}
use valve_controller.Scheduler.World.{Ptr, Ctx, close_ctx, World, emit, when, modify, ◌>>◌}
use valve_controller.Scheduler.Shared.{
  finish_wait, record_state, alloc, submit, enqueue, update_config,
}
use valve_controller.Scheduler.Execute.{execute, run_done, close_limit, is_opened}
use valve_controller.Scheduler.Keeps.{AnyPtr, Any, script-Any, WaitKeeps, RunKeeps}
use valve_controller.Scheduler.Keeps.Attempts.{attempt_with_retry-settles}
use valve_controller.Scheduler.Ending.{Confirms}
use valve_controller.Scheduler.Ending.Final.{bounded, execute-final}

abbrev Anything : World → Type 0
Anything w = Unit {0}

Anything-wait : WaitKeeps Any Anything
Anything-wait = record {
  scripted = λ w _. script-Any w.script;
  submits = λ type d w _ h. tt;
  configures = λ info w h. tt;
  stops = λ w _ h. tt;
  pings = λ b w h. tt;
  closes = λ w _ h. tt;
  scripts = λ w h. tt;
  emits = λ o w h. tt;
  finishes = λ x r w e n h. tt;
  clocks = λ t w h. tt;
}

Anything-run : RunKeeps Any AnyPtr Anything
Anything-run = record {
  run_wait_keeps = Anything-wait;
  run_phase = one_phase Anything (λ d x w h. tt) Anything-wait;
  run_marks = λ q w _ h. tt;
  acts = λ q f w _ h. tt;
  fresh = λ w _. tt;
  records = λ power w h. tt;
  allocs = λ name namespace type d w h. tt;
  forgets = λ w h. tt;
  names = λ id w h. tt;
}

-- The valve is recorded as closed.
abbrev IsClosed : World → Type 0
IsClosed w = w.info.state ≡ closed

IsClosed-wait : WaitKeeps Any IsClosed
unfolding emit update_config submit alloc enqueue record_state finish_wait
IsClosed-wait = record {
  scripted = λ w _. script-Any w.script;
  submits = λ type d w _ h. h;
  configures = λ info w h. h;
  stops = λ w _ h. h;
  pings = λ b w h. h;
  closes = λ w _ h. refl;
  scripts = λ w h. h;
  emits = λ o w h. h;
  finishes = λ x r w e n h. h;
  clocks = λ t w h. h;
}

recorded : (w : World) → IsClosed (record_state false w)
unfolding record_state
recorded w = refl

closed_recorded : Confirms Anything (λ s. s ≡ closed)
closed_recorded = record {
  run_keeps = Anything-run;
  claims = λ p w m. tt;
  stays = λ s h. refl;
  confirm = λ ctx q retry_count timeout w m e.
      attempt_with_retry-settles IsClosed false IsClosed-wait recorded ctx q retry_count timeout w
        e;
}

-- `execute` leaves every allocated action in a final state: fulfilled, failed or cancelled, whatever
-- happens meanwhile.
pub execute_ends :
    (ctx : Ctx) (p : Ptr) (w : World)
    → p < w.next_ptr
    → is_terminal ((execute ctx p w).1.heap p) ≡ true
execute_ends ctx p w lt =
    let (terminal, type, c) =
      execute-final Anything (λ s. s ≡ closed) closed_recorded ctx p w tt lt in
    terminal

-- When `execute` ends a close or a timed open, an allocated object, as fulfilled, the valve is
-- recorded as closed, whatever happens meanwhile.
pub execute_closes :
    (ctx : Ctx) (p : Ptr) (w : World)
    → p < w.next_ptr
    → is_open_valve ((execute ctx p w).1.heap p).type ≡ false
    → ((execute ctx p w).1.heap p).state ≡ fulfilled
    → (execute ctx p w).1.info.state ≡ closed
execute_closes ctx p w lt o s =
    let (terminal, type, c) =
      execute-final Anything (λ s. s ≡ closed) closed_recorded ctx p w tt lt in
    c o s

bounded_open :
    (p : Ptr) (w : World)
    → holds_valve_open (w.heap p) ≡ true
    → bounded (w.heap p).type ≡ open_timed
unfolding holds_valve_open
bounded_open p w k = ground arith

-- Under a positive `MaxOpenDuration` no open is indefinite: `execute` leaves each, an allocated
-- object, as a timed open, whatever happens meanwhile.
pub execute_bounds_open :
    (ctx : Ctx) (p : Ptr) (w : World)
    → p < w.next_ptr
    → ltb_ℤ (pos 0) w.info.config.max_open_duration ≡ true
    → holds_valve_open (w.heap p) ≡ true
    → ((execute ctx p w).1.heap p).type ≡ open_timed
execute_bounds_open ctx p w lt h k =
    let (terminal, type, c) =
      execute-final Anything (λ s. s ≡ closed) closed_recorded ctx p w tt lt in
    type ∙ ap (λ b. if b then bounded (w.heap p).type else (w.heap p).type) h ∙ bounded_open p w k

abbrev pub last_close : World → World
last_close w =
    (execute (close_ctx (w.now + close_limit)) w.next_ptr
      (alloc w.info.name w.info.namespace close (pos 0) w)).1

pub run_done-opened : (w : World) → w.info.state ≡ opened → (run_done w).1 ≡ last_close w
unfolding run_done
run_done-opened w h =
    ap
      (λ s.
        (when (is_opened s)
          (modify (alloc w.info.name w.info.namespace close (pos 0))
            >> execute (close_ctx (w.now + close_limit)) w.next_ptr)
          w).1)
      h

last_close_type : (w : World) → ((last_close w).heap w.next_ptr).type ≡ close
unfolding alloc new_action
last_close_type w =
    let ctx = close_ctx (w.now + close_limit) in
    let u = alloc w.info.name w.info.namespace close (pos 0) w in
    let (terminal, type, c) =
      execute-final Anything (λ s. s ≡ closed) closed_recorded ctx w.next_ptr u tt (omega arith) in
    ground (arith, type)

-- A pipeline that is stopped while its valve is recorded as open runs one more action: a close, which
-- ends in a final state, whatever happens meanwhile.
pub run_done_ends :
    (w : World)
    → w.info.state ≡ opened
    → let v = (run_done w).1 in
      ((v.heap w.next_ptr).type ≡ close) × (is_terminal (v.heap w.next_ptr) ≡ true)
unfolding alloc
run_done_ends w h =
    let u = alloc w.info.name w.info.namespace close (pos 0) w in
    rw (run_done-opened w h)
      (last_close_type w, execute_ends (close_ctx (w.now + close_limit)) w.next_ptr u (omega arith))

-- If the close that a stopped pipeline runs, its valve being recorded as open, ends fulfilled, the
-- valve is recorded as closed, whatever happens meanwhile.
pub run_done_closes :
    (w : World)
    → w.info.state ≡ opened
    → ((run_done w).1.heap w.next_ptr).state ≡ fulfilled
    → (run_done w).1.info.state ≡ closed
unfolding alloc
run_done_closes w h =
    let u = alloc w.info.name w.info.namespace close (pos 0) w in
    rw (run_done-opened w h) (
      execute_closes (close_ctx (w.now + close_limit)) w.next_ptr u (omega arith)
        (ap is_open_valve (last_close_type w)))
