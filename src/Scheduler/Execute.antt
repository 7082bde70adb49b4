-- ===== src/Scheduler/Execute.antt =====
-- internal/scheduler/pipeline.go: the action loop.
pub mod Attempt
use valve_controller.Common.{
  ℕ, suc, ◌+◌, ◌-◌, ℤ, pos, pos_part, ltb_ℤ, Bool, true, false, not, ◌&&◌, ◌||◌, List, [], ◌∷◌,
  Option, none, some, if◌then◌else◌,
}
use valve_controller.Common.Text.{Text, text}
use valve_controller.Device.{
  ValveInfo, ValveConfig, ValveState, opened, closed, unknown, unset, Duration, Time,
  command_target,
}
use valve_controller.Scheduler.Action.{
  Action, ActionType, open_valve, open_timed, close, keep_close, ActionState, sending, fulfilled,
  closing, failed, cancelled, Failure, no_confirmation, context_done, close_not_confirmed,
  is_open_valve, is_open_timed, is_close, is_keep_close, is_internal_safety_ping,
}
use valve_controller.Scheduler.World.{
  Ptr, Output, action_counted, duration_observed, status_check, Ctx, pipeline_ctx, close_ctx,
  action_ctx, World, M, ◌>>=◌, ◌>>◌, give, get, modify, when, emit, set_action,
}
use valve_controller.Scheduler.Shared.{
  config, get_state, alloc, add_to_history, set_gauge, write_status,
}
use valve_controller.Scheduler.Wait.{pause, sleep_step, after}
use valve_controller.Scheduler.Execute.Attempt.{attempt_with_retry}

-- Two minutes, the limit on a close that nothing may cancel.
abbrev pub close_limit : ℕ
close_limit = 120_000_000_000

-- `updateActionID`.
unfoldable pub update_action_id : Text → World → World
update_action_id id w =
    let w' = record w { info = record (w.info) { current_action_id = id } } in
    write_status w'.info.state id w'

abbrev is_closed : ValveState → Bool
is_closed closed = true
is_closed _ = false

-- `markCloseUnconfirmed`.
unfoldable pub mark_close_unconfirmed : World → World
mark_close_unconfirmed w =
    let w' = record w { info = record (w.info) { state = unknown } } in
    if is_closed w.info.state then write_status unknown [] (set_gauge unknown w') else w

-- `power` in `execute`.
abbrev pub powers : ActionType → Bool
powers type = not (is_close type) && not (is_keep_close type)

abbrev pub count_unless_ping : Ptr → (Action → Output) → World → World
count_unless_ping p o w = if is_internal_safety_ping (w.heap p) then w else emit (o (w.heap p)) w

-- The assignments to the fields of an action.
abbrev pub as_timed : Duration → Action → Action
as_timed limit a = record a { type = open_timed; duration = limit }

abbrev pub as_cancelled : Action → Action
as_cancelled a = record a { state = cancelled }

abbrev pub as_failed : Time → Failure → Action → Action
as_failed now e a = record a { state = failed; failed_at = some now; error_message = some e }

abbrev pub as_fulfilled : Time → Action → Action
as_fulfilled now a = record a { fulfilled_at = some now; state = fulfilled }

abbrev pub as_closing : Time → Action → Action
as_closing expires a = record a { expires_at = some expires; state = closing }

abbrev pub as_closed : Time → Action → Action
as_closed now a = record a { closed_at = some now; state = fulfilled }

abbrev pub as_unconfirmed : Time → Failure → Action → Action
as_unconfirmed now e a = record a {
  closed_at = some now;
  state = failed;
  failed_at = some now;
  error_message = some (close_not_confirmed e);
}

-- The upgrade of an indefinite open to a timed one.
unfoldable pub upgrade : Ptr → Duration → World → World
upgrade p limit w =
    if is_open_valve (w.heap p).type && ltb_ℤ (pos 0) limit
    then set_action p (as_timed limit) w
    else w

-- `go p.checkClosedWithStatus3(info.BridgeName, info.CommandTarget())`.
unfoldable pub check_closed : World → World
check_closed w = emit (status_check w.info.bridge_name (command_target w.info)) w

abbrev pub if_cancelled : ActionState → World → World → World
if_cancelled cancelled x y = x
if_cancelled _ x y = y

-- What `execute` does when no attempt was confirmed.
unfoldable pub fail_action : Ptr → Bool → Failure → World → World
fail_action p power e w =
    let w1 = set_action p (as_failed w.now e) w in
    let w2 = count_unless_ping p (λ a. action_counted a.type (text "failed")) w1 in
    if_cancelled (w.heap p).state w (if power then w2 else mark_close_unconfirmed w2)

-- The bookkeeping of a confirmed action.
unfoldable pub fulfil_action : Ptr → World → World
fulfil_action p w =
    let w1 = set_action p (as_fulfilled w.now) w in
    let w2 = count_unless_ping p (λ a. action_counted a.type (text "fulfilled")) w1 in
    count_unless_ping p (λ a. duration_observed a.type (w.now - a.requested_at)) w2

-- The end of a timed open, by the outcome of its close.
unfoldable pub settle_timed : Ptr → Option Failure → World → World
settle_timed p none w = set_action p (as_closed w.now) w
settle_timed p (some e) w = mark_close_unconfirmed (
    emit (action_counted (w.heap p).type (text "close_unconfirmed"))
      (set_action p (as_unconfirmed w.now e) w))

-- The wait of a timed open; `now` is the time of the confirmation.
unfoldable pub timed_wait : Ctx → Ptr → Time → M (Unit {0})
timed_wait ctx p now = do
  w ← get
  let expires = now + pos_part (w.heap p).duration
  modify (set_action p (as_closing expires))
  modify (update_action_id (w.heap p).id)
  pause
  u ← get
  modify (sleep_step ctx (after (u.heap p).duration u))

-- The close of a timed open, which runs under a context of its own.
unfoldable pub timed_close : Ptr → ValveConfig → M (Unit {0})
timed_close p cfg = do
  v ← get
  modify (alloc (v.heap p).valve_name (v.heap p).namespace close (pos 0))
  e ←
      attempt_with_retry (close_ctx (v.now + close_limit)) v.next_ptr false cfg.retry_count
        cfg.command_timeout
  modify check_closed
  pause
  modify (settle_timed p e)

-- What `execute` does once an attempt was confirmed.
unfoldable pub complete : Ctx → Ptr → ValveConfig → Bool → M (Unit {0})
complete ctx p cfg power = do
  when (not power) (modify check_closed)
  w ← get
  modify (fulfil_action p)
  pause
  v ← get
  when (is_open_timed (v.heap p).type) (timed_wait ctx p w.now >> timed_close p cfg)
  modify (update_action_id [])

abbrev pub conclude_action : Ctx → Ptr → ValveConfig → Bool → Option Failure → M (Unit {0})
conclude_action ctx p cfg power none = complete ctx p cfg power
conclude_action ctx p cfg power (some e) = modify (fail_action p power e)

-- `execute` between the claim of the action slot and its release.
unfoldable pub run_action : Ctx → Ptr → ValveConfig → M (Unit {0})
run_action ctx p cfg = do
  w ← get
  let power = powers (w.heap p).type
  e ← attempt_with_retry ctx p power cfg.retry_count cfg.command_timeout
  conclude_action ctx p cfg power e

unfoldable pub claim : Ptr → World → World
claim p w = record w { cancel_fn = true; action_cancelled = false; current = some p }

-- The deferred function of `execute`.
unfoldable pub release : Ptr → World → World
release p w =
    let w' = record w { cancel_fn = false; action_cancelled = true; current = none } in
    if is_internal_safety_ping (w.heap p) then w' else add_to_history p w'

abbrev pub refused : Ptr → ValveConfig → World → Bool
refused p cfg w = cfg.disabled && (is_open_valve (w.heap p).type || is_open_timed (w.heap p).type)

-- `execute`.
unfoldable pub execute : Ctx → Ptr → M (Unit {0})
execute ctx p = do
  w ← get
  let cfg = config w
  modify (upgrade p cfg.max_open_duration)
  pause
  v ← get
  if refused p cfg v
      then modify (λ u. add_to_history p (set_action p as_cancelled u))
      else (do modify (claim p); run_action (action_ctx ctx) p cfg; modify (release p))

-- What the main loop of `run` takes up: the oldest queued action, or the end of its context.
-- At the end an open valve is closed under a context of its own.
unfoldable pub run_next : M (Unit {0})
run_next w = elim w.queue [
  | [] ↦ (tt, w)
  | p ∷ rest ↦ execute pipeline_ctx p (record w { queue = rest })
]

abbrev pub is_opened : ValveState → Bool
is_opened opened = true
is_opened _ = false

unfoldable pub run_done : M (Unit {0})
run_done = do
  w ← get
  when (is_opened (get_state w)) (do
    modify (alloc w.info.name w.info.namespace close (pos 0))
    execute (close_ctx (w.now + close_limit)) w.next_ptr)
