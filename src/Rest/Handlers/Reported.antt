-- ===== src/Rest/Handlers/Reported.antt =====
-- internal/api/handler.go with the scheduler, the bridge and the pipeline of one valve: a close, from
-- the request to what the API says of the valve after the device has reported.
use valve_controller.Common.{
  ℕ, suc, ◌<◌, pos, pos_part, ◌≡◌, refl, sym, ap, subst, ◌∙◌, [], ◌∷◌, some, false, In, arith,
  Option,
}
use valve_controller.Common.Text.{Text, text}
use valve_controller.Common.Dict.{Dict}
use valve_controller.Device.{Duration, ValveInfo, closed, command_target}
use valve_controller.Mqtt.Tasmota.{Json, event_of, bridge_name_from_topic}
use valve_controller.Mqtt.Bridge.{handle_sensor}
use valve_controller.Scheduler.Action.{close, fulfilled, new_action}
use valve_controller.Scheduler.World.{pipeline_ctx, action_ctx, World}
use valve_controller.Scheduler.Shared.{submit, alloc, enqueue, send_action}
use valve_controller.Scheduler.Execute.{execute, run_next}
use valve_controller.Scheduler.Keeps.Tasks.{write_self}
use valve_controller.Scheduler.Confirmation.Telemetry.{IsClear}
use valve_controller.Scheduler.Confirmation.Telemetry.Listening.{IsAbout}
use valve_controller.Scheduler.Confirmation.Reported.{first_attempt, execute_reported}
use valve_controller.Scheduler.Valves.{
  Scheduler, ok, at_pipe, get_pipeline, get_valve_info, request_close,
}
use valve_controller.K8s.Valves.{request_key}
use valve_controller.Rest.{
  HttpRequest, get_valve_route, close_route, ValveResponse, valve_body, Server,
}
use valve_controller.Rest.Views.{valve_state_text, to_valve_response}
use valve_controller.Rest.Handlers.{respond, accepted, handle_get_valve, route}
use valve_controller.Rest.Handlers.Managed.{
  IsFor, verified-passes, resolved, close-accepted, close-status,
}

-- The world of an idle pipeline when its main loop has taken up the close that it was sent.
abbrev pub taking : World → World
taking w = record (submit close (pos 0) w) { queue = [] }

submitted-queue : (w : World) → w.queue ≡ [] → (submit close (pos 0) w).queue ≡ w.next_ptr ∷ []
unfolding submit alloc enqueue send_action
submitted-queue w e = rw e refl

run_next-submitted :
    (w : World)
    → w.queue ≡ []
    → (run_next (submit close (pos 0) w)).1 ≡ (execute pipeline_ctx w.next_ptr (taking w)).1
unfolding run_next
run_next-submitted w e = rw (run_next, submitted-queue w e) refl

taking-type : (w : World) → ((taking w).heap w.next_ptr).type ≡ close
unfolding submit alloc enqueue new_action
taking-type w = ap (λ a. a.type) (write_self w.heap w.next_ptr _)

taking-next_ptr : (w : World) → w.next_ptr < (taking w).next_ptr
unfolding submit alloc enqueue
taking-next_ptr w = omega arith

taking-info : (w : World) → (taking w).info ≡ w.info
unfolding submit alloc enqueue
taking-info w = refl

at_pipe-pipes :
    (a : ℕ) (f : World → World) (s : Scheduler) → (at_pipe a f s).pipes a ≡ f (s.pipes a)
at_pipe-pipes a f s = ground arith

at_pipe-get_pipeline :
    (k : Text) (a : ℕ) (f : World → World) (s : Scheduler)
    → get_pipeline k (at_pipe a f s) ≡ get_pipeline k s
unfolding get_pipeline
at_pipe-get_pipeline k a f s = refl

accepted-sched :
    (k : Text) (a : ℕ) (h : Server)
    → get_pipeline k h.sched ≡ ok a
    → (accepted k (request_close k h.sched) h).1.sched ≡ at_pipe a (submit close (pos 0)) h.sched
unfolding request_close
accepted-sched k a h known = rw (request_close, known) refl

-- The main loop of the pipeline at `a` works off the oldest action.
abbrev pub after_round : ℕ → Server → Server
after_round a h = record h { sched = at_pipe a (λ w. (run_next w).1) h.sched }

module _ (namespace name : Text) (r : HttpRequest) (for : IsFor namespace name r) where
  -- What the API says of a valve that is recorded as closed.
  shown-closed :
      (pd : Text → Option Duration) (a : ℕ) (h : Server)
      → get_pipeline (request_key namespace name) h.sched ≡ ok a
      → (h.sched.pipes a).info.state ≡ closed
      → (v : ValveResponse) × (route pd (get_valve_route name) r h
          ≡ (respond 200 (valve_body v), h))
        × (v.state ≡ text "closed")
  unfolding route handle_get_valve get_valve_info to_valve_response valve_state_text
  shown-closed pd a h known e = (
    to_valve_response (h.sched.pipes a).info h.sched,
    verified-passes (λ r h. (handle_get_valve name r h, h)) r h for.verified
        ∙ rw (handle_get_valve, resolved namespace name r for h.sched)
            (rw (get_valve_info, known) refl),
    ap valve_state_text e,
  )

  round-closed :
      (pd : Text → Option Duration) (a : ℕ) (h : Server)
      → get_pipeline (request_key namespace name) h.sched ≡ ok a
      → (h.sched.pipes a).queue ≡ []
      → ((after_round a (route pd (close_route name) r h).1).sched.pipes a)
        ≡ (execute pipeline_ctx (h.sched.pipes a).next_ptr (taking (h.sched.pipes a))).1
  round-closed pd a h known e =
      let k = request_key namespace name in
      let round : World → World = λ w. (run_next w).1 in
      let sent = ap (λ x. x.1.sched) (close-accepted namespace name r for pd h) in
      at_pipe-pipes a round (route pd (close_route name) r h).1.sched
      ∙ ap (λ s. round (s.pipes a)) (sent ∙ accepted-sched k a h known)
      ∙ ap round (at_pipe-pipes a (submit close (pos 0)) h.sched)
      ∙ run_next-submitted (h.sched.pipes a) e

  round-known :
      (pd : Text → Option Duration) (a : ℕ) (h : Server)
      → get_pipeline (request_key namespace name) h.sched ≡ ok a
      → get_pipeline
          (request_key namespace name)
          (after_round a (route pd (close_route name) r h).1).sched
        ≡ ok a
  round-known pd a h known =
      let k = request_key namespace name in
      let sent = ap (λ x. x.1.sched) (close-accepted namespace name r for pd h) in
      at_pipe-get_pipeline k a (λ w. (run_next w).1) (route pd (close_route name) r h).1.sched
      ∙ ap (get_pipeline k) (sent ∙ accepted-sched k a h known)
      ∙ at_pipe-get_pipeline k a (submit close (pos 0)) h.sched
      ∙ known

  -- A close of a known valve, asked for with a verified certificate, by name and namespace, while no
  -- action waits in its pipeline, is accepted with 202. If the pipeline has an attempt to make,
  -- nothing stands in the way of the first (its context is not done, it sends its command once, and
  -- the broker of the bridge accepts that), and next a message of the bridge says that the device has
  -- power 0, in an entry that can be read and names the device by the friendly name or by the short
  -- address in any case, then the close is fulfilled when the main loop has worked it off, and the
  -- API answers that the valve is closed.
  pub route_closes :
      (json : Json) (topic : Text) (payload : json.Raw) (es : Dict json.Raw) (k : Text)
      (raw : json.Raw) (fs : Dict json.Raw) (pd : Text → Option Duration) (a n : ℕ) (h : Server)
      → get_pipeline (request_key namespace name) h.sched ≡ ok a
      → (h.sched.pipes a).queue ≡ []
      → pos_part (h.sched.pipes a).info.config.retry_count ≡ suc n
      → json.zb_received payload ≡ some es
      → In (k, raw) es
      → json.fields raw ≡ some fs
      → let w = h.sched.pipes a in
        let p = w.next_ptr in
        let u = first_attempt p (taking w) in
        IsAbout (command_target u.info) (event_of json (bridge_name_from_topic topic) fs)
        → (event_of json (bridge_name_from_topic topic) fs).power ≡ some (pos 0)
        → IsClear
            (action_ctx pipeline_ctx)
            false
            w.info.config.command_timeout
            (handle_sensor json topic payload)
            u
        → let x = route pd (close_route name) r h in
          let h' = after_round a x.1 in
          (x.0.status ≡ 202)
          × (((h'.sched.pipes a).heap p).state ≡ fulfilled)
          × ((v : ValveResponse) × (route pd (get_valve_route name) r h'
                ≡ (respond 200 (valve_body v), h'))
              × (v.state ≡ text "closed"))
  route_closes json topic payload es k raw fs pd a n h known idle c z i f about q clear =
      let w = h.sched.pipes a in
      let p = w.next_ptr in
      let h' = after_round a (route pd (close_route name) r h).1 in
      let (done, shut) =
        execute_reported json topic payload es k raw fs pipeline_ctx p n (taking w)
          (taking-next_ptr w) (taking-type w)
          (ap (λ (j : ValveInfo). pos_part j.config.retry_count) (taking-info w) ∙ c) z i f about q
          (subst
            (λ (j : ValveInfo).
              IsClear (action_ctx pipeline_ctx) false j.config.command_timeout
                (handle_sensor json topic payload) (first_attempt p (taking w)))
            (sym (taking-info w)) clear) in
      let same = round-closed pd a h known idle in
      (
        ap (λ x. x.0.status) (close-accepted namespace name r for pd h)
            ∙ close-status (request_key namespace name) a h known,
        ap (λ (v : World). (v.heap p).state) same ∙ done,
        shown-closed pd a h' (round-known pd a h known)
            (ap (λ (v : World). v.info.state) same ∙ shut),
      )
