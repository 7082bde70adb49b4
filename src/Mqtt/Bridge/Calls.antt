-- ===== src/Mqtt/Bridge/Calls.antt =====
-- internal/mqtt/bridge.go: `Connect`, `SendZbSend` and `SendZbStatus3`, their calls through the manager
-- (internal/mqtt/manager.go), and what `checkClosedWithStatus3` (internal/scheduler/pipeline.go) makes
-- of an answer. What becomes of a token of the Paho client is an input, and so is what other
-- goroutines do to the client until an answer is there or the wait is over.
use valve_controller.Common.{
  ◌≡◌, refl, ap, subst, pos, eqb_ℤ, Bool, false, not, List, ◌∷◌, ◌++◌, Option, none, some,
  Option-cases, inl, inr,
}
use valve_controller.Common.Text.{Text, text, slash}
use valve_controller.Common.Dict.{lookup, lookup-delete_self}
use valve_controller.Mqtt.Address.{dispatch_key}
use valve_controller.Mqtt.Event.{ZbStatus3ValveResult}
use valve_controller.Mqtt.Tasmota.{Json, zb_send_payload}
use valve_controller.Mqtt.Bridge.{BridgeClient, start_query, end_query, deliver_all}
use valve_controller.Mqtt.Bridge.Queries.{Answers, deliver_all-start_query}
use valve_controller.Mqtt.Manager.{Manager}

-- The token is done, without or with an error, or the context is done first.
pub data Token : Type 0 where
  token_done token_failed context_first : Token

pub data CallError : Type 0 where
  no_payload publish_failed cancelled_call no_answer not_connected : CallError

-- `select { case <-token.Done(): …; case <-ctx.Done(): … }`.
unfoldable pub token_error : Token → Option CallError
token_error token_done = none
token_error token_failed = some publish_failed
token_error context_first = some cancelled_call

-- `Connect`.
unfoldable pub connect : Token → Option CallError
connect token = token_error token

abbrev pub command_topic : Text → Text → Text
command_topic bridge last = text "cmnd" ++ slash ∷ (bridge ++ slash ∷ last)

-- `SendZbSend`: the message that is published, if one is, and the error.
unfoldable pub publish_zb_send :
    (json : Json) → Text → Bool → Token → BridgeClient → Option (Text × json.Raw) × Option CallError
publish_zb_send json device_name power token bc = elim (zb_send_payload json device_name power) [
  | none ↦ (none, some no_payload)
  | some payload ↦
      (some (command_topic bc.cfg.bridge_name (text "ZbSend"), payload), token_error token)
]

pub data Reply : Type 0 where
  call_error : CallError → Reply
  reply : ZbStatus3ValveResult → Reply

-- The last select: an answer in the channel, or else the end of the wait.
abbrev pub received : Option ZbStatus3ValveResult → CallError → Reply
received none e = call_error e
received (some r) e = reply r

-- `SendZbStatus3`, with the reason why the wait would end without an answer.
unfoldable pub send_zb_status3 :
    Text
    → Token
    → (meanwhile : BridgeClient → BridgeClient) → CallError
    → BridgeClient
    → Reply × BridgeClient
send_zb_status3 device_name token meanwhile e bc =
    let ((k, ch), waiting) = start_query device_name bc in
    elim (token_error token) [
      | some failure ↦ (call_error failure, end_query k waiting)
      | none ↦ let later = meanwhile waiting in (received (later.chans ch) e, end_query k later)
    ]

-- The client that `Manager.SendZbSend` and `Manager.SendZbStatus3` call, if the bridge has one.
unfoldable pub client_of : Text → Manager → Option BridgeClient
client_of bridge_name mgr = lookup bridge_name mgr.bridges

-- Whether `checkClosedWithStatus3` warns that the valve is still open.
unfoldable pub still_open : Reply → Bool
still_open (call_error e) = false
still_open (reply r) = elim r.power [ none ↦ false | some p ↦ not (eqb_ℤ p (pos 0)) ]

end_query-lookup : (k : Text) (bc : BridgeClient) → lookup k (end_query k bc).zb_status3_chs ≡ none
unfolding end_query
end_query-lookup k bc = lookup-delete_self k bc.zb_status3_chs

start_query-key :
    (device_name : Text) (bc : BridgeClient)
    → (start_query device_name bc).0.0 ≡ dispatch_key device_name
unfolding start_query
start_query-key device_name bc = refl

-- However a query ends, none is left under the key of its device.
pub send_zb_status3_ends :
    (device_name : Text) (token : Token) (meanwhile : BridgeClient → BridgeClient) (e : CallError)
    (bc : BridgeClient)
    → lookup
        (dispatch_key device_name)
        (send_zb_status3 device_name token meanwhile e bc).1.zb_status3_chs
      ≡ none
unfolding send_zb_status3
send_zb_status3_ends device_name token meanwhile e bc =
    let waiting = (start_query device_name bc).1 in
    subst (λ k. lookup k (send_zb_status3 device_name token meanwhile e bc).1.zb_status3_chs ≡ none)
      (start_query-key device_name bc)
      (elim (Option-cases (token_error token)) [
        | inl h ↦
            rw (send_zb_status3, h)
              (end_query-lookup (start_query device_name bc).0.0 (meanwhile waiting))
        | inr (f, h) ↦
            rw (send_zb_status3, h) (end_query-lookup (start_query device_name bc).0.0 waiting)
      ])

-- Let a query be published, and let nothing happen to the client until its end but that a result `r`
-- and after it further results are delivered. Let `r`, the first of them, be about the device: its
-- friendly name is not empty and is taken for the identifier of the query; or its short address is,
-- and once the query stands in the client none waits under the friendly name that `r` has. Then the
-- query returns `r`, whatever results follow, and leaves no query under its key.
pub send_zb_status3_answered :
    (device_name : Text) (r : ZbStatus3ValveResult) (rs : List ZbStatus3ValveResult) (e : CallError)
    (bc : BridgeClient)
    → Answers r device_name (start_query device_name bc).1
    → let x = send_zb_status3 device_name token_done (deliver_all (r ∷ rs)) e bc in
      (x.0 ≡ reply r) × (lookup (dispatch_key device_name) x.1.zb_status3_chs ≡ none)
unfolding send_zb_status3 token_error
send_zb_status3_answered device_name r rs e bc h = (
  ap (λ o. received o e) (deliver_all-start_query device_name r rs bc h),
  send_zb_status3_ends device_name token_done (deliver_all (r ∷ rs)) e bc,
)
