-- ===== src/Mqtt/Bridge/Queries.antt =====
-- internal/mqtt/bridge.go: the answers to ZbStatus3 queries.
use valve_controller.Common.{
  ℕ, ◌≡◌, refl, ap, ◌∙◌, ◌≢◌, ◌⊎◌, false, List, [], ◌∷◌, none, some, arith, inl, inr, Option-cases,
}
use valve_controller.Common.Text.{Text, is_empty}
use valve_controller.Common.Dict.{lookup, lookup-insert_self}
use valve_controller.Mqtt.Address.{dispatch_key}
use valve_controller.Mqtt.Event.{ZbStatus3ValveResult}
use valve_controller.Mqtt.Bridge.{BridgeClient, start_query, channel_for, offer, deliver_all}

-- The first answer in a channel stays.
offer_kept :
    (ch c : ℕ) (r q : ZbStatus3ValveResult) (bc : BridgeClient)
    → bc.chans c ≡ some q
    → (offer ch r bc).chans c ≡ some q
unfolding offer
offer_kept ch c r q bc h = ground arith

deliver_all_kept :
    (rs : List ZbStatus3ValveResult) (c : ℕ) (q : ZbStatus3ValveResult) (bc : BridgeClient)
    → bc.chans c ≡ some q
    → (deliver_all rs bc).chans c ≡ some q
unfolding deliver_all
deliver_all_kept [] c q bc h = h
deliver_all_kept (r ∷ rs) c q bc h = elim (Option-cases (channel_for r bc)) [
  | inl e ↦ rw (e, deliver_all) (deliver_all_kept rs c q bc h)
  | inr (ch, e) ↦
      rw (e, deliver_all) (deliver_all_kept rs c q (offer ch r bc) (offer_kept ch c r q bc h))
]

-- The result is about the device of the query: it has the identifier as its friendly name; or as its
-- short address, and no other query waits for its friendly name.
abbrev pub Answers : ZbStatus3ValveResult → Text → BridgeClient → Type 0
Answers r device_name bc =
    ((r.device_name ≢ []) × (dispatch_key r.device_name ≡ dispatch_key device_name))
    ⊎ ((r.short_addr ≢ [])
        × (dispatch_key r.short_addr ≡ dispatch_key device_name)
        × (lookup (dispatch_key r.device_name) bc.zb_status3_chs ≡ none))

is_empty_no : (s : Text) → s ≢ [] → is_empty s ≡ false
is_empty_no [] h = absurd (h refl)
is_empty_no (c ∷ s) h = refl

channel_found :
    (r : ZbStatus3ValveResult) (device_name : Text) (bc : BridgeClient)
    → Answers r device_name (start_query device_name bc).1
    → channel_for r (start_query device_name bc).1 ≡ some bc.next_chan
unfolding channel_for start_query
channel_found r device_name bc (inl (ne, e)) =
    let found =
      ap (λ k. lookup k (start_query device_name bc).1.zb_status3_chs) e
      ∙ lookup-insert_self (dispatch_key device_name) bc.next_chan bc.zb_status3_chs in
    ground (arith, found, is_empty_no r.device_name ne)
channel_found r device_name bc (inr (ne, e, free)) =
    let found =
      ap (λ k. lookup k (start_query device_name bc).1.zb_status3_chs) e
      ∙ lookup-insert_self (dispatch_key device_name) bc.next_chan bc.zb_status3_chs in
    ground (arith, found, free, is_empty_no r.short_addr ne)

offer_new :
    (ch : ℕ) (r : ZbStatus3ValveResult) (bc : BridgeClient)
    → bc.chans ch ≡ none
    → (offer ch r bc).chans ch ≡ some r
unfolding offer
offer_new ch r bc h = ground arith

delivered :
    (ch : ℕ) (r : ZbStatus3ValveResult) (rs : List ZbStatus3ValveResult) (bc : BridgeClient)
    → channel_for r bc ≡ some ch
    → bc.chans ch ≡ none
    → (deliver_all (r ∷ rs) bc).chans ch ≡ some r
unfolding deliver_all
delivered ch r rs bc e h =
    rw (e, deliver_all) (deliver_all_kept rs ch r (offer ch r bc) (offer_new ch r bc h))

-- A query by friendly name or by short address, in any case, gets the first result that is about its
-- device, whatever results follow.
pub deliver_all-start_query :
    (device_name : Text) (r : ZbStatus3ValveResult) (rs : List ZbStatus3ValveResult)
    (bc : BridgeClient)
    → Answers r device_name (start_query device_name bc).1
    → let ((k, ch), waiting) = start_query device_name bc in
      (deliver_all (r ∷ rs) waiting).chans ch ≡ some r
unfolding start_query
deliver_all-start_query device_name r rs bc h =
    delivered bc.next_chan r rs (start_query device_name bc).1 (channel_found r device_name bc h)
      (ground arith)
