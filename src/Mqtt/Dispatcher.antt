-- ===== src/Mqtt/Dispatcher.antt =====
-- internal/mqtt/dispatcher.go: subscriptions by identifier, and who receives an event.
-- A handler is a value of some type `H`; `dispatch` returns the subscriptions whose handlers the
-- source calls, in the order of the calls. `nextID` is unbounded. Each operation runs under `d.mu`.
pub mod Delivery
pub mod Registry
pub mod Subscriber
use valve_controller.Common.{
  ℕ, suc, Bool, true, false, List, [], ◌∷◌, ◌++◌, Option, ◌==◌, if◌then◌else◌, or_keep, none, some,
}
use valve_controller.Common.Text.{Text, is_empty}
use valve_controller.Common.Dict.{Dict, lookup, insert, delete}
use valve_controller.Mqtt.Address.{dispatch_key}
use valve_controller.Mqtt.Event.{SensorEvent}

pub record Subscription (H : Type 0) : Type 0 where
  pub id : ℕ
  pub handler : H

pub record Dispatcher (H : Type 0) : Type 0 where
  pub handlers : Dict (List (Subscription H))
  pub next_id : ℕ

abbrev pub contains : ℕ → List ℕ → Bool
contains n [] = false
contains n (m ∷ ms) = if m == n then true else contains n ms

module _ {H : Type 0} where
  abbrev pub ids : List (Subscription H) → List ℕ
  ids [] = []
  ids (s ∷ ss) = s.id ∷ ids ss

  unfoldable pub new_dispatcher : Dispatcher H
  new_dispatcher = record { handlers = []; next_id = 0 }

  -- `d.handlers[key]`, which is nil for a missing key.
  abbrev pub subs_at : Text → Dict (List (Subscription H)) → List (Subscription H)
  subs_at k m = or_keep (lookup k m) []

  -- `Subscribe`: the new state, with the key and the id that the unsubscribe function holds.
  unfoldable pub subscribe : Text → H → Dispatcher H → Dispatcher H × (Text × ℕ)
  subscribe device_name handler d =
      let k = dispatch_key device_name in
      let id = suc d.next_id in
      let added = record { id = id; handler = handler } ∷ [] in
      (
        record { handlers = insert k (subs_at k d.handlers ++ added) d.handlers; next_id = id },
        (k, id),
      )

  -- The first subscription of this id is cut out.
  pub remove_sub : ℕ → List (Subscription H) → List (Subscription H)
  remove_sub id [] = []
  remove_sub id (s ∷ ss) = if s.id == id then ss else s ∷ remove_sub id ss

  abbrev is_nil : List (Subscription H) → Bool
  is_nil [] = true
  is_nil (_ ∷ _) = false

  -- The function that `Subscribe` returns.
  unfoldable pub unsubscribe : Text × ℕ → Dispatcher H → Dispatcher H
  unfolding remove_sub
  unsubscribe (k, id) d =
      let subs = subs_at k d.handlers in
      let left =
        if contains id (ids subs) then insert k (remove_sub id subs) d.handlers else d.handlers in
      record d { handlers = if is_nil (subs_at k left) then delete k left else left }

  -- The inner loop of `Dispatch`: `seen` and `subs` as they grow.
  pub collect :
      List (Subscription H) → List ℕ → List (Subscription H) → List ℕ × List (Subscription H)
  collect [] seen subs = (seen, subs)
  collect (s ∷ ss) seen subs = elim (contains s.id seen) [
    | true ↦ collect ss seen subs
    | false ↦ collect ss (s.id ∷ seen) (subs ++ s ∷ [])
  ]

  -- One round of the outer loop.
  pub visit : Dispatcher H → Text → List ℕ × List (Subscription H) → List ℕ × List (Subscription H)
  unfolding collect
  visit d name (seen, subs) =
      if is_empty name
      then (seen, subs)
      else collect (subs_at (dispatch_key name) d.handlers) seen subs

  unfoldable pub dispatch : Dispatcher H → SensorEvent → List (Subscription H)
  unfolding visit
  dispatch d ev = (visit d ev.short_addr (visit d ev.device_name ([], []))).1
