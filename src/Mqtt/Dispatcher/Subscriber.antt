-- ===== src/Mqtt/Dispatcher/Subscriber.antt =====
-- internal/mqtt/dispatcher.go: `Subscribe` and `Dispatch` as a subscriber sees them.
use valve_controller.Common.{
  ◌∙◌, ℕ, suc, ◌≡◌, refl, ap, ◌≢◌, ◌⊎◌, inl, inr, List, [], ◌∷◌, ◌++◌, arith, subst, ◌==◌, ==_iff,
  ==_false, In, In-append, Bool-cases,
}
use valve_controller.Common.Text.{Text, eq_text, eq_text_iff, eq_text_refl}
use valve_controller.Common.Dict.{lookup, lookup-insert, lookup-insert_self}
use valve_controller.Mqtt.Event.{SensorEvent}
use valve_controller.Mqtt.Address.{dispatch_key}
use valve_controller.Mqtt.Dispatcher.{
  dispatch, Subscription, Dispatcher, ids, subs_at, subscribe, remove_sub, unsubscribe,
}
use valve_controller.Mqtt.Dispatcher.Delivery.{ids-append, Distinct, reached, dispatch_reaches}
use valve_controller.Mqtt.Dispatcher.Registry.{
  IsValid, remove_sub-append, entry, lookup-subscribe, lookup-unsubscribe, or_keep-entry, added,
  not-contains_above,
}

-- A text that is not empty and is taken for the same device as another.
abbrev pub IsNamed : Text → Text → Type 0
IsNamed s name = (s ≢ []) × (dispatch_key s ≡ dispatch_key name)

module _ {H : Type 0} where
  entry-subs_at :
      (k : Text) (d : Dispatcher H) → IsValid d → entry (subs_at k d.handlers) ≡ lookup k d.handlers
  entry-subs_at k d v = ground (arith, v.filled k)

  -- In a valid register, the function that `Subscribe` returns, called at once, leaves every key as it
  -- was.
  pub unsubscribe-subscribe :
      (name : Text) (handler : H) (d : Dispatcher H) (j : Text)
      → IsValid d
      → let (d', u) = subscribe name handler d in
        lookup j (unsubscribe u d').handlers ≡ lookup j d.handlers
  unfolding subscribe
  unsubscribe-subscribe name handler d j v =
      let k = dispatch_key name in
      let d' = (subscribe name handler d).0 in
      lookup-unsubscribe k (suc d.next_id) d' j ∙ elim (Bool-cases (eq_text k j)) [
        | inl e ↦
            rw (e, lookup-insert_self k (subs_at k d.handlers ++ added d handler ∷ []) d.handlers)
              (rw
                (remove_sub-append (added d handler) (subs_at k d.handlers)
                  (not-contains_above d k v))
                (rw (entry-subs_at k d v) (ap (λ t. lookup t d.handlers) ((eq_text_iff k j).0 e))))
        | inr e ↦ rw (e, lookup-insert k j _ d.handlers, e) refl
      ]

  not-In-remove_sub :
      (id : ℕ) (ss : List (Subscription H)) → Distinct (ids ss) → ¬ In id (ids (remove_sub id ss))
  unfolding remove_sub
  not-In-remove_sub id [] h = λ z. z
  not-In-remove_sub id (s ∷ ss) (p, h) = elim (Bool-cases (s.id == id)) [
    | inl e ↦ rw e (subst (λ n. ¬ In n (ids ss)) ((==_iff s.id id).0 e) p)
    | inr e ↦ rw e λ z. elim z [
      | inl e' ↦ absurd (omega (arith, ==_false s.id id e))
      | inr z' ↦ not-In-remove_sub id ss h z'
    ]
  ]

  not-In-unsubscribe :
      (k : Text) (id : ℕ) (d : Dispatcher H) (j : Text)
      → IsValid d
      → In id (ids (subs_at k d.handlers))
      → ¬ In id (ids (subs_at j (unsubscribe (k, id) d).handlers))
  not-In-unsubscribe k id d j v held =
      rw (lookup-unsubscribe k id d j) (elim (Bool-cases (eq_text k j)) [
        | inl e ↦
            rw (e, or_keep-entry (remove_sub id (subs_at k d.handlers)))
              (not-In-remove_sub id (subs_at k d.handlers) (v.distinct k))
        | inr e ↦ rw e λ z. cc ((eq_text_iff k j).1 (v.single k j id held z))
      ])

  not-reached :
      (k : Text) (id : ℕ) (d : Dispatcher H) (name : Text)
      → IsValid d
      → In id (ids (subs_at k d.handlers))
      → ¬ In id (ids (reached (unsubscribe (k, id) d) name))
  not-reached k id d [] v held = λ z. z
  not-reached k id d (c ∷ s) v held = not-In-unsubscribe k id d (dispatch_key (c ∷ s)) v held

  -- In a valid register, a subscription that was registered receives no event under any identifier
  -- once it is unsubscribed.
  pub unsubscribe_stops :
      (k : Text) (id : ℕ) (d : Dispatcher H) (ev : SensorEvent)
      → IsValid d
      → In id (ids (subs_at k d.handlers))
      → ¬ In id (ids (dispatch (unsubscribe (k, id) d) ev))
  unfolding unsubscribe
  unsubscribe_stops k id d ev v held z =
      let d' = unsubscribe (k, id) d in
      elim ((dispatch_reaches d' ev id).0 z) [
        | inl h ↦ not-reached k id d ev.device_name v held h
        | inr h ↦ not-reached k id d ev.short_addr v held h
      ]

  pub In-subscribe_self :
      (name : Text) (handler : H) (d : Dispatcher H)
      → In (suc d.next_id) (ids (subs_at (dispatch_key name) (subscribe name handler d).0.handlers))
  In-subscribe_self name handler d =
      let old = subs_at (dispatch_key name) d.handlers in
      rw (lookup-subscribe name handler d (dispatch_key name), eq_text_refl (dispatch_key name))
        (rw (ids-append old (added d handler ∷ []))
          (In-append (suc d.next_id) (ids old) (suc d.next_id ∷ []) (inr (inl refl))))

  reached-subscribe :
      (name : Text) (handler : H) (d : Dispatcher H) (s : Text)
      → IsNamed s name
      → In (suc d.next_id) (ids (reached (subscribe name handler d).0 s))
  reached-subscribe name handler d [] (p, e) = absurd (p refl)
  reached-subscribe name handler d (c ∷ s) (p, e) = rw e (In-subscribe_self name handler d)

  -- A new subscription receives an event as soon as one of the two identifiers that the event
  -- carries is taken for the identifier that was subscribed to.
  pub subscribe_reached :
      (name : Text) (handler : H) (d : Dispatcher H) (ev : SensorEvent)
      → (IsNamed ev.device_name name ⊎ IsNamed ev.short_addr name)
      → In (suc d.next_id) (ids (dispatch (subscribe name handler d).0 ev))
  subscribe_reached name handler d ev h =
      (dispatch_reaches (subscribe name handler d).0 ev (suc d.next_id)).1 (elim h [
        | inl p ↦ inl (reached-subscribe name handler d ev.device_name p)
        | inr p ↦ inr (reached-subscribe name handler d ev.short_addr p)
      ])
