-- ===== src/Mqtt/Dispatcher/Registry.antt =====
-- internal/mqtt/dispatcher.go: the register of subscriptions, and its invariant.
use valve_controller.Common.{
  ◌∙◌, ℕ, suc, ◌≤◌, ◌≡◌, refl, sym, ◌≢◌, ◌⊎◌, inl, inr, false, List, [], ◌∷◌, ◌++◌, Option, none,
  some, arith, ◌==◌, In, In-append_cases, Bool-cases, or_keep, if◌then◌else◌,
}
use valve_controller.Common.Text.{Text, eq_text, eq_text_iff}
use valve_controller.Common.Dict.{
  Dict, lookup, insert, delete, lookup-insert, lookup-delete, lookup-insert_self,
}
use valve_controller.Mqtt.Address.{dispatch_key}
use valve_controller.Mqtt.Dispatcher.{
  Subscription, Dispatcher, contains, ids, subs_at, new_dispatcher, subscribe, remove_sub, is_nil,
  unsubscribe,
}
use valve_controller.Mqtt.Dispatcher.Delivery.{contains_iff, ids-append, Distinct, Distinct-concat}

module _ {H : Type 0} where
  -- Every id was given out, none is registered twice, and no key holds an empty list.
  pub record IsValid (d : Dispatcher H) : Type 0 where
    pub fresh : (k : Text) (n : ℕ) → In n (ids (subs_at k d.handlers)) → n ≤ d.next_id
    pub single :
        (k j : Text) (n : ℕ)
        → In n (ids (subs_at k d.handlers))
        → In n (ids (subs_at j d.handlers))
        → k ≡ j
    pub distinct : (k : Text) → Distinct (ids (subs_at k d.handlers))
    pub filled : (k : Text) → lookup k d.handlers ≢ some []

  ids-remove_sub :
      (id n : ℕ) (ss : List (Subscription H)) → In n (ids (remove_sub id ss)) → In n (ids ss)
  unfolding remove_sub
  ids-remove_sub id n [] h = h
  ids-remove_sub id n (s ∷ ss) h = ground (arith, ids-remove_sub id n ss)

  pub remove_sub-append :
      (s : Subscription H) (ss : List (Subscription H))
      → contains s.id (ids ss) ≡ false
      → remove_sub s.id (ss ++ s ∷ []) ≡ ss
  unfolding remove_sub
  remove_sub-append s [] h = ground arith
  remove_sub-append s (t ∷ ss) h = ground (arith, remove_sub-append s ss)

  remove_sub_none :
      (id : ℕ) (ss : List (Subscription H)) → contains id (ids ss) ≡ false → remove_sub id ss ≡ ss
  unfolding remove_sub
  remove_sub_none id [] h = refl
  remove_sub_none id (s ∷ ss) h = ground (arith, remove_sub_none id ss)

  -- What the register holds under a key once the list is left: no entry for an empty one.
  abbrev pub entry : List (Subscription H) → Option (List (Subscription H))
  entry [] = none
  entry (s ∷ ss) = some (s ∷ ss)

  pub lookup-subscribe :
      (name : Text) (handler : H) (d : Dispatcher H) (j : Text)
      → let k = dispatch_key name in
        lookup j (subscribe name handler d).0.handlers ≡ (
          if eq_text k j
          then some (subs_at k d.handlers ++ record { id = suc d.next_id; handler = handler } ∷ [])
          else lookup j d.handlers)
  unfolding subscribe
  lookup-subscribe name handler d j = lookup-insert _ j _ d.handlers

  lookup-tidy :
      (k j : Text) (m : Dict (List (Subscription H)))
      → lookup j (if is_nil (subs_at k m) then delete k m else m)
        ≡ (if eq_text k j then entry (subs_at k m) else lookup j m)
  lookup-tidy k j m = ground (arith, lookup-delete k j m, eq_text_iff k j)

  pub lookup-unsubscribe :
      (k : Text) (id : ℕ) (d : Dispatcher H) (j : Text)
      → lookup j (unsubscribe (k, id) d).handlers ≡ (
          if eq_text k j then entry (remove_sub id (subs_at k d.handlers)) else lookup j d.handlers)
  unfolding unsubscribe
  lookup-unsubscribe k id d j = elim (Bool-cases (contains id (ids (subs_at k d.handlers)))) [
    | inl held ↦
        let left = remove_sub id (subs_at k d.handlers) in
        rw held (
          lookup-tidy k j (insert k left d.handlers)
          ∙ ground (arith, lookup-insert k j left d.handlers, lookup-insert_self k left d.handlers))
    | inr other ↦ rw (other, remove_sub_none id _ other) (lookup-tidy k j d.handlers)
  ]

  pub new_dispatcher-IsValid : IsValid new_dispatcher
  unfolding new_dispatcher lookup
  new_dispatcher-IsValid = record {
    fresh = λ k n h. absurd h;
    single = λ k j n h h'. absurd h;
    distinct = λ k. tt;
    filled = λ k e. cc;
  }

  concat-ne-nil : (s : Subscription H) (ss : List (Subscription H)) → some (ss ++ s ∷ []) ≢ some []
  concat-ne-nil s [] e = cc
  concat-ne-nil s (t ∷ ss) e = cc

  entry-ne-nil : (ss : List (Subscription H)) → entry ss ≢ some []
  entry-ne-nil [] e = cc
  entry-ne-nil (s ∷ ss) e = cc

  pub or_keep-entry : (ss : List (Subscription H)) → or_keep (entry ss) [] ≡ ss
  or_keep-entry [] = refl
  or_keep-entry (s ∷ ss) = refl

  abbrev pub added : Dispatcher H → H → Subscription H
  added d handler = record { id = suc d.next_id; handler = handler }

  In-subscribe :
      (name : Text) (handler : H) (d : Dispatcher H) (k : Text) (n : ℕ)
      → In n (ids (subs_at k (subscribe name handler d).0.handlers))
      → In n (ids (subs_at k d.handlers)) ⊎ ((n ≡ suc d.next_id) × (dispatch_key name ≡ k))
  In-subscribe name handler d k n =
      rw (lookup-subscribe name handler d k) (elim (Bool-cases (eq_text (dispatch_key name) k)) [
        | inl e ↦
            let same = (eq_text_iff (dispatch_key name) k).0 e in
            rw
              (
                e,
                ← same,
                ids-append (subs_at (dispatch_key name) d.handlers) (added d handler ∷ []),
              )
              λ z. elim (In-append_cases n _ (suc d.next_id ∷ []) z) [
                | inl old ↦ inl old
                | inr (inl new) ↦ inr (new, refl)
                | inr (inr f) ↦ absurd f
              ]
        | inr e ↦ rw e inl
      ])

  In-unsubscribe :
      (k : Text) (id : ℕ) (d : Dispatcher H) (j : Text) (n : ℕ)
      → In n (ids (subs_at j (unsubscribe (k, id) d).handlers))
      → In n (ids (subs_at j d.handlers))
  In-unsubscribe k id d j n = rw (lookup-unsubscribe k id d j) (elim (Bool-cases (eq_text k j)) [
    | inl e ↦
        rw (e, or_keep-entry (remove_sub id (subs_at k d.handlers)), ← (eq_text_iff k j).0 e)
          (ids-remove_sub id n (subs_at k d.handlers))
    | inr e ↦ rw e (λ h. h)
  ])

  pub not-contains_above :
      (d : Dispatcher H) (k : Text)
      → IsValid d
      → contains (suc d.next_id) (ids (subs_at k d.handlers)) ≡ false
  not-contains_above d k v =
      elim (Bool-cases (contains (suc d.next_id) (ids (subs_at k d.handlers)))) [
        | inl held ↦
            let h = v.fresh k (suc d.next_id) ((contains_iff _ _).0 held) in
            absurd (omega (arith, h))
        | inr free ↦ free
      ]

  Distinct-remove_sub :
      (id : ℕ) (ss : List (Subscription H)) → Distinct (ids ss) → Distinct (ids (remove_sub id ss))
  unfolding remove_sub
  Distinct-remove_sub id [] h = tt
  Distinct-remove_sub id (s ∷ ss) (p, h) = elim (Bool-cases (s.id == id)) [
    | inl e ↦ rw e h
    | inr e ↦ rw e ((λ z. p (ids-remove_sub id s.id ss z)), Distinct-remove_sub id ss h)
  ]

  -- To subscribe keeps the register valid: the ids are fresh and distinct, and no list is empty.
  pub subscribe-IsValid :
      (name : Text) (handler : H) (d : Dispatcher H)
      → IsValid d
      → IsValid (subscribe name handler d).0
  unfolding subscribe
  subscribe-IsValid name handler d v = record {
    fresh = λ k n h. elim (In-subscribe name handler d k n h) [
      | inl old ↦ omega (arith, v.fresh k n old)
      | inr (new, _) ↦ omega arith
    ];
    single = λ k j n h h'. elim (In-subscribe name handler d k n h) [
      | inl old ↦ elim (In-subscribe name handler d j n h') [
        | inl old' ↦ v.single k j n old old'
        | inr (new, _) ↦ absurd (omega (arith, v.fresh k n old))
      ]
      | inr (new, here) ↦ elim (In-subscribe name handler d j n h') [
        | inl old ↦ absurd (omega (arith, v.fresh j n old))
        | inr (_, there) ↦ sym here ∙ there
      ]
    ];
    distinct = λ k.
        rw (lookup-subscribe name handler d k) (elim (Bool-cases (eq_text (dispatch_key name) k)) [
          | inl e ↦
              rw (e, ids-append (subs_at (dispatch_key name) d.handlers) (added d handler ∷ []))
                (Distinct-concat _ _ (v.distinct (dispatch_key name))
                  (λ z. absurd (omega (arith, v.fresh (dispatch_key name) _ z))))
          | inr e ↦ rw e (v.distinct k)
        ]);
    filled = λ k.
        rw (lookup-subscribe name handler d k) (elim (Bool-cases (eq_text (dispatch_key name) k)) [
          | inl e ↦ rw e (concat-ne-nil _ _)
          | inr e ↦ rw e (v.filled k)
        ]);
  }

  -- To unsubscribe keeps the register valid: the ids are fresh and distinct, and no list is empty.
  pub unsubscribe-IsValid :
      (k : Text) (id : ℕ) (d : Dispatcher H) → IsValid d → IsValid (unsubscribe (k, id) d)
  unfolding unsubscribe
  unsubscribe-IsValid k id d v = record {
    fresh = λ j n h. v.fresh j n (In-unsubscribe k id d j n h);
    single =
        λ i j n h h'. v.single i j n (In-unsubscribe k id d i n h) (In-unsubscribe k id d j n h');
    distinct = λ j. rw (lookup-unsubscribe k id d j) (elim (Bool-cases (eq_text k j)) [
      | inl e ↦
          rw (e, or_keep-entry (remove_sub id (subs_at k d.handlers)))
            (Distinct-remove_sub id _ (v.distinct k))
      | inr e ↦ rw e (v.distinct j)
    ]);
    filled = λ j. rw (lookup-unsubscribe k id d j) (elim (Bool-cases (eq_text k j)) [
      | inl e ↦ rw e (entry-ne-nil _)
      | inr e ↦ rw e (v.filled j)
    ]);
  }
