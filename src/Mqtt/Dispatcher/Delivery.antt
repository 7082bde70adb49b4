-- ===== src/Mqtt/Dispatcher/Delivery.antt =====
-- internal/mqtt/dispatcher.go: who receives an event from `Dispatch`.
use valve_controller.Common.{
  ℕ, ◌≡◌, refl, sym, ◌↔◌, ◌⊎◌, inl, inr, true, false, List, [], ◌∷◌, ◌++◌, arith, In, In-append,
  In-append_cases, All, All-append, Bool-cases, ap,
}
use valve_controller.Common.Text.{Text}
use valve_controller.Mqtt.Address.{dispatch_key}
use valve_controller.Mqtt.Event.{SensorEvent}
use valve_controller.Mqtt.Dispatcher.{
  Subscription, Dispatcher, contains, ids, subs_at, collect, visit, dispatch,
}

pub contains_iff : (n : ℕ) (ms : List ℕ) → (contains n ms ≡ true) ↔ In n ms
contains_iff n [] = ground arith
contains_iff n (m ∷ ms) = ground (arith, contains_iff n ms)

-- No number stands twice.
abbrev pub Distinct : List ℕ → Type 0
Distinct [] = Unit
Distinct (n ∷ ns) = (¬ In n ns) × Distinct ns

pub Distinct-concat : (ns : List ℕ) (n : ℕ) → Distinct ns → ¬ In n ns → Distinct (ns ++ n ∷ [])
Distinct-concat [] n h k = (λ z. z, tt)
Distinct-concat (m ∷ ns) n (p, h) k = (
  λ z. elim (In-append_cases m ns (n ∷ []) z) [
    | inl l ↦ p l
    | inr (inl e) ↦ k (inl (sym e))
    | inr (inr f) ↦ f
  ],
  Distinct-concat ns n h (λ z. k (inr z)),
)

module _ {H : Type 0} where
  pub ids-append : (xs ys : List (Subscription H)) → ids (xs ++ ys) ≡ ids xs ++ ids ys
  ids-append [] ys = refl
  ids-append (x ∷ xs) ys = ap (λ l. x.id ∷ l) (ids-append xs ys)

  -- The registered subscriptions that an event under this name reaches.
  abbrev pub reached : Dispatcher H → Text → List (Subscription H)
  reached d [] = []
  reached d (c ∷ s) = subs_at (dispatch_key (c ∷ s)) d.handlers

  -- What the loops keep: `seen` is the ids of `subs`, which are distinct.
  record Kept (r : List ℕ × List (Subscription H)) : Type 0 where
    seen_sound : (n : ℕ) → In n r.0 → In n (ids r.1)
    seen_complete : (n : ℕ) → In n (ids r.1) → In n r.0
    distinct : Distinct (ids r.1)

  Kept-skip :
      (s : Subscription H) (seen : List ℕ) (subs : List (Subscription H))
      → Kept (seen, subs)
      → ¬ In s.id seen
      → Kept (s.id ∷ seen, subs ++ s ∷ [])
  Kept-skip s seen subs k new = record {
    seen_sound = λ n. rw (ids-append subs (s ∷ [])) λ z. elim z [
      | inl e ↦ In-append n (ids subs) (s.id ∷ []) (inr (inl e))
      | inr h ↦ In-append n (ids subs) (s.id ∷ []) (inl (k.seen_sound n h))
    ];
    seen_complete = λ n. rw (ids-append subs (s ∷ [])) λ z.
        elim (In-append_cases n (ids subs) (s.id ∷ []) z) [
          | inl h ↦ inr (k.seen_complete n h)
          | inr (inl e) ↦ inl e
          | inr (inr f) ↦ absurd f
        ];
    distinct =
        rw (ids-append subs (s ∷ []))
          (Distinct-concat (ids subs) s.id k.distinct (λ z. new (k.seen_complete s.id z)));
  }

  not-In : (s : Subscription H) (seen : List ℕ) → contains s.id seen ≡ false → ¬ In s.id seen
  not-In s seen new h = cc ((contains_iff s.id seen).1 h)

  collect-Kept :
      (ss : List (Subscription H)) (seen : List ℕ) (subs : List (Subscription H))
      → Kept (seen, subs)
      → Kept (collect ss seen subs)
  unfolding collect
  collect-Kept [] seen subs k = k
  collect-Kept (s ∷ ss) seen subs k = elim (Bool-cases (contains s.id seen)) [
    | inl old ↦ rw (old, collect) (collect-Kept ss seen subs k)
    | inr new ↦
        rw (new, collect)
          (collect-Kept ss (s.id ∷ seen) (subs ++ s ∷ [])
            (Kept-skip s seen subs k (not-In s seen new)))
  ]

  -- A round adds the ids of the list that it visits, and no others.
  collect-ids :
      (ss : List (Subscription H)) (seen : List ℕ) (subs : List (Subscription H)) (n : ℕ)
      → Kept (seen, subs)
      → In n (ids (collect ss seen subs).1) ↔ (In n (ids subs) ⊎ In n (ids ss))
  unfolding collect
  collect-ids [] seen subs n k = (inl, λ z. elim z [ inl l ↦ l | inr f ↦ absurd f ])
  collect-ids (s ∷ ss) seen subs n k = elim (Bool-cases (contains s.id seen)) [
    | inl old ↦
        let ih = collect-ids ss seen subs n k in
        rw (old, collect)
          (
            λ z. elim (ih.0 z) [ inl l ↦ inl l | inr r ↦ inr (inr r) ],
            λ z. elim z [
              | inl l ↦ ih.1 (inl l)
              | inr (inl e) ↦ ih.1 (inl (rw e (k.seen_sound s.id ((contains_iff s.id seen).0 old))))
              | inr (inr r) ↦ ih.1 (inr r)
            ],
          )
    | inr new ↦
        let grown = subs ++ s ∷ [] in
        let ih =
          collect-ids ss (s.id ∷ seen) grown n (Kept-skip s seen subs k (not-In s seen new)) in
        let parts = ids-append subs (s ∷ []) in
        rw (new, collect)
          (
            λ z. elim (ih.0 z) [
              | inl l ↦ elim (In-append_cases n (ids subs) (s.id ∷ []) (rw parts at l)) [
                | inl h ↦ inl h
                | inr (inl e) ↦ inr (inl e)
                | inr (inr f) ↦ absurd f
              ]
              | inr r ↦ inr (inr r)
            ],
            λ z. elim z [
              | inl l ↦ ih.1 (inl (rw parts (In-append n (ids subs) (s.id ∷ []) (inl l))))
              | inr (inl e) ↦
                  ih.1 (inl (rw parts (In-append n (ids subs) (s.id ∷ []) (inr (inl e)))))
              | inr (inr r) ↦ ih.1 (inr r)
            ],
          )
  ]

  -- What holds of `subs` and of the list that is visited holds of the result.
  collect-All :
      (P : Subscription H → Type 0) (ss : List (Subscription H)) (seen : List ℕ)
      (subs : List (Subscription H))
      → All P ss
      → All P subs
      → All P (collect ss seen subs).1
  unfolding collect
  collect-All P [] seen subs h k = k
  collect-All P (s ∷ ss) seen subs (p, h) k = elim (Bool-cases (contains s.id seen)) [
    | inl old ↦ rw (old, collect) (collect-All P ss seen subs h k)
    | inr new ↦
        rw (new, collect)
          (collect-All P ss (s.id ∷ seen) (subs ++ s ∷ []) h (All-append P subs (s ∷ []) k (p, tt)))
  ]

  visit-Kept :
      (d : Dispatcher H) (name : Text) (r : List ℕ × List (Subscription H))
      → Kept r
      → Kept (visit d name r)
  unfolding visit
  visit-Kept d [] r k = k
  visit-Kept d (c ∷ s) (seen, subs) k = collect-Kept (reached d (c ∷ s)) seen subs k

  visit-ids :
      (d : Dispatcher H) (name : Text) (r : List ℕ × List (Subscription H)) (n : ℕ)
      → Kept r
      → In n (ids (visit d name r).1) ↔ (In n (ids r.1) ⊎ In n (ids (reached d name)))
  unfolding visit
  visit-ids d [] r n k = (inl, λ z. elim z [ inl l ↦ l | inr f ↦ absurd f ])
  visit-ids d (c ∷ s) (seen, subs) n k = collect-ids (reached d (c ∷ s)) seen subs n k

  Kept-start : Kept ([], [])
  Kept-start = record { seen_sound = λ n z. z; seen_complete = λ n z. z; distinct = tt }

  -- An event is delivered to a subscription exactly when that is registered under the event's
  -- friendly name or under its short address, an empty identifier reaching none.
  pub dispatch_reaches :
      (d : Dispatcher H) (ev : SensorEvent) (n : ℕ)
      → In n (ids (dispatch d ev))
        ↔ (In n (ids (reached d ev.device_name)) ⊎ In n (ids (reached d ev.short_addr)))
  unfolding dispatch
  dispatch_reaches d ev n =
      let first = visit-ids d ev.device_name ([], []) n Kept-start in
      let second =
        visit-ids d ev.short_addr (visit d ev.device_name ([], [])) n
          (visit-Kept d ev.device_name ([], []) Kept-start) in
      (
        λ z. elim (second.0 z) [
          | inl l ↦ elim (first.0 l) [ inl f ↦ absurd f | inr h ↦ inl h ]
          | inr r ↦ inr r
        ],
        λ z. elim z [ inl l ↦ second.1 (inl (first.1 (inr l))) | inr r ↦ second.1 (inr r) ],
      )

  -- No subscription receives one event twice, also where the two identifiers are the same.
  pub dispatch-Distinct : (d : Dispatcher H) (ev : SensorEvent) → Distinct (ids (dispatch d ev))
  unfolding dispatch
  dispatch-Distinct d ev =
      let first = visit-Kept d ev.device_name ([], []) Kept-start in
      (visit-Kept d ev.short_addr (visit d ev.device_name ([], [])) first).distinct
