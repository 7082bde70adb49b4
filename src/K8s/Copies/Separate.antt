-- ===== src/K8s/Copies/Separate.antt =====
-- api/v1alpha1/zz_generated.deepcopy.go: writes through a list of valves and through its copy.
use valve_controller.Common.{
  ◌≡◌, ◌≢◌, refl, ◌∙◌, ℕ, ◌≤◌, ◌<◌, List, [], ◌∷◌, Option, none, some, map, arith, All,
}
use valve_controller.K8s.{MqttValveSpec, MqttValveStatus}
use valve_controller.K8s.Copies.{Ptr, Memory}
use valve_controller.K8s.Copies.Areas.{Within-disjoint, Within-disjoint_above}
use valve_controller.K8s.Copies.Isolation.{read-agree}
use valve_controller.K8s.Copies.Objects.{
  ValveObject, ValveListObject, Copiers, copy_items, deep_copy_list_into,
}
use valve_controller.K8s.Copies.Lists.{
  AreExact, value_of, AllStored, AllLie, copy_items-AreCopied, stored-values,
}

module _ {T O : Type 0} where
  -- The two memories differ at most where some status of the valves points to.
  pub record OnlyThroughAny (vs : List (ValveObject T O)) (m n : Memory) : Type 0 where
    pub times :
        (p : Ptr)
        → All (λ v. (v.status.last_open_time ≢ some p) × (v.status.last_close_time ≢ some p)) vs
        → n.times.cell p ≡ m.times.cell p
    pub arrays :
        (p : Ptr) → All (λ v. v.status.conditions ≢ some p) vs → n.arrays.cell p ≡ m.arrays.cell p

  values-agree :
      (low high low' high' : ℕ) (m n : Memory) (vs : List (ValveObject T O))
      → AllLie low high low' high' vs
      → ((r : Ptr) → low ≤ r → r < high → n.times.cell r ≡ m.times.cell r)
      → ((r : Ptr) → low' ≤ r → r < high' → n.arrays.cell r ≡ m.arrays.cell r)
      → map (value_of n) vs ≡ map (value_of m) vs
  values-agree low high low' high' m n [] h t a = refl
  values-agree low high low' high' m n (v ∷ vs) (x, h) t a =
      rw
        (
          read-agree low high low' high' m n v.status x t a,
          values-agree low high low' high' m n vs h t a,
        )
        refl

  -- A cell below a part is none that a status in the part points to, and so above it.
  below-times :
      (mid high low' high' : ℕ) (p : Ptr) (vs : List (ValveObject T O))
      → p < mid
      → AllLie mid high low' high' vs
      → All (λ v. (v.status.last_open_time ≢ some p) × (v.status.last_close_time ≢ some p)) vs
  below-times mid high low' high' p [] h x = tt
  below-times mid high low' high' p (v ∷ vs) h (x, xs) = (
    (
      Within-disjoint 0 mid high p v.status.last_open_time (omega arith) h x.opened_at,
      Within-disjoint 0 mid high p v.status.last_close_time (omega arith) h x.closed_at,
    ),
    below-times mid high low' high' p vs h xs,
  )

  below-arrays :
      (low high mid high' : ℕ) (p : Ptr) (vs : List (ValveObject T O))
      → p < mid
      → AllLie low high mid high' vs
      → All (λ v. v.status.conditions ≢ some p) vs
  below-arrays low high mid high' p [] h x = tt
  below-arrays low high mid high' p (v ∷ vs) h (x, xs) = (
    Within-disjoint 0 mid high' p v.status.conditions (omega arith) h x.array,
    below-arrays low high mid high' p vs h xs,
  )

  above-times :
      (mid mid' : ℕ) (p : Ptr) (vs : List (ValveObject T O))
      → mid ≤ p
      → AllLie 0 mid 0 mid' vs
      → All (λ v. (v.status.last_open_time ≢ some p) × (v.status.last_close_time ≢ some p)) vs
  above-times mid mid' p [] h x = tt
  above-times mid mid' p (v ∷ vs) h (x, xs) = (
    (
      Within-disjoint_above 0 mid mid p v.status.last_open_time h x.opened_at,
      Within-disjoint_above 0 mid mid p v.status.last_close_time h x.closed_at,
    ),
    above-times mid mid' p vs h xs,
  )

  above-arrays :
      (mid mid' : ℕ) (p : Ptr) (vs : List (ValveObject T O))
      → mid' ≤ p
      → AllLie 0 mid 0 mid' vs
      → All (λ v. v.status.conditions ≢ some p) vs
  above-arrays mid mid' p [] h x = tt
  above-arrays mid mid' p (v ∷ vs) h (x, xs) = (
    Within-disjoint_above 0 mid' mid' p v.status.conditions h x.array,
    above-arrays mid mid' p vs h xs,
  )

module _ {T O L : Type 0} (by : Copiers O L) (exact : AreExact by) where
  items_isolate :
      (vs : List (ValveObject T O)) (m n' n'' : Memory)
      → AllStored m vs
      → OnlyThroughAny (copy_items by vs m).0 (copy_items by vs m).1 n'
      → OnlyThroughAny vs (copy_items by vs m).1 n''
      → (map (value_of n') vs ≡ map (value_of m) vs)
        × (map (value_of n'') (copy_items by vs m).0 ≡ map (value_of m) vs)
  items_isolate vs m n' n'' stored by_copy by_original =
      let us = (copy_items by vs m).0 in
      let n = (copy_items by vs m).1 in
      let c = copy_items-AreCopied by exact vs m stored in
      let t = m.times.next in
      let a = m.arrays.next in
      (
        values-agree 0 t 0 a n n' vs stored
              (λ r _ h. by_copy.times r (below-times t n.times.next a n.arrays.next r us h c.fresh))
              (λ r _ h.
                by_copy.arrays r (below-arrays t n.times.next a n.arrays.next r us h c.fresh))
            ∙ stored-values m n c.extends vs stored,
        values-agree t n.times.next a n.arrays.next n n'' us c.fresh
              (λ r l _. by_original.times r (above-times t a r vs l stored))
              (λ r l _. by_original.arrays r (above-arrays t a r vs l stored))
            ∙ c.values,
      )

module _ {T O L : Type 0} where
  abbrev pub items_of : ValveListObject T O L → List (ValveObject T O)
  items_of l = elim l.items [ none ↦ [] | some vs ↦ vs ]

  -- The value of a list in a memory.
  abbrev pub list_value :
      Memory
      → ValveListObject T O L
      → T × L × Option (List (T × O × MqttValveSpec × MqttValveStatus))
  list_value m l = (
    l.type_meta,
    l.list_meta,
    elim l.items [ none ↦ none | some vs ↦ some (map (value_of m) vs) ],
  )

module _ {T O L : Type 0} (by : Copiers O L) where
  -- What the theorem below says of a list and its copy.
  abbrev pub Isolates : ValveListObject T O L → Memory → Memory → Memory → Type 0
  Isolates l m n' n'' =
      let r = deep_copy_list_into by l m in
      (list_value r.1 r.0 ≡ list_value m l)
      × (list_value n' l ≡ list_value m l)
      × (list_value n'' r.0 ≡ list_value m l)

module _ {T O L : Type 0} (by : Copiers O L) (exact : AreExact by) where
  literal-Isolates :
      (t : T) (lm : L) (items : Option (List (ValveObject T O))) (m n' n'' : Memory)
      → let l : ValveListObject T O L = record { type_meta = t; list_meta = lm; items = items } in
        let r = deep_copy_list_into by l m in
        AllStored m (items_of l)
        → OnlyThroughAny (items_of r.0) r.1 n'
        → OnlyThroughAny (items_of l) r.1 n''
        → Isolates by l m n' n''
  unfolding deep_copy_list_into
  literal-Isolates t lm none m n' n'' stored by_copy by_original =
      (rw (exact.list_meta lm) refl, refl, rw (exact.list_meta lm) refl)
  literal-Isolates t lm (some vs) m n' n'' stored by_copy by_original =
      let c = copy_items-AreCopied by exact vs m stored in
      let (p, q) = items_isolate by exact vs m n' n'' stored by_copy by_original in
      (rw (exact.list_meta lm, c.values) refl, rw p refl, rw (exact.list_meta lm, q) refl)

  -- Given that the copies of times, conditions and metadata are equal to the originals: the deep
  -- copy of a list of valves whose statuses are stored in memory has the value of the original, nil
  -- items included; whatever is later written through the pointers of the copied statuses alone
  -- leaves the value of the original, and whatever is written through those of the original alone
  -- leaves the value of the copy.
  pub deep_copy_list_into-Isolates :
      (l : ValveListObject T O L) (m n' n'' : Memory)
      → AllStored m (items_of l)
      → OnlyThroughAny (items_of (deep_copy_list_into by l m).0) (deep_copy_list_into by l m).1 n'
      → OnlyThroughAny (items_of l) (deep_copy_list_into by l m).1 n''
      → Isolates by l m n' n''
  deep_copy_list_into-Isolates l m n' n'' =
      literal-Isolates l.type_meta l.list_meta l.items m n' n''
