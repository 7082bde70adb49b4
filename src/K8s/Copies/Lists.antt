-- ===== src/K8s/Copies/Lists.antt =====
-- api/v1alpha1/zz_generated.deepcopy.go: a copied list has the values of the original and shares no
-- memory with it.
use valve_controller.Common.{◌≡◌, refl, ◌∙◌, ℕ, ◌≤◌, ◌<◌, List, [], ◌∷◌, map, arith, All}
use valve_controller.Device.{Time}
use valve_controller.K8s.{Condition, MqttValveSpec, MqttValveStatus}
use valve_controller.K8s.Copies.{Ptr, Memory, StatusObject, read}
use valve_controller.K8s.Copies.Areas.{Within-wider}
use valve_controller.K8s.Copies.Isolation.{Lies, IsStored, read-agree, deep_copy_into-IsCopied}
use valve_controller.K8s.Copies.Objects.{ValveObject, Copiers, deep_copy_valve_into, copy_items}

-- What the copies of apimachinery are documented to give.
pub record AreExact {O L : Type 0} (by : Copiers O L) : Type 0 where
  pub time : (t : Time) → by.copy_time t ≡ t
  pub condition : (c : Condition) → by.copy_condition c ≡ c
  pub meta : (m : O) → by.copy_meta m ≡ m
  pub list_meta : (m : L) → by.copy_list_meta m ≡ m

Lies-wider :
    (low high low' high' l h l' h' : ℕ) (s : StatusObject)
    → l ≤ low
    → high ≤ h
    → l' ≤ low'
    → high' ≤ h'
    → Lies low high low' high' s
    → Lies l h l' h' s
Lies-wider low high low' high' l h l' h' s a b c d x = record {
  opened_at = Within-wider low high l h s.last_open_time a b x.opened_at;
  closed_at = Within-wider low high l h s.last_close_time a b x.closed_at;
  array = Within-wider low' high' l' h' s.conditions c d x.array;
}

module _ {T O : Type 0} where
  -- The value of a valve in a memory.
  abbrev pub value_of : Memory → ValveObject T O → T × O × MqttValveSpec × MqttValveStatus
  value_of m v = (v.type_meta, v.object_meta, v.spec, read m v.status)

  abbrev pub AllStored : Memory → List (ValveObject T O) → Type 0
  AllStored m vs = All (λ v. IsStored m v.status) vs
  -- The second memory is at least as large, and holds what the first holds.

pub record Extends (m n : Memory) : Type 0 where
  pub times_grow : m.times.next ≤ n.times.next
  pub arrays_grow : m.arrays.next ≤ n.arrays.next
  pub times_kept : (r : Ptr) → r < m.times.next → n.times.cell r ≡ m.times.cell r
  pub arrays_kept : (r : Ptr) → r < m.arrays.next → n.arrays.cell r ≡ m.arrays.cell r

Extends-trans : (m n o : Memory) → Extends m n → Extends n o → Extends m o
Extends-trans m n o a b = record {
  times_grow = omega (arith, a.times_grow, b.times_grow);
  arrays_grow = omega (arith, a.arrays_grow, b.arrays_grow);
  times_kept = λ r h. b.times_kept r (omega (arith, h, a.times_grow)) ∙ a.times_kept r h;
  arrays_kept = λ r h. b.arrays_kept r (omega (arith, h, a.arrays_grow)) ∙ a.arrays_kept r h;
}

module _ (m n : Memory) (x : Extends m n) where
  stored-read :
      (low low' : ℕ) (s : StatusObject)
      → Lies low m.times.next low' m.arrays.next s
      → read n s ≡ read m s
  stored-read low low' s h =
      read-agree low m.times.next low' m.arrays.next m n s h (λ r _ k. x.times_kept r k)
        (λ r _ k. x.arrays_kept r k)

  pub stored-values :
      {T O : Type 0} (vs : List (ValveObject T O))
      → AllStored m vs
      → map (value_of n) vs ≡ map (value_of m) vs
  stored-values [] h = refl
  stored-values (v ∷ vs) (s, h) = rw (stored-read 0 0 v.status s, stored-values vs h) refl

  stored-later : {T O : Type 0} (vs : List (ValveObject T O)) → AllStored m vs → AllStored n vs
  stored-later [] h = tt
  stored-later (v ∷ vs) (s, h) = (
    Lies-wider 0 m.times.next 0 m.arrays.next 0 n.times.next 0 n.arrays.next v.status (omega arith)
        x.times_grow (omega arith) x.arrays_grow s,
    stored-later vs h,
  )

-- Each status lies in the given parts.
abbrev pub AllLie : {T O : Type 0} → (low high low' high' : ℕ) → List (ValveObject T O) → Type 0
AllLie low high low' high' vs = All (λ v. Lies low high low' high' v.status) vs

AllLie-lower :
    {T O : Type 0} (low high low' high' l l' : ℕ) (vs : List (ValveObject T O))
    → l ≤ low
    → l' ≤ low'
    → AllLie low high low' high' vs
    → AllLie l high l' high' vs
AllLie-lower low high low' high' l l' [] a b h = tt
AllLie-lower low high low' high' l l' (v ∷ vs) a b (x, h) = (
  Lies-wider low high low' high' l high l' high' v.status a (omega arith) b (omega arith) x,
  AllLie-lower low high low' high' l l' vs a b h,
)

module _ {T O L : Type 0} (by : Copiers O L) (exact : AreExact by) where
  pub record AreCopied (m n : Memory) (vs us : List (ValveObject T O)) : Type 0 where
    pub values : map (value_of n) us ≡ map (value_of m) vs
    pub extends : Extends m n
    pub fresh : AllLie m.times.next n.times.next m.arrays.next n.arrays.next us

  valve-copied :
      (v : ValveObject T O) (m : Memory)
      → IsStored m v.status
      → let (u, n) = deep_copy_valve_into by v m in
        (value_of n u ≡ value_of m v)
        × Extends m n
        × Lies m.times.next n.times.next m.arrays.next n.arrays.next u.status
  unfolding deep_copy_valve_into
  valve-copied v m stored =
      let d =
        deep_copy_into-IsCopied by.copy_time by.copy_condition v.status m exact.time exact.condition
          stored in
      (
        rw (exact.meta v.object_meta, d.value) refl,
        record {
          times_grow = d.times_grow;
          arrays_grow = d.arrays_grow;
          times_kept = d.times_kept;
          arrays_kept = d.arrays_kept;
        },
        d.fresh,
      )

  pub copy_items-AreCopied :
      (vs : List (ValveObject T O)) (m : Memory)
      → AllStored m vs
      → AreCopied m (copy_items by vs m).1 vs (copy_items by vs m).0
  unfolding copy_items
  copy_items-AreCopied [] m h = record {
    values = refl;
    extends = record {
      times_grow = omega arith;
      arrays_grow = omega arith;
      times_kept = λ r k. refl;
      arrays_kept = λ r k. refl;
    };
    fresh = tt;
  }
  copy_items-AreCopied (v ∷ vs) m (s, h) =
      let u = (deep_copy_valve_into by v m).0 in
      let n = (deep_copy_valve_into by v m).1 in
      let (value, x, lies) = valve-copied v m s in
      let rest = copy_items-AreCopied vs n (stored-later m n x vs h) in
      let o = (copy_items by vs n).1 in
      record {
        values =
            rw
              (
                stored-read n o rest.extends m.times.next m.arrays.next u.status lies,
                value,
                rest.values,
                stored-values m n x vs h,
              )
              refl;
        extends = Extends-trans m n o x rest.extends;
        fresh = (
          Lies-wider m.times.next n.times.next m.arrays.next n.arrays.next m.times.next o.times.next
              m.arrays.next o.arrays.next u.status (omega arith) rest.extends.times_grow
              (omega arith) rest.extends.arrays_grow lies,
          AllLie-lower n.times.next o.times.next n.arrays.next o.arrays.next m.times.next
              m.arrays.next (copy_items by vs n).0 x.times_grow x.arrays_grow rest.fresh,
        );
      }
