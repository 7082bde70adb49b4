-- ===== src/K8s/Copies/Isolation.antt =====
-- api/v1alpha1/deepcopy_helpers.go: the copy has the value of the original and shares no memory.
use valve_controller.Common.{◌≡◌, ◌≢◌, refl, ◌∙◌, ℕ, ◌≤◌, ◌<◌, List, [], ◌∷◌, some, map, arith}
use valve_controller.Device.{Time}
use valve_controller.K8s.{Condition}
use valve_controller.K8s.Copies.Areas.{
  Within, Within-disjoint, Within-disjoint_above, Within-wider, renew-IsRenewed, deref-agree,
}
use valve_controller.K8s.Copies.{Ptr, deref, renew, StatusObject, Memory, read, deep_copy_into}

-- All pointers of a status lie in the given parts.
pub record Lies (low high low' high' : ℕ) (s : StatusObject) : Type 0 where
  pub opened_at : Within low high s.last_open_time
  pub closed_at : Within low high s.last_close_time
  pub array : Within low' high' s.conditions

-- What the pointers of a status point to is allocated.
abbrev pub IsStored : Memory → StatusObject → Type 0
IsStored m s = Lies 0 m.times.next 0 m.arrays.next s

-- The two memories differ at most where the status points to.
pub record OnlyThrough (s : StatusObject) (m n : Memory) : Type 0 where
  pub times :
      (p : Ptr)
      → s.last_open_time ≢ some p
      → s.last_close_time ≢ some p
      → n.times.cell p ≡ m.times.cell p
  pub arrays : (p : Ptr) → s.conditions ≢ some p → n.arrays.cell p ≡ m.arrays.cell p

read-deref :
    (m n : Memory) (s : StatusObject)
    → deref n.times s.last_open_time ≡ deref m.times s.last_open_time
    → deref n.times s.last_close_time ≡ deref m.times s.last_close_time
    → deref n.arrays s.conditions ≡ deref m.arrays s.conditions
    → read n s ≡ read m s
unfolding read
read-deref m n s e f g = rw (e, f, g)

-- A status keeps its value in a memory that is the same in the parts where the status lies.
pub read-agree :
    (low high low' high' : ℕ) (m n : Memory) (s : StatusObject)
    → Lies low high low' high' s
    → ((r : Ptr) → low ≤ r → r < high → n.times.cell r ≡ m.times.cell r)
    → ((r : Ptr) → low' ≤ r → r < high' → n.arrays.cell r ≡ m.arrays.cell r)
    → read n s ≡ read m s
read-agree low high low' high' m n s h t a =
    read-deref m n s (deref-agree low high m.times n.times s.last_open_time h.opened_at t)
      (deref-agree low high m.times n.times s.last_close_time h.closed_at t)
      (deref-agree low' high' m.arrays n.arrays s.conditions h.array a)

module _ (copy_time : Time → Time) (copy_condition : Condition → Condition) where
  pub record IsCopied (s : StatusObject) (m : Memory) (c : StatusObject) (n : Memory) : Type 0 where
    pub value : read n c ≡ read m s
    pub times_kept : (r : Ptr) → r < m.times.next → n.times.cell r ≡ m.times.cell r
    pub arrays_kept : (r : Ptr) → r < m.arrays.next → n.arrays.cell r ≡ m.arrays.cell r
    pub times_grow : m.times.next ≤ n.times.next
    pub arrays_grow : m.arrays.next ≤ n.arrays.next
    pub fresh : Lies m.times.next n.times.next m.arrays.next n.arrays.next c

  map-law :
      ((c : Condition) → copy_condition c ≡ c) → (cs : List Condition) → map copy_condition cs ≡ cs
  map-law law [] = refl
  map-law law (c ∷ cs) = rw (law c, map-law law cs)

  pub deep_copy_into-IsCopied :
      (s : StatusObject) (m : Memory)
      → ((t : Time) → copy_time t ≡ t)
      → ((c : Condition) → copy_condition c ≡ c)
      → IsStored m s
      → IsCopied s m
          (deep_copy_into copy_time copy_condition s m).0
          (deep_copy_into copy_time copy_condition s m).1
  unfolding deep_copy_into read
  deep_copy_into-IsCopied s m time_law condition_law stored =
      let o = renew-IsRenewed copy_time s.last_open_time m.times time_law in
      let between = (renew copy_time s.last_open_time m.times).1 in
      let after = (renew copy_time s.last_close_time between).1 in
      let opened_at = (renew copy_time s.last_open_time m.times).0 in
      let c = renew-IsRenewed copy_time s.last_close_time between time_law in
      let a = renew-IsRenewed (map copy_condition) s.conditions m.arrays (map-law condition_law) in
      let open_stays =
        deref-agree m.times.next between.next between after opened_at o.fresh
          (λ r _ h. c.kept r h) in
      let close_stays =
        deref-agree 0 m.times.next m.times between s.last_close_time stored.closed_at
          (λ r _ h. o.kept r h) in
      record {
        value = rw (open_stays, o.value, c.value, close_stays, a.value);
        times_kept = λ r h. c.kept r (omega (arith, h, o.grows)) ∙ o.kept r h;
        arrays_kept = a.kept;
        times_grow = omega (arith, o.grows, c.grows);
        arrays_grow = a.grows;
        fresh = record {
          opened_at =
              Within-wider m.times.next between.next m.times.next after.next opened_at (omega arith)
                c.grows o.fresh;
          closed_at =
              Within-wider between.next after.next m.times.next after.next
                (renew copy_time s.last_close_time between).0 o.grows (omega arith) c.fresh;
          array = a.fresh;
        };
      }

  -- Given that the copies of a time and of a condition are equal to the originals: the copy of a
  -- status that is stored in memory has the value of the original; whatever is later written
  -- through the pointers of the copy alone leaves the value of the original, and whatever is
  -- written through those of the original alone leaves the value of the copy.
  pub deep_copy_into_isolates :
      (s : StatusObject) (m n' n'' : Memory)
      → ((t : Time) → copy_time t ≡ t)
      → ((c : Condition) → copy_condition c ≡ c)
      → IsStored m s
      → OnlyThrough
          (deep_copy_into copy_time copy_condition s m).0
          (deep_copy_into copy_time copy_condition s m).1
          n'
      → OnlyThrough s (deep_copy_into copy_time copy_condition s m).1 n''
      → (read
            (deep_copy_into copy_time copy_condition s m).1
            (deep_copy_into copy_time copy_condition s m).0
          ≡ read m s)
        × (read n' s ≡ read m s)
        × (read n'' (deep_copy_into copy_time copy_condition s m).0 ≡ read m s)
  deep_copy_into_isolates s m n' n'' time_law condition_law stored by_copy by_original =
      let c = (deep_copy_into copy_time copy_condition s m).0 in
      let n = (deep_copy_into copy_time copy_condition s m).1 in
      let d = deep_copy_into-IsCopied s m time_law condition_law stored in
      let t = m.times.next in
      let a = m.arrays.next in
      let high = n.times.next in
      let high' = n.arrays.next in
      (
        d.value,
        read-agree 0 t 0 a m n' s stored
            (λ r l h.
              by_copy.times r (Within-disjoint 0 t high r c.last_open_time l h d.fresh.opened_at)
                (Within-disjoint 0 t high r c.last_close_time l h d.fresh.closed_at)
              ∙ d.times_kept r h)
            (λ r l h.
              by_copy.arrays r (Within-disjoint 0 a high' r c.conditions l h d.fresh.array)
              ∙ d.arrays_kept r h),
        read-agree t high a high' n n'' c d.fresh
              (λ r l h.
                by_original.times r
                  (Within-disjoint_above 0 t high r s.last_open_time l stored.opened_at)
                  (Within-disjoint_above 0 t high r s.last_close_time l stored.closed_at))
              (λ r l h.
                by_original.arrays r
                  (Within-disjoint_above 0 a high' r s.conditions l stored.array))
            ∙ d.value,
      )
