-- ===== src/K8s/Copies/Areas.antt =====
-- api/v1alpha1/deepcopy_helpers.go: one copied cell, and pointers into parts of the memory.
use valve_controller.Common.{◌≡◌, ◌≢◌, refl, ap, ℕ, ◌≤◌, ◌<◌, Option, none, some, arith, ==_refl}
use valve_controller.K8s.Copies.{Ptr, Area, deref, renew}

-- A pointer is nil or lies in the part of memory from `low` up to `high`.
abbrev pub Within : (low high : ℕ) → Option Ptr → Type 0
Within low high none = Unit
Within low high (some p) = (low ≤ p) × (p < high)

-- Pointers to disjoint parts differ.
pub Within-disjoint :
    (low mid high : ℕ) (p : Ptr) (q : Option Ptr)
    → low ≤ p
    → p < mid
    → Within mid high q
    → q ≢ some p
Within-disjoint low mid high p none l u w e = cc e
Within-disjoint low mid high p (some q) l u (v, w) e = ground (arith, e, v, u)

pub Within-disjoint_above :
    (low mid high : ℕ) (p : Ptr) (q : Option Ptr) → mid ≤ p → Within low mid q → q ≢ some p
Within-disjoint_above low mid high p none l w e = cc e
Within-disjoint_above low mid high p (some q) l (v, w) e = ground (arith, e, w, l)

pub Within-wider :
    (low high low' high' : ℕ) (p : Option Ptr)
    → low' ≤ low
    → high ≤ high'
    → Within low high p
    → Within low' high' p
Within-wider low high low' high' none l h w = tt
Within-wider low high low' high' (some p) l h (v, w) = (omega (arith, l, v), omega (arith, h, w))

module _ {A : Type 0} where
  pub record IsRenewed (a b : Area A) (p q : Option Ptr) : Type 0 where
    pub value : deref b q ≡ deref a p
    pub grows : a.next ≤ b.next
    pub kept : (r : Ptr) → r < a.next → b.cell r ≡ a.cell r
    pub fresh : Within a.next b.next q

  pub renew-IsRenewed :
      (copy : A → A) (p : Option Ptr) (a : Area A)
      → ((x : A) → copy x ≡ x)
      → IsRenewed a (renew copy p a).1 p (renew copy p a).0
  unfolding renew
  renew-IsRenewed copy none a law = record {
    value = refl;
    grows = omega arith;
    kept = λ r h. refl;
    fresh = tt;
  }
  renew-IsRenewed copy (some p) a law = record {
    value = rw (==_refl a.next) (ap some (law (a.cell p)));
    grows = omega arith;
    kept = λ r h. ground (arith, h);
    fresh = (omega arith, omega arith);
  }

  pub deref-agree :
      (low high : ℕ) (a b : Area A) (p : Option Ptr)
      → Within low high p
      → ((r : Ptr) → low ≤ r → r < high → b.cell r ≡ a.cell r)
      → deref b p ≡ deref a p
  deref-agree low high a b none w h = refl
  deref-agree low high a b (some p) (v, w) h = ap some (h p v w)
