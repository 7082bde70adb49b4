-- ===== src/K8s/Conditions.antt =====
-- internal/k8s/mqttvalve_reconciler.go: `setCondition`.
use valve_controller.Common.{
  ◌≡◌, refl, subst, Bool, true, false, List, [], ◌∷◌, Option, none, some, inl, inr, arith, map,
  NoDup, In, Bool-cases, if◌then◌else◌, ◌⊎◌,
}
use valve_controller.Common.Text.{Text, eq_text, eq_text_iff}
use valve_controller.K8s.{
  ConditionStatus, condition_true, condition_false, condition_unknown, Condition,
}

abbrev pub same_status : ConditionStatus → ConditionStatus → Bool
same_status condition_true condition_true = true
same_status condition_false condition_false = true
same_status condition_unknown condition_unknown = true
same_status _ _ = false

-- `setCondition`.
unfoldable pub set_condition : Condition → List Condition → List Condition
set_condition new [] = new ∷ []
set_condition new (c ∷ cs) =
    let rest = set_condition new cs in
    if eq_text c.type new.type
    then (if same_status c.status new.status then c ∷ cs else new ∷ cs)
    else c ∷ rest

abbrev pub types : List Condition → List Text
types cs = map (λ c. c.type) cs

-- The status that a list has for a type of condition.
unfoldable pub status_of : Text → List Condition → Option ConditionStatus
status_of t [] = none
status_of t (c ∷ cs) = let rest = status_of t cs in if eq_text c.type t then some c.status else rest

same_status_sound : (a b : ConditionStatus) → same_status a b ≡ true → a ≡ b
same_status_sound condition_true condition_true h = refl
same_status_sound condition_false condition_false h = refl
same_status_sound condition_unknown condition_unknown h = refl
same_status_sound condition_true condition_false h = cc
same_status_sound condition_true condition_unknown h = cc
same_status_sound condition_false condition_true h = cc
same_status_sound condition_false condition_unknown h = cc
same_status_sound condition_unknown condition_true h = cc
same_status_sound condition_unknown condition_false h = cc

-- After `setCondition` the conditions have the new status for its type, and for every other type the
-- status that they had.
pub status_of-set_condition :
    (new : Condition) (t : Text) (cs : List Condition)
    → status_of t (set_condition new cs)
      ≡ (if eq_text new.type t then some new.status else status_of t cs)
unfolding set_condition status_of
status_of-set_condition new t [] = ground arith
status_of-set_condition new t (c ∷ cs) = ground (
  arith,
  eq_text_iff c.type new.type,
  eq_text_iff c.type t,
  eq_text_iff new.type t,
  same_status_sound c.status new.status,
  status_of-set_condition new t cs,
)

In-types :
    (new : Condition) (t : Text) (cs : List Condition)
    → In t (types (set_condition new cs))
    → (t ≡ new.type) ⊎ In t (types cs)
unfolding set_condition
In-types new t [] h = ground arith
In-types new t (c ∷ cs) h = ground (arith, eq_text_iff c.type new.type, In-types new t cs)

-- `setCondition` keeps the conditions a list with one entry for each type.
pub set_condition-NoDup :
    (new : Condition) (cs : List Condition)
    → NoDup (types cs)
    → NoDup (types (set_condition new cs))
unfolding set_condition
set_condition-NoDup new [] d = (λ z. z, tt)
set_condition-NoDup new (c ∷ cs) (p, d) = elim (Bool-cases (eq_text c.type new.type)) [
  | inl e ↦ elim (Bool-cases (same_status c.status new.status)) [
    | inl same ↦ rw e (rw same (p, d))
    | inr other ↦
        rw e (rw other (subst (λ t. ¬ In t (types cs)) ((eq_text_iff c.type new.type).0 e) p, d))
  ]
  | inr e ↦ rw e (
    λ z. ground (arith, eq_text_iff c.type new.type, In-types new c.type cs z),
    set_condition-NoDup new cs d,
  )
]
