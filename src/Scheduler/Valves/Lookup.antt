-- ===== src/Scheduler/Valves/Lookup.antt =====
-- internal/scheduler/scheduler.go: `FindKey`, `GetAction` and `ListActions`.
use valve_controller.Common.{
  ◌≡◌, refl, sym, ◌∙◌, ap, ◌↔◌, ◌≢◌, ℕ, inl, inr, true, false, List, [], ◌∷◌, ◌++◌, arith, In,
  NoDup, NoDup-single, Bool-cases, subst,
}
use valve_controller.Common.Text.{
  Text, eq_text_iff, slash, split_n, has_slash, before_slash, after_slash, NoSlash,
  has_slash-append, after_slash-append, before_slash-NoSlash, slash-split,
}
use valve_controller.Common.Dict.{keys}
use valve_controller.Scheduler.World.{Ptr, World}
use valve_controller.Scheduler.Valves.{
  Scheduler, Fault, ok, err, second_is, matches, the_only, find_key, list_valves, find_action,
  get_action, list_actions, get_pipeline,
}

-- The key is "<namespace>/<name>".
abbrev pub Names : Text → Text → Type 0
Names k name = (namespace : Text) × NoSlash namespace × (k ≡ namespace ++ slash ∷ name)

second_is-split_n :
    (name k : Text)
    → (second_is name (split_n 2 k) ≡ true) ↔ ((has_slash k ≡ true) × (after_slash k ≡ name))
unfolding split_n
second_is-split_n name k = elim (Bool-cases (has_slash k)) [
  | inl e ↦ rw e (ground (arith, eq_text_iff (after_slash k) name))
  | inr e ↦ rw e (ground arith)
]

second_is-Names : (name k : Text) → (second_is name (split_n 2 k) ≡ true) ↔ Names k name
second_is-Names name k = (
  λ h.
      let (e, a) = (second_is-split_n name k).0 h in
      (
        before_slash k,
        before_slash-NoSlash k,
        slash-split k e ∙ ap (λ t. before_slash k ++ slash ∷ t) a,
      ),
  λ n.
      let (namespace, no_slash, e) = n in
      (second_is-split_n name k).1 (
        ap has_slash e ∙ has_slash-append namespace name,
        ap after_slash e ∙ after_slash-append namespace name no_slash,
      ),
)

true-ne-false : ¬ true ≡ false
true-ne-false h = cc

In-matches :
    (name j : Text) (ks : List Text)
    → In j (matches name ks) ↔ (In j ks × (second_is name (split_n 2 j) ≡ true))
unfolding matches
In-matches name j [] = (λ z. absurd z, λ z. absurd z.0)
In-matches name j (k ∷ ks) = elim (Bool-cases (second_is name (split_n 2 k))) [
  | inl e ↦ rw e (
    λ z. elim z [
      | inl eq ↦ (inl eq, ap (λ x. second_is name (split_n 2 x)) eq ∙ e)
      | inr r ↦ let (i, m) = (In-matches name j ks).0 r in (inr i, m)
    ],
    λ z. elim z.0 [ inl eq ↦ inl eq | inr i ↦ inr ((In-matches name j ks).1 (i, z.1)) ],
  )
  | inr e ↦ rw e (
    λ z. let (i, m) = (In-matches name j ks).0 z in (inr i, m),
    λ z. elim z.0 [
      | inl eq ↦ absurd (true-ne-false (sym z.1 ∙ ap (λ x. second_is name (split_n 2 x)) eq ∙ e))
      | inr i ↦ (In-matches name j ks).1 (i, z.1)
    ],
  )
]

matches-NoDup : (name : Text) (ks : List Text) → NoDup ks → NoDup (matches name ks)
unfolding matches
matches-NoDup name [] d = tt
matches-NoDup name (k ∷ ks) (p, d) = elim (Bool-cases (second_is name (split_n 2 k))) [
  | inl e ↦ rw e (λ z. p ((In-matches name k ks).0 z).0, matches-NoDup name ks d)
  | inr e ↦ rw e (matches-NoDup name ks d)
]

the_only-ok : (ks : List Text) (k : Text) → the_only ks ≡ ok k → ks ≡ k ∷ []
the_only-ok [] k h = cc
the_only-ok (j ∷ []) k h = cc
the_only-ok (i ∷ j ∷ js) k h = cc

-- The key is registered under the name, and no other key is.
abbrev pub IsOnly : Text → Text → List Text → Type 0
IsOnly k name ks = In k ks × Names k name × ((j : Text) → In j ks → Names j name → j ≡ k)

-- Where no key is registered twice, `FindKey` returns a key exactly when that is registered under
-- the name asked for and no other registered key is.
pub find_key_iff :
    (name k : Text) (s : Scheduler)
    → NoDup (list_valves s)
    → (find_key name s ≡ ok k) ↔ IsOnly k name (list_valves s)
unfolding find_key list_valves
find_key_iff name k s d =
    let ks = keys s.pipelines in
    let found = λ (j : Text). In-matches name j ks in
    (
      λ h.
          let only = the_only-ok (matches name ks) k h in
          let here = (found k).0 (subst (λ xs. In k xs) (sym only) (inl refl)) in
          (
            here.0,
            (second_is-Names name k).0 here.1,
            λ j i n.
                elim (subst (λ xs. In j xs) only ((found j).1 (i, (second_is-Names name j).1 n))) [
                  | inl e ↦ e
                  | inr z ↦ absurd z
                ],
          ),
      λ h.
          let (i, n, unique) = h in
          ap the_only (
            NoDup-single k (matches name ks) (matches-NoDup name ks d)
              ((found k).1 (i, (second_is-Names name k).1 n))
              (λ j z. let (x, y) = (found j).0 z in unique j x ((second_is-Names name j).0 y))),
    )

-- What `find_action` finds.
find_action-ok :
    (id : Text) (w : World) (ps : List Ptr) (p : Ptr)
    → find_action id w ps ≡ ok p
    → In p ps × ((w.heap p).id ≡ id)
unfolding find_action
find_action-ok id w [] p h = cc
find_action-ok id w (q ∷ ps) p h =
    ground (arith, eq_text_iff (w.heap q).id id, find_action-ok id w ps p)

find_action-err :
    (id : Text) (w : World) (ps : List Ptr) (e : Fault) (p : Ptr)
    → find_action id w ps ≡ err e
    → In p ps
    → (w.heap p).id ≢ id
unfolding find_action
find_action-err id w [] e p h i = absurd i
find_action-err id w (q ∷ ps) e p h i =
    ground (arith, eq_text_iff (w.heap q).id id, find_action-err id w ps e p)

get_action-find_action :
    (k id : Text) (s : Scheduler) (a : ℕ) (ps : List Ptr)
    → get_pipeline k s ≡ ok a
    → list_actions k s ≡ ok ps
    → get_action k id s ≡ find_action id (s.pipes a) ps
unfolding list_actions get_action find_action
get_action-find_action k id s a ps h l = ground arith

-- The action that `GetAction` returns is among those that `ListActions` returns, and has the id.
pub get_action_listed :
    (k id : Text) (s : Scheduler) (a : ℕ) (ps : List Ptr) (p : Ptr)
    → get_pipeline k s ≡ ok a
    → list_actions k s ≡ ok ps
    → get_action k id s ≡ ok p
    → In p ps × (((s.pipes a).heap p).id ≡ id)
get_action_listed k id s a ps p h l e =
    find_action-ok id (s.pipes a) ps p (sym (get_action-find_action k id s a ps h l) ∙ e)

-- Where `GetAction` finds no action, none of those that `ListActions` returns has the id.
pub get_action_complete :
    (k id : Text) (s : Scheduler) (a : ℕ) (ps : List Ptr) (f : Fault) (p : Ptr)
    → get_pipeline k s ≡ ok a
    → list_actions k s ≡ ok ps
    → get_action k id s ≡ err f
    → In p ps
    → ((s.pipes a).heap p).id ≢ id
get_action_complete k id s a ps f p h l e =
    find_action-err id (s.pipes a) ps f p (sym (get_action-find_action k id s a ps h l) ∙ e)
