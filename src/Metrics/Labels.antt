-- ===== src/Metrics/Labels.antt =====
-- internal/metrics/metrics.go: the collectors do not clash, and both gauges of a state agree.
use valve_controller.Common.{
  ◌≡◌, refl, Bool, true, false, ◌&&◌, not, ◌||◌, List, [], ◌∷◌, map, In, NoDup, arith, inl, inr,
  ◌≢◌,
}
use valve_controller.Common.Text.{Text, eq_text, eq_text_iff}
use valve_controller.Device.{ValveState, opened, closed, unknown, unset}
use valve_controller.Scheduler.Shared.{gauge_value}
use valve_controller.Rest.Views.{valve_state_text}
use valve_controller.Metrics.{describe, collectors, valve_state_float}

abbrev is_in : Text → List Text → Bool
is_in t [] = false
is_in t (s ∷ ss) = let rest = is_in t ss in eq_text t s || rest

abbrev are_distinct : List Text → Bool
are_distinct [] = true
are_distinct (t ∷ ts) = let rest = are_distinct ts in not (is_in t ts) && rest

In-is_in : (t : Text) (ts : List Text) → In t ts → is_in t ts ≡ true
In-is_in t [] h = absurd h
In-is_in t (s ∷ ts) (inl e) = ground (arith, eq_text_iff t s)
In-is_in t (s ∷ ts) (inr i) = ground (arith, In-is_in t ts i)

are_distinct-NoDup : (ts : List Text) → are_distinct ts ≡ true → NoDup ts
are_distinct-NoDup [] h = tt
are_distinct-NoDup (t ∷ ts) h =
    (λ i. ground (arith, In-is_in t ts i), are_distinct-NoDup ts (ground arith))

-- No name is registered twice.
pub collectors-NoDup : NoDup (map (λ c. (describe c).name) collectors)
unfolding describe eq_text
collectors-NoDup = are_distinct-NoDup (map (λ c. (describe c).name) collectors) refl

-- For a valve whose state is set, the gauge of the pipeline and `ValveStateFloat` are one number.
pub gauge_value-valve_state_float :
    (s : ValveState) → s ≢ unset → gauge_value s ≡ valve_state_float (valve_state_text s)
unfolding gauge_value valve_state_float valve_state_text eq_text
gauge_value-valve_state_float opened h = refl
gauge_value-valve_state_float closed h = refl
gauge_value-valve_state_float unknown h = refl
gauge_value-valve_state_float unset h = absurd (h refl)
