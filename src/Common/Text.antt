-- ===== src/Common/Text.antt =====
-- Go strings as lists of bytes: literals, equality, the functions of package strings that the
-- source calls.
use Prim.Native.Char.{code}
use Prim.Native.String.{String}
use Prim.Native.Nat.{ℕ, zero, suc}
use mathlib.Core.Path.{◌≡◌, refl}
use mathlib.Core.Logic.{◌≢◌, ◌↔◌, inl, inr}
use mathlib.Core.Bool.{Bool, true, false, ◌&&◌}
use mathlib.Core.List.{List, [], ◌∷◌, ◌++◌}
use native.Mathlib.Omega.{arith}
use valve_controller.Common.Tests.{◌==◌, ==_false, if◌then◌else◌, Bool-cases}
use valve_controller.Common.Lists.{All}

abbrev pub Text : Type 0
Text = List ℕ

-- A literal of ASCII characters.
abbrev pub text : String → Text
text String.[] = []
text (String.◌∷◌ c s) = code c ∷ text s

unfoldable pub eq_text : Text → Text → Bool
eq_text [] [] = true
eq_text [] (d ∷ t) = false
eq_text (c ∷ s) [] = false
eq_text (c ∷ s) (d ∷ t) = c == d && eq_text s t

pub eq_text_iff : (s t : Text) → (eq_text s t ≡ true) ↔ (s ≡ t)
unfolding eq_text
eq_text_iff [] [] = ground arith
eq_text_iff [] (d ∷ t) = ground arith
eq_text_iff (c ∷ s) [] = ground arith
eq_text_iff (c ∷ s) (d ∷ t) = ground (arith, eq_text_iff s t)

pub eq_text_refl : (s : Text) → eq_text s s ≡ true
eq_text_refl s = (eq_text_iff s s).1 refl

-- `s == ""`.
abbrev pub is_empty : Text → Bool
is_empty [] = true
is_empty (_ ∷ _) = false

abbrev pub slash : ℕ
slash = b'/'

-- The bytes before the first slash, and those behind it if there is one.
unfoldable pub has_slash : Text → Bool
has_slash [] = false
has_slash (c ∷ s) = if c == slash then true else has_slash s

unfoldable pub before_slash : Text → Text
before_slash [] = []
before_slash (c ∷ s) = if c == slash then [] else c ∷ before_slash s

unfoldable pub after_slash : Text → Text
after_slash [] = []
after_slash (c ∷ s) = if c == slash then s else after_slash s

-- `strings.SplitN(s, "/", n)` for n > 0.
unfoldable pub split_n : ℕ → Text → List Text
split_n zero s = []
split_n (suc zero) s = s ∷ []
split_n (suc (suc n)) s =
    let rest = split_n (suc n) (after_slash s) in
    if has_slash s then before_slash s ∷ rest else s ∷ []

abbrev pub NoSlash : Text → Type 0
NoSlash = All (λ c. c ≢ slash)

-- What stands before the first slash of a joined text, and what behind it.
pub has_slash-append : (s t : Text) → has_slash (s ++ slash ∷ t) ≡ true
unfolding has_slash
has_slash-append [] t = refl
has_slash-append (c ∷ s) t = ground (arith, has_slash-append s t)

pub before_slash-append : (s t : Text) → NoSlash s → before_slash (s ++ slash ∷ t) ≡ s
unfolding before_slash
before_slash-append [] t h = refl
before_slash-append (c ∷ s) t (p, h) = ground (arith, before_slash-append s t h)

pub after_slash-append : (s t : Text) → NoSlash s → after_slash (s ++ slash ∷ t) ≡ t
unfolding after_slash
after_slash-append [] t h = refl
after_slash-append (c ∷ s) t (p, h) = ground (arith, after_slash-append s t h)

pub before_slash-NoSlash : (s : Text) → NoSlash (before_slash s)
unfolding before_slash
before_slash-NoSlash [] = tt
before_slash-NoSlash (c ∷ s) = elim (Bool-cases (c == slash)) [
  | inl e ↦ rw e tt
  | inr e ↦ rw e (==_false c slash e, before_slash-NoSlash s)
]

pub slash-split : (s : Text) → has_slash s ≡ true → s ≡ before_slash s ++ slash ∷ after_slash s
unfolding has_slash before_slash after_slash
slash-split [] h = cc
slash-split (c ∷ s) h = ground (arith, slash-split s)
