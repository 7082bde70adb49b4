-- ===== src/Rest/Pagination.antt =====
-- internal/api/pagination.go.
use valve_controller.Common.{
  Bool-cases, Sum-cases, ◌∙◌, ap, ℕ, zero, suc, ◌⊎◌, inl, inr, ◌/◌, ◌%◌, ◌++◌, ◌+◌, ◌-◌, ◌*◌, ◌^◌,
  ◌≤◌, ◌<◌, ◌≡◌, refl, ℤ, pos, negsuc, ltb_ℤ, Bool, true, false, ◌&&◌, [], ◌∷◌, Option, none, some,
  ltb, leb, if◌then◌else◌, arith, ◌==◌,
}
use valve_controller.Common.Text.{Text, text, is_empty}

abbrev pub default_limit : ℕ
default_limit = 20

abbrev pub max_limit : ℕ
max_limit = 100

-- The number that decimal digits stand for, after those read so far.
unfoldable pub digits : Text → ℕ → Option ℕ
digits [] n = some n
digits (c ∷ cs) n =
    let rest = digits cs (10 * n + (c - b'0')) in if leb b'0' c && leb c b'9' then rest else none

abbrev pub number : Text → Option ℕ
number [] = none
number (c ∷ cs) = digits (c ∷ cs) 0

abbrev negated : ℕ → ℤ
negated zero = pos 0
negated (suc n) = negsuc n

abbrev pub in_range : Bool → Option ℕ → Option ℤ
in_range negative none = none
in_range true (some n) = if leb n (2 ^ 63) then some (negated n) else none
in_range false (some n) = if ltb n (2 ^ 63) then some (pos n) else none

-- `strconv.Atoi`: a sign or none, digits, and a value within an `int`; `none` is an error.
unfoldable pub atoi : Text → Option ℤ
atoi [] = none
atoi (c ∷ cs) =
    if c == b'-'
    then in_range true (number cs)
    else if c == b'+'
    then in_range false (number cs)
    else in_range false (number (c ∷ cs))

-- The texts of the errors.
pub data PageError : Type 0 where
  invalid_limit limit_too_large invalid_offset : PageError

pub data Page : Type 0 where
  page_error : PageError → Page
  page : (limit offset : ℤ) → Page

-- The limit that is asked for.
unfoldable pub parse_limit : Text → PageError ⊎ ℤ
parse_limit v = if is_empty v then inr (pos default_limit) else elim (atoi v) [
  | none ↦ inl invalid_limit
  | some n ↦
      if ltb_ℤ n (pos 1)
      then inl invalid_limit
      else if ltb_ℤ (pos max_limit) n
      then inl limit_too_large
      else inr n
]

-- The offset that is asked for.
unfoldable pub parse_offset : Text → PageError ⊎ ℤ
parse_offset v = if is_empty v then inr (pos 0) else elim (atoi v) [
  | none ↦ inl invalid_offset
  | some n ↦ if ltb_ℤ n (pos 0) then inl invalid_offset else inr n
]

-- `parsePagination`, given `r.URL.Query().Get`.
unfoldable pub parse_pagination : (Text → Text) → Page
parse_pagination query = elim (parse_limit (query (text "limit"))) [
  | inl e ↦ page_error e
  | inr limit ↦ elim (parse_offset (query (text "offset"))) [
    | inl e ↦ page_error e
    | inr offset ↦ page limit offset
  ]
]

-- The page that is asked for has from 1 to 100 entries, and starts at no negative offset.
abbrev pub IsPage : Page → Type 0
IsPage (page_error e) = Unit
IsPage (page (pos limit) (pos offset)) = (1 ≤ limit) × (limit ≤ max_limit)
IsPage (page _ _) = ⊥

parse_limit-bounds :
    (v : Text) (n : ℤ) → parse_limit v ≡ inr n → (m : ℕ) × (n ≡ pos m) × (1 ≤ m) × (m ≤ max_limit)
unfolding parse_limit
parse_limit-bounds v (pos m) h = ground arith
parse_limit-bounds v (negsuc m) h = ground arith

parse_offset-bounds : (v : Text) (n : ℤ) → parse_offset v ≡ inr n → (m : ℕ) × (n ≡ pos m)
unfolding parse_offset
parse_offset-bounds v (pos m) h = ground arith
parse_offset-bounds v (negsuc m) h = ground arith

-- `digits` reads its text from the left.
digits-append :
    (s : Text) (c n k : ℕ)
    → digits s n ≡ some k
    → leb b'0' c ≡ true
    → leb c b'9' ≡ true
    → digits (s ++ c ∷ []) n ≡ some (10 * k + (c - b'0'))
unfolding digits
digits-append [] c n k h p q = ground arith
digits-append (d ∷ s) c n k h p q = ground (arith, digits-append s c (10 * n + (d - b'0')) k)

-- A number in decimal digits, for more fuel than the number.
unfoldable pub decimal : ℕ → ℕ → Text
decimal zero n = []
decimal (suc f) n =
    let front = decimal f (n / 10) in
    if ltb n 10 then (b'0' + n) ∷ [] else front ++ (b'0' + n % 10) ∷ []

digits-decimal : (f n : ℕ) → n < f → digits (decimal f n) 0 ≡ some n
unfolding digits decimal
digits-decimal zero n h = ground arith
digits-decimal (suc f) n h = elim (Bool-cases (ltb n 10)) [
  | inl e ↦ rw e (ground arith)
  | inr e ↦ rw e (
      digits-append (decimal f (n / 10)) (b'0' + n % 10) 0 (n / 10)
        (digits-decimal f (n / 10) (ground arith)) (ground arith) (ground arith)
      ∙ ground arith)
]

atoi-digits :
    (s : Text) (n : ℕ)
    → digits s 0 ≡ some n
    → is_empty s ≡ false
    → n < 2 ^ 63
    → atoi s ≡ some (pos n)
unfolding atoi digits
atoi-digits [] n h p q = cc
atoi-digits (c ∷ cs) n h p q = ground arith

is_empty-append : (s : Text) (c : ℕ) → is_empty (s ++ c ∷ []) ≡ false
is_empty-append [] c = refl
is_empty-append (d ∷ s) c = refl

is_empty-decimal : (f n : ℕ) → is_empty (decimal (suc f) n) ≡ false
unfolding decimal
is_empty-decimal f n = ground (arith, is_empty-append (decimal f (n / 10)) (b'0' + n % 10))

-- A number in decimal digits.
abbrev pub itoa : ℕ → Text
itoa n = decimal (suc n) n

atoi-itoa : (n : ℕ) → n < 2 ^ 63 → atoi (itoa n) ≡ some (pos n)
atoi-itoa n h =
    atoi-digits (itoa n) n (digits-decimal (suc n) n (omega arith)) (is_empty-decimal n n) h

parse_limit-itoa : (n : ℕ) → 1 ≤ n → n ≤ max_limit → parse_limit (itoa n) ≡ inr (pos n)
unfolding parse_limit
parse_limit-itoa n p q = rw (is_empty-decimal n n) (rw (atoi-itoa n (omega arith)) (ground arith))

parse_offset-itoa : (n : ℕ) → n < 2 ^ 63 → parse_offset (itoa n) ≡ inr (pos n)
unfolding parse_offset
parse_offset-itoa n h = rw (is_empty-decimal n n) (rw (atoi-itoa n h) (ground arith))

-- A limit from 1 to 100 and an offset below 2^63, written in decimal digits, are read back.
pub parse_pagination-itoa :
    (query : Text → Text) (limit offset : ℕ)
    → 1 ≤ limit
    → limit ≤ max_limit
    → offset < 2 ^ 63
    → query (text "limit") ≡ itoa limit
    → query (text "offset") ≡ itoa offset
    → parse_pagination query ≡ page (pos limit) (pos offset)
unfolding parse_pagination
parse_pagination-itoa query limit offset p q r e e' =
    let l = ap parse_limit e ∙ parse_limit-itoa limit p q in
    let o = ap parse_offset e' ∙ parse_offset-itoa offset r in rw (parse_pagination, l) (rw o refl)

-- Whatever the query says, `parsePagination` gives an error, or a limit from 1 to 100 and an offset
-- that is not negative.
pub parse_pagination-IsPage : (query : Text → Text) → IsPage (parse_pagination query)
unfolding parse_pagination
parse_pagination-IsPage query = elim (Sum-cases (parse_limit (query (text "limit")))) [
  | inl (e, h) ↦ rw (parse_pagination, h) tt
  | inr (limit, h) ↦ elim (Sum-cases (parse_offset (query (text "offset")))) [
    | inl (e, g) ↦ rw (parse_pagination, h) (rw g tt)
    | inr (offset, g) ↦
        let (l, same, low, high) = parse_limit-bounds (query (text "limit")) limit h in
        let (o, same') = parse_offset-bounds (query (text "offset")) offset g in
        rw (parse_pagination, h) (rw g (rw same (rw same' (low, high))))
  ]
]
