-- ===== src/Mqtt/Address.antt =====
-- internal/mqtt/dispatcher.go: `hexAddr` and `dispatchKey`, the canonical form of an identifier.
use valve_controller.Common.{
  ◌↔◌, ◌⊎◌, ℕ, ◌-◌, ◌≡◌, refl, Bool, true, false, ◌&&◌, ◌||◌, [], ◌∷◌, map, arith, leb, ◌==◌,
  if◌then◌else◌, ◌⊎◌, inl, inr, Bool-cases,
}
use valve_controller.Common.Text.{Text}

-- `[0-9a-fA-F]`.
unfoldable pub is_hex_digit : ℕ → Bool
is_hex_digit c = leb b'0' c && leb c b'9' || (leb b'a' c && leb c b'f' || leb b'A' c && leb c b'F')

-- `[0-9a-fA-F]*$`. (Without the flag m, `$` is the end of the text.)
unfoldable pub are_hex_digits : Text → Bool
unfolding is_hex_digit
are_hex_digits [] = true
are_hex_digits (c ∷ s) = is_hex_digit c && are_hex_digits s

-- `^0[xX][0-9a-fA-F]+$`.
unfoldable pub is_hex_addr : Text → Bool
unfolding are_hex_digits
is_hex_addr (z ∷ x ∷ c ∷ s) = z == b'0' && (x == b'x' || x == b'X') && are_hex_digits (c ∷ s)
is_hex_addr _ = false

-- `strings.ToUpper` on a byte below 128.
unfoldable pub upper_byte : ℕ → ℕ
upper_byte c = if leb b'a' c && leb c b'z' then c - 32 else c

-- `strings.ToUpper` on ASCII text, which is all it is called on.
unfoldable pub to_upper : Text → Text
unfolding upper_byte
to_upper s = map upper_byte s

unfoldable pub dispatch_key : Text → Text
unfolding is_hex_addr to_upper
dispatch_key s = if is_hex_addr s then to_upper s else s

upper_byte_idem : (c : ℕ) → upper_byte (upper_byte c) ≡ upper_byte c
unfolding upper_byte
upper_byte_idem c = ground arith

to_upper_idem : (s : Text) → to_upper (to_upper s) ≡ to_upper s
unfolding to_upper
to_upper_idem [] = refl
to_upper_idem (c ∷ s) = ground (arith, upper_byte_idem c, to_upper_idem s)

is_hex_digit-upper_byte : (c : ℕ) → is_hex_digit (upper_byte c) ≡ is_hex_digit c
unfolding is_hex_digit upper_byte
is_hex_digit-upper_byte c = ground arith

are_hex_digits-to_upper : (s : Text) → are_hex_digits (to_upper s) ≡ are_hex_digits s
unfolding are_hex_digits to_upper
are_hex_digits-to_upper [] = refl
are_hex_digits-to_upper (c ∷ s) = cc (is_hex_digit-upper_byte c, are_hex_digits-to_upper s)

hex_prefix-upper_byte :
    (z x : ℕ)
    → (upper_byte z == b'0' && (upper_byte x == b'x' || upper_byte x == b'X'))
      ≡ (z == b'0' && (x == b'x' || x == b'X'))
unfolding upper_byte
hex_prefix-upper_byte z x = ground arith

is_hex_addr-to_upper : (s : Text) → is_hex_addr (to_upper s) ≡ is_hex_addr s
unfolding is_hex_addr to_upper
is_hex_addr-to_upper [] = refl
is_hex_addr-to_upper (z ∷ []) = refl
is_hex_addr-to_upper (z ∷ x ∷ []) = refl
is_hex_addr-to_upper (z ∷ x ∷ c ∷ s) =
    grind (arith, hex_prefix-upper_byte z x, are_hex_digits-to_upper (c ∷ s))

-- A canonical identifier is its own canonical form.
pub dispatch_key_idem : (s : Text) → dispatch_key (dispatch_key s) ≡ dispatch_key s
unfolding dispatch_key
dispatch_key_idem s = elim (Bool-cases (is_hex_addr s)) [
  | inl hex ↦ rw hex (rw (is_hex_addr-to_upper s) (rw hex (to_upper_idem s)))
  | inr plain ↦ rw plain (rw plain refl)
]

-- Two identifiers are taken for the same device exactly when they are equal, or both are short
-- addresses that differ in upper and lower case only.
pub dispatch_key-eq_iff :
    (s t : Text)
    → (dispatch_key s ≡ dispatch_key t)
      ↔ ((s ≡ t) ⊎ ((is_hex_addr s ≡ true) × (is_hex_addr t ≡ true) × (to_upper s ≡ to_upper t)))
unfolding dispatch_key
dispatch_key-eq_iff s t = ground (arith, is_hex_addr-to_upper s, is_hex_addr-to_upper t)
