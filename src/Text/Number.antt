-- ===== src/Text/Number.antt =====
-- Printed numbers, and how `int` reads them back.
use esdx_scion.Base.{
  ℕ, zero, suc, ◌+◌, ◌*◌, ◌/◌, ◌%◌, ◌≤◌, ◌<◌, ◌≡◌, ◌⊎◌, inl, inr, Bool, true, some, [], ◌∷◌, ◌++◌,
  append_assoc, arith, ltb, Bool-cases, All, All-append,
}
use esdx_scion.Text.Defs.{Text, digit_char, digit_value, read_digits, show_digits}

-- the characters of printed numbers
pub record IsDigit (c : ℕ) : Type 0 where
  pub shape : ((b'0' ≤ c) × (c ≤ b'9')) ⊎ ((b'a' ≤ c) × (c ≤ b'f'))

digit_char-IsDigit : (d : ℕ) → d < 16 → IsDigit (digit_char d)
digit_char-IsDigit d h = ground arith

digit_value-digit_char :
    (base d : ℕ) → base ≤ 16 → d < base → digit_value base (digit_char d) ≡ some d
unfolding digit_value
digit_value-digit_char base d h k = ground arith

module _ (base : ℕ) (low : 2 ≤ base) (high : base ≤ 16) where
  read_digits_step :
      (d : ℕ) (rest : Text) (n : ℕ) (after : Bool)
      → d < base
      → read_digits base (digit_char d ∷ rest) n after ≡ read_digits base rest (n * base + d) true
  unfolding read_digits
  read_digits_step d rest n after h = rw (read_digits, digit_value-digit_char base d high h)

  rest_lt : (n fuel : ℕ) → n < suc fuel → base ≤ n → n / base < fuel
  rest_lt n fuel h k = grind arith

  mod_lt : (n : ℕ) → n % base < base
  mod_lt n = omega arith

  first_digit : (n : ℕ) → 0 * base + n ≡ n
  first_digit n = omega arith

  last_digit : (n : ℕ) → n / base * base + n % base ≡ n
  last_digit n = grind arith

  pub read_digits-show_digits :
      (fuel n : ℕ) (rest : Text) (after : Bool)
      → n < fuel
      → read_digits base (show_digits base fuel n ++ rest) 0 after ≡ read_digits base rest n true
  unfolding show_digits
  read_digits-show_digits zero n rest after h = absurd (omega arith)
  read_digits-show_digits (suc fuel) n rest after h = elim (Bool-cases (ltb n base)) [
    | inl small ↦ rw (small, read_digits_step n rest 0 after (ground arith), first_digit n)
    | inr large ↦ rw (
      large,
      append_assoc (show_digits base fuel (n / base)) (digit_char (n % base) ∷ []) rest,
      read_digits-show_digits fuel (n / base) (digit_char (n % base) ∷ rest) after
          (rest_lt n fuel h (ground arith)),
      read_digits_step (n % base) rest (n / base) true (mod_lt n),
      last_digit n,
    )
  ]

  pub show_digits-All : (fuel n : ℕ) → All IsDigit (show_digits base fuel n)
  unfolding show_digits
  show_digits-All zero n = tt
  show_digits-All (suc fuel) n = elim (Bool-cases (ltb n base)) [
    | inl small ↦ rw small (digit_char-IsDigit n (ground arith), tt)
    | inr large ↦ rw large (
        All-append IsDigit (show_digits base fuel (n / base)) (digit_char (n % base) ∷ [])
          (show_digits-All fuel (n / base))
          (digit_char-IsDigit (n % base) (omega (arith, mod_lt n)), tt))
  ]
