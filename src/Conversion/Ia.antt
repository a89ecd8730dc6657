-- ===== src/Conversion/Ia.antt =====
-- `ia_str_to_int` and `_ia_validator`. Each number is read behind a split at `-`, so that it is
-- never negative, and `pos_part` is the number itself.
pub mod Canonical
pub mod Range
use esdx_scion.Base.{
  ℕ, ◌-◌, ◌*◌, ◌^◌, ◌≡◌, refl, not, List, [], ◌∷◌, Result, ok, err, value_error, validation_error,
  raise_if, ◌>>=◌, ◌>>◌, ltb, bit_or,
}
use esdx_scion.Base.Int.{ℤ, pos, pos_part, ltb_ℤ}
use esdx_scion.Text.{Text, codes, text_eq, strip, split, int_of_text}

-- `if s.strip() != s: raise ValueError`
abbrev pub no_blanks : Text → Result (Unit {0})
no_blanks s = raise_if (not (text_eq (strip s) s)) value_error

-- the loop over the three parts of an AS number
unfoldable pub as_loop : ℕ → List Text → Result ℕ
as_loop as_value [] = ok as_value
as_loop as_value (s ∷ parts) = do
  no_blanks s
  v ← int_of_text 16 s
  raise_if (ltb_ℤ (pos 65535) v) value_error
  as_loop (bit_or (as_value * 2 ^ 16) (pos_part v)) parts

unfoldable pub as_of_parts : List Text → Result ℕ
as_of_parts (s ∷ []) = do
  no_blanks s
  v ← int_of_text 10 s
  raise_if (ltb_ℤ (pos (2 ^ 32 - 1)) v) value_error
  ok (pos_part v)
as_of_parts (s ∷ t ∷ u ∷ []) = do
  as_value ← as_loop 0 (s ∷ t ∷ u ∷ [])
  raise_if (ltb (2 ^ 48 - 1) as_value) value_error
  ok as_value
as_of_parts _ = err value_error

unfoldable pub ia_of_parts : List Text → Result ℕ
ia_of_parts (p ∷ q ∷ []) = do
  no_blanks p
  no_blanks q
  isd ← int_of_text 10 p
  raise_if (ltb_ℤ (pos 65535) isd) value_error
  as_value ← as_of_parts (split b':' q)
  ok (bit_or (pos_part isd * 2 ^ 48) as_value)
ia_of_parts _ = err value_error

unfoldable pub ia_str_to_int : Text → Result ℕ
ia_str_to_int ia = ia_of_parts (split b'-' ia)

unfoldable pub ia_validator : Text → Result (Unit {0})
ia_validator ia = elim (ia_str_to_int ia) [ ok _ ↦ ok tt | err _ ↦ err validation_error ]

ia_tests :
    (ia_str_to_int (codes "1-ff00:0:111") ≡ ok 0x1ff0000000111)
    × (ia_str_to_int (codes "65535-ffff:ffff:ffff") ≡ ok (2 ^ 64 - 1))
    × (ia_str_to_int (codes "1-ffff:ffff:10000") ≡ err value_error)
    × (ia_str_to_int (codes "65536-1") ≡ err value_error)
    × (ia_str_to_int (codes "1-4294967295") ≡ ok 0x10000ffffffff)
    × (ia_str_to_int (codes "1--1") ≡ err value_error)
    × (ia_str_to_int (codes "1a-2b") ≡ err value_error)
    × (ia_str_to_int (codes "") ≡ err value_error)
    × (ia_str_to_int (codes "1- 1") ≡ err value_error)
unfolding ia_str_to_int ia_of_parts as_of_parts as_loop int_of_text split strip
ia_tests = (refl, refl, refl, refl, refl, refl, refl, refl, refl)
