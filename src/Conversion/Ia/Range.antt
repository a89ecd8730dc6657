-- ===== src/Conversion/Ia/Range.antt =====
-- What `ia_str_to_int` returns: the two parts of the identifier, side by side in 64 bits.
use esdx_scion.Base.{
  ℕ, ◌+◌, ◌*◌, ◌^◌, ◌<◌, ◌≡◌, refl, List, [], ◌∷◌, arith, Result, ok, value_error, >>=-eq-ok,
  bind_inv, guard_inv, All, Lacks, bit_or, bit_or-shifted, false,
}
use esdx_scion.Base.Int.{ℤ, pos, negsuc, pos_part, ltb_ℤ}
use esdx_scion.Text.{Text, split, split-Lacks_sep, int_of_text, int_of_text-nonneg}
use esdx_scion.Conversion.Ia.{no_blanks, as_loop, as_of_parts, ia_of_parts, ia_str_to_int}

-- Both ways to read an AS number check its range.
pub as_of_parts-lt : (ps : List Text) (v : ℕ) → as_of_parts ps ≡ ok v → v < 2 ^ 48
unfolding as_of_parts
as_of_parts-lt [] v e = cc
as_of_parts-lt (s ∷ []) v e =
    let (_, _, e1) = >>=-eq-ok (no_blanks s) _ e in
    let (i, _, e2) = >>=-eq-ok (int_of_text 10 s) _ e1 in ground arith
as_of_parts-lt (s ∷ t ∷ []) v e = cc
as_of_parts-lt (s ∷ t ∷ u ∷ []) v e =
    let (a, _, e1) = >>=-eq-ok (as_loop 0 (s ∷ t ∷ u ∷ [])) _ e in ground arith
as_of_parts-lt (s ∷ t ∷ u ∷ w ∷ ps) v e = cc

-- The identifier is read as the two numbers `isd` and `as_value`.
pub record Reads (ps : List Text) (v : ℕ) : Type 0 where
  pub isd_text : Text
  pub as_text : Text
  pub isd : ℕ
  pub as_value : ℕ
  pub parts : ps ≡ isd_text ∷ as_text ∷ []
  pub reads_isd : int_of_text 10 isd_text ≡ ok (pos isd)
  pub reads_as : as_of_parts (split b':' as_text) ≡ ok as_value
  pub isd_fits : isd < 2 ^ 16
  pub as_fits : as_value < 2 ^ 48
  pub joined : v ≡ isd * 2 ^ 48 + as_value

joined :
    (p q : Text) (i : ℤ) (a v : ℕ)
    → (n : ℕ) × (i ≡ pos n)
    → int_of_text 10 p ≡ ok i
    → ltb_ℤ (pos 65535) i ≡ false
    → as_of_parts (split b':' q) ≡ ok a
    → ◌≡◌ {A = Result ℕ} (ok (bit_or (pos_part i * 2 ^ 48) a)) (ok v)
    → Reads (p ∷ q ∷ []) v
joined p q (negsuc i) a v (n, en) ei small ea e = absurd (cc)
joined p q (pos i) a v (n, en) ei small ea e =
    let fits = as_of_parts-lt (split b':' q) a ea in
    record {
      isd_text = p;
      as_text = q;
      isd = i;
      as_value = a;
      parts = refl;
      reads_isd = ei;
      reads_as = ea;
      isd_fits = ground arith;
      as_fits = fits;
      joined = ground (arith, bit_or-shifted 48 i a fits);
    }

ia_of_parts-Reads :
    (ps : List Text) (v : ℕ) → All (Lacks b'-') ps → ia_of_parts ps ≡ ok v → Reads ps v
unfolding ia_of_parts
ia_of_parts-Reads [] v h e = cc
ia_of_parts-Reads (p ∷ []) v h e = cc
ia_of_parts-Reads (p ∷ q ∷ []) v h e = bind_inv (no_blanks p) _ e λ _ _ e1.
    bind_inv (no_blanks q) _ e1 λ _ _ e2. bind_inv (int_of_text 10 p) _ e2 λ i ei e3.
      guard_inv (ltb_ℤ (pos 65535) i) value_error _ e3 λ small e4.
        bind_inv (as_of_parts (split b':' q)) _ e4
          λ a ea e5. joined p q i a v (int_of_text-nonneg 10 p i h.0 ei) ei small ea e5
ia_of_parts-Reads (p ∷ q ∷ r ∷ ps) v h e = cc

-- An accepted identifier has exactly one hyphen. Its ISD is a number below 2^16, its AS a number
-- below 2^48, and the result is the 64-bit number that holds the one above the other.
pub ia_str_to_int-Reads :
    (ia : Text) (v : ℕ) → ia_str_to_int ia ≡ ok v → Reads (split b'-' ia) v × (v < 2 ^ 64)
unfolding ia_str_to_int
ia_str_to_int-Reads ia v e =
    let r = ia_of_parts-Reads (split b'-' ia) v (split-Lacks_sep b'-' ia) e in
    (r, omega (arith, r.joined, r.isd_fits, r.as_fits))
