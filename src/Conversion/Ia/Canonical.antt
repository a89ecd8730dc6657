-- ===== src/Conversion/Ia/Canonical.antt =====
-- Identifiers in canonical form are read as the number that they spell.
use esdx_scion.Base.{
  ℕ, ◌+◌, ◌-◌, ap, ◌*◌, ◌^◌, ◌<◌, ◌≡◌, ◌≢◌, refl, List, [], ◌∷◌, arith, ok, err, value_error, ◌>>=◌,
  ltb, All, All-map, All-append, Lacks, bit_or, bit_or-shifted, false, if◌then◌else◌,
}
use esdx_scion.Text.{
  Text, IsDigit, show_ℕ, show_ℕ-All, digit_not_space, is_space, strip_by-Keeps, split, join,
  split-join, split_whole, strip, strip-digits, text_eq_refl, int_of_text-show,
}
use esdx_scion.Conversion.Ia.{no_blanks, as_loop, as_of_parts, ia_of_parts, ia_str_to_int}

abbrev pub decimal : ℕ → Text
decimal n = show_ℕ 10 n

abbrev pub hex : ℕ → Text
hex n = show_ℕ 16 n

decimal-All : (n : ℕ) → All IsDigit (decimal n)
decimal-All n = show_ℕ-All 10 (omega arith) (omega arith) n

hex-All : (n : ℕ) → All IsDigit (hex n)
hex-All n = show_ℕ-All 16 (omega arith) (omega arith) n

digit-ne : (c : ℕ) → IsDigit c → (c ≢ b'-') × (c ≢ b':')
digit-ne c h = ground arith

digits-Lacks_hyphen : (s : Text) → All IsDigit s → Lacks b'-' s
digits-Lacks_hyphen = All-map IsDigit (λ c. c ≢ b'-') (λ c h. (digit-ne c h).0)

digits-Lacks_colon : (s : Text) → All IsDigit s → Lacks b':' s
digits-Lacks_colon = All-map IsDigit (λ c. c ≢ b':') (λ c h. (digit-ne c h).1)

no_blanks-digits : (s : Text) → All IsDigit s → no_blanks s ≡ ok tt
no_blanks-digits s h = rw (strip-digits s h, text_eq_refl s)

as_loop-hex :
    (as_value v : ℕ) (parts : List Text)
    → v < 2 ^ 16
    → as_loop as_value (hex v ∷ parts) ≡ as_loop (as_value * 2 ^ 16 + v) parts
unfolding as_loop
as_loop-hex as_value v parts h =
    rw (no_blanks-digits (hex v) (hex-All v), int_of_text-show 16 (omega arith) (omega arith) v)
      (ground (arith, bit_or-shifted 16 as_value v h))

-- the three groups of a SCION AS number
abbrev pub groups : ℕ → ℕ → ℕ → Text
groups a b c = join b':' (hex a ∷ hex b ∷ hex c ∷ [])

as_loop_three :
    (a b c : ℕ)
    → a < 2 ^ 16
    → b < 2 ^ 16
    → c < 2 ^ 16
    → as_loop 0 (hex a ∷ hex b ∷ hex c ∷ []) ≡ ok (a * 2 ^ 32 + b * 2 ^ 16 + c)
as_loop_three a b c ha hb hc =
    rw
      (
        as_loop-hex 0 a (hex b ∷ hex c ∷ []) ha,
        as_loop-hex _ b (hex c ∷ []) hb,
        as_loop-hex _ c [] hc,
      )
      (unfold as_loop in ap ok (omega arith))

groups-Lacks : (a b c : ℕ) → All (Lacks b':') (hex a ∷ hex b ∷ hex c ∷ [])
groups-Lacks a b c = (
  digits-Lacks_colon _ (hex-All a),
  (digits-Lacks_colon _ (hex-All b), (digits-Lacks_colon _ (hex-All c), tt)),
)

as_of_parts-groups :
    (a b c : ℕ)
    → a < 2 ^ 16
    → b < 2 ^ 16
    → c < 2 ^ 16
    → as_of_parts (split b':' (groups a b c)) ≡ ok (a * 2 ^ 32 + b * 2 ^ 16 + c)
unfolding as_of_parts
as_of_parts-groups a b c ha hb hc =
    rw
      (
        split-join b':' (hex a ∷ hex b ∷ hex c ∷ []) (cc) (groups-Lacks a b c),
        as_loop_three a b c ha hb hc,
      )
      (ground arith)

as_of_parts-decimal :
    (n : ℕ)
    → as_of_parts (split b':' (decimal n)) ≡ (if ltb (2 ^ 32 - 1) n then err value_error else ok n)
unfolding as_of_parts
as_of_parts-decimal n =
    rw
      (
        split_whole b':' (decimal n) (digits-Lacks_colon _ (decimal-All n)),
        no_blanks-digits (decimal n) (decimal-All n),
        int_of_text-show 10 (omega arith) (omega arith) n,
      )
      (ground arith)

ia_str_to_int-parts :
    (isd : ℕ) (as_text : Text)
    → Lacks b'-' as_text
    → no_blanks as_text ≡ ok tt
    → ia_str_to_int (join b'-' (decimal isd ∷ as_text ∷ [])) ≡ (
        if ltb 65535 isd
        then err value_error
        else (as_of_parts (split b':' as_text) >>= λ as_value. ok (bit_or (isd * 2 ^ 48) as_value)))
unfolding ia_str_to_int ia_of_parts
ia_str_to_int-parts isd as_text h k =
    rw
      (
        split-join b'-' (decimal isd ∷ as_text ∷ []) (cc)
            (digits-Lacks_hyphen _ (decimal-All isd), (h, tt)),
        no_blanks-digits (decimal isd) (decimal-All isd),
        k,
        int_of_text-show 10 (omega arith) (omega arith) isd,
      )
      (ground arith)

-- the characters of a canonical AS number
abbrev IsPlain : ℕ → Type 0
IsPlain c = (is_space c ≡ false) × (c ≢ b'-')

digit-IsPlain : (c : ℕ) → IsDigit c → IsPlain c
digit-IsPlain c h = (digit_not_space c h, (digit-ne c h).0)

colon-IsPlain : IsPlain b':'
unfolding is_space
colon-IsPlain = (refl, omega arith)

groups-IsPlain : (a b c : ℕ) → All IsPlain (groups a b c)
unfolding join
groups-IsPlain a b c =
    let plain : (n : ℕ) → All IsPlain (hex n) =
      λ n. All-map IsDigit IsPlain digit-IsPlain (hex n) (hex-All n) in
    All-append IsPlain (hex a) _ (plain a)
      (colon-IsPlain, All-append IsPlain (hex b) _ (plain b) (colon-IsPlain, plain c))

no_blanks-plain : (s : Text) → All IsPlain s → no_blanks s ≡ ok tt
unfolding strip
no_blanks-plain s h = rw (
  strip_by-Keeps is_space s (All-map IsPlain (λ c. is_space c ≡ false) (λ c p. p.0) s h),
  text_eq_refl s,
)

-- An identifier `isd-a:b:c`, with the ISD in decimal and three groups of hexadecimal digits, is read
-- as the number that has these as its digits in base 2^16, if all four are below 2^16.
pub ia_str_to_int-groups :
    (isd a b c : ℕ)
    → isd < 2 ^ 16
    → a < 2 ^ 16
    → b < 2 ^ 16
    → c < 2 ^ 16
    → ia_str_to_int (join b'-' (decimal isd ∷ groups a b c ∷ []))
      ≡ ok (isd * 2 ^ 48 + (a * 2 ^ 32 + b * 2 ^ 16 + c))
ia_str_to_int-groups isd a b c hi ha hb hc =
    let plain = groups-IsPlain a b c in
    rw
      (
        ia_str_to_int-parts isd (groups a b c)
            (All-map IsPlain (λ d. d ≢ b'-') (λ d p. p.1) _ plain) (no_blanks-plain _ plain),
        as_of_parts-groups a b c ha hb hc,
      )
      (ground (arith, bit_or-shifted 48 isd (a * 2 ^ 32 + b * 2 ^ 16 + c) (omega arith)))

-- An identifier `isd-n` with two decimal numbers is refused if the ISD is above 65535 or the AS above
-- 2^32 - 1, and is read as the number with the ISD above the low 48 bits otherwise.
pub ia_str_to_int-decimal :
    (isd n : ℕ)
    → ia_str_to_int (join b'-' (decimal isd ∷ decimal n ∷ [])) ≡ (
        if ltb 65535 isd
        then err value_error
        else if ltb (2 ^ 32 - 1) n
        then err value_error
        else ok (isd * 2 ^ 48 + n))
ia_str_to_int-decimal isd n =
    rw
      (
        ia_str_to_int-parts isd (decimal n) (digits-Lacks_hyphen _ (decimal-All n))
            (no_blanks-digits _ (decimal-All n)),
        as_of_parts-decimal n,
      )
      (ground (arith, bit_or-shifted 48 isd n))
