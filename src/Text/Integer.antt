-- ===== src/Text/Integer.antt =====
-- `int` reads back what `str` prints, and reads no negative number without a minus sign.
use esdx_scion.Base.{
  ℕ, suc, ◌≤◌, ◌≡◌, ◌≢◌, inl, inr, refl, sym, ap, ◌∙◌, Bool, false, Option, none, some, [], ◌∷◌,
  append-nil, arith, ◌==◌, Bool-cases, All, All-map, All-reverse, Lacks, ok, Exn, value_error,
  or_raise, ==_ne,
}
use esdx_scion.Base.Int.{ℤ, pos, negsuc, neg_ℕ}
use esdx_scion.Text.Defs.{
  Text, read_digits, read_magnitude, read_signed, with_sign, int_of_text, show_digits, show_ℕ,
  text_of_int, is_space, int_blank, int_strip, drop_while, strip, strip_by,
}
use esdx_scion.Text.Strip.{strip_by-Keeps}
use esdx_scion.Text.Number.{IsDigit, read_digits-show_digits, show_digits-All}

read_magnitude-digits :
    (base : ℕ) (s : Text) → All IsDigit s → read_magnitude base s ≡ read_digits base s 0 false
unfolding read_magnitude
read_magnitude-digits base [] h = refl
read_magnitude-digits base (c ∷ []) h = refl
read_magnitude-digits base (c ∷ d ∷ s) h = ground arith

pub digit_not_space : (c : ℕ) → IsDigit c → is_space c ≡ false
unfolding is_space
digit_not_space c h = ground arith

digit_not_sign : (c : ℕ) → IsDigit c → ((c == b'-') ≡ false) × ((c == b'+') ≡ false)
digit_not_sign c h = ground arith

pub read_signed-digits :
    (base : ℕ) (s : Text) (n : ℕ)
    → All IsDigit s
    → read_digits base s 0 false ≡ some n
    → read_signed base s ≡ some (pos n)
unfolding read_signed
read_signed-digits base [] n h e = unfold read_digits in cc
read_signed-digits base (c ∷ s) n h e =
    let (not_minus, not_plus) = digit_not_sign c h.0 in
    rw (not_minus, not_plus, read_magnitude-digits base (c ∷ s) h, e)

pub strip-digits : (s : Text) → All IsDigit s → strip s ≡ s
unfolding strip
strip-digits s h =
    strip_by-Keeps is_space s (All-map IsDigit (λ c. is_space c ≡ false) digit_not_space s h)

not_int_blank : (s : Text) (c : ℕ) → is_space c ≡ false → int_blank s c ≡ false
unfolding int_blank
not_int_blank s c h = rw h refl

pub int_strip-digits : (s : Text) → All IsDigit s → int_strip s ≡ s
unfolding int_strip
int_strip-digits s h = strip_by-Keeps (int_blank s) s (
    All-map IsDigit (λ c. int_blank s c ≡ false) (λ c d. not_int_blank s c (digit_not_space c d)) s
      h)

module _ (base : ℕ) (low : 2 ≤ base) (high : base ≤ 16) where
  read_digits-show : (n : ℕ) → read_digits base (show_ℕ base n) 0 false ≡ some n
  unfolding show_ℕ read_digits
  read_digits-show n =
      ap (λ (s : Text). read_digits base s 0 false) (sym (append-nil (show_digits base (suc n) n)))
      ∙ read_digits-show_digits base low high (suc n) n [] false (omega arith)

  pub show_ℕ-All : (n : ℕ) → All IsDigit (show_ℕ base n)
  unfolding show_ℕ
  show_ℕ-All n = show_digits-All base low high (suc n) n

  -- A printed number is read back in its base.
  pub int_of_text-show : (n : ℕ) → int_of_text base (show_ℕ base n) ≡ ok (pos n)
  unfolding int_of_text
  int_of_text-show n =
      let digits = show_ℕ-All n in
      rw (int_strip-digits _ digits, read_signed-digits base _ n digits (read_digits-show n))

minus_not_space : is_space b'-' ≡ false
unfolding is_space
minus_not_space = refl

int_strip-minus : (s : Text) → All IsDigit s → int_strip (b'-' ∷ s) ≡ b'-' ∷ s
unfolding int_strip
int_strip-minus s h = strip_by-Keeps (int_blank (b'-' ∷ s)) (b'-' ∷ s) (
  not_int_blank (b'-' ∷ s) b'-' minus_not_space,
  All-map IsDigit (λ c. int_blank (b'-' ∷ s) c ≡ false)
      (λ c d. not_int_blank (b'-' ∷ s) c (digit_not_space c d)) s h,
)

int_of_text-minus :
    (base : ℕ) (s : Text) (n : ℕ)
    → All IsDigit s
    → read_digits base s 0 false ≡ some n
    → int_of_text base (b'-' ∷ s) ≡ ok (neg_ℕ n)
unfolding int_of_text read_signed
int_of_text-minus base s n h e = rw (int_strip-minus s h, read_magnitude-digits base s h, e)

-- Every integer is read back from its print.
pub int_of_text-text_of_int : (i : ℤ) → int_of_text 10 (text_of_int i) ≡ ok i
unfolding text_of_int
int_of_text-text_of_int (pos n) = int_of_text-show 10 (omega arith) (omega arith) n
int_of_text-text_of_int (negsuc n) =
    int_of_text-minus 10 _ (suc n) (show_ℕ-All 10 (omega arith) (omega arith) (suc n))
      (read_digits-show 10 (omega arith) (omega arith) (suc n))

module _ (c : ℕ) where
  drop_while-Lacks : (p : ℕ → Bool) (s : Text) → Lacks c s → Lacks c (drop_while p s)
  unfolding drop_while
  drop_while-Lacks p [] h = tt
  drop_while-Lacks p (d ∷ s) h = elim (Bool-cases (p d)) [
    | inl e ↦ rw e (drop_while-Lacks p s h.1)
    | inr e ↦ rw e h
  ]

  pub strip_by-Lacks : (p : ℕ → Bool) (s : Text) → Lacks c s → Lacks c (strip_by p s)
  unfolding strip_by
  strip_by-Lacks p s h =
      All-reverse (λ x. x ≢ c) _
        (drop_while-Lacks p _ (All-reverse (λ x. x ≢ c) _ (drop_while-Lacks p s h)))

abbrev IsFrom0 : ℤ → Type 0
IsFrom0 i = (n : ℕ) × (i ≡ pos n)

with_sign-pos : (o : Option ℕ) (i : ℤ) → with_sign pos o ≡ some i → IsFrom0 i
with_sign-pos none i e = cc
with_sign-pos (some n) i e = (n, cc)

read_signed-nonneg :
    (base : ℕ) (s : Text) (i : ℤ) → Lacks b'-' s → read_signed base s ≡ some i → IsFrom0 i
unfolding read_signed
read_signed-nonneg base [] i h e = cc
read_signed-nonneg base (c ∷ s) i h e =
    let e' = rw (==_ne c b'-' h.0) at e in
    elim (Bool-cases (c == b'+')) [
      | inl plus ↦ with_sign-pos (read_magnitude base s) i (rw plus at e')
      | inr other ↦ with_sign-pos (read_magnitude base (c ∷ s)) i (rw other at e')
    ]

or_raise-eq-ok : {A : Type 0} (o : Option A) (x : Exn) (a : A) → or_raise o x ≡ ok a → o ≡ some a
or_raise-eq-ok none x a e = cc
or_raise-eq-ok (some b) x a e = cc

-- Without a minus sign only numbers from zero on are read.
pub int_of_text-nonneg :
    (base : ℕ) (s : Text) (i : ℤ) → Lacks b'-' s → int_of_text base s ≡ ok i → (n : ℕ) × (i ≡ pos n)
int_of_text-nonneg base s i h e =
    read_signed-nonneg base (int_strip s) i
      (unfold int_strip in strip_by-Lacks b'-' (int_blank s) s h)
      (or_raise-eq-ok _ value_error i (unfold int_of_text in e))
