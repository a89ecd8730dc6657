-- ===== src/Text/Encode.antt =====
-- `encode("ascii")`, and texts that are taken apart at a character.
use esdx_scion.Base.{
  ℕ, ◌<◌, ◌≡◌, ◌≢◌, refl, ap, sym, subst, ◌∙◌, [], ◌∷◌, ◌++◌, arith, ok, ok-injective, bind_inv,
  ltb, lt→ltb, All, All-map, Lacks, Bool-cases, inl, inr,
}
use esdx_scion.Base.Int.{ℤ, pos, negsuc}
use esdx_scion.Text.Defs.{Text, Bytes, encode_ascii, decode_ascii, text_of_int, int_of_text}
use esdx_scion.Text.Number.{IsDigit}
use esdx_scion.Text.Integer.{show_ℕ-All, int_of_text-text_of_int}

-- The bytes of a text that can be encoded are its code points.
pub encode_ascii-eq : (s : Text) (b : Bytes) → encode_ascii s ≡ ok b → b ≡ s
unfolding encode_ascii
encode_ascii-eq [] b e = cc
encode_ascii-eq (c ∷ s) b e = bind_inv (encode_ascii s) _ e λ t et e1.
    elim (Bool-cases (ltb c 128)) [
      | inl small ↦ ok-injective (sym (rw small at e1)) ∙ ap (◌∷◌ c) (encode_ascii-eq s t et)
      | inr large ↦ absurd (cc (rw large at e1))
    ]

-- What decodes has the same bytes.
pub encode_ascii-decode_ascii :
    (b : Bytes) (s : Text) → decode_ascii b ≡ ok s → encode_ascii s ≡ ok b
unfolding encode_ascii decode_ascii
encode_ascii-decode_ascii [] s e = subst (λ t. encode_ascii t ≡ ok []) (ok-injective e) refl
encode_ascii-decode_ascii (c ∷ b) s e = bind_inv (decode_ascii b) _ e λ t et e1.
    elim (Bool-cases (ltb c 128)) [
      | inl small ↦
          subst (λ u. encode_ascii u ≡ ok (c ∷ b)) (ok-injective (rw small at e1))
            (rw (encode_ascii, encode_ascii-decode_ascii b t et, small) refl)
      | inr large ↦ absurd (cc (rw large at e1))
    ]

pub encode_ascii-All : (s : Text) → All (λ c. c < 128) s → encode_ascii s ≡ ok s
unfolding encode_ascii
encode_ascii-All [] h = refl
encode_ascii-All (c ∷ s) h = rw (encode_ascii-All s h.1, lt→ltb c 128 h.0)

-- A text is taken apart at the first place of a character in one way.
pub cut_first :
    (c : ℕ) (p q r s : Text)
    → Lacks c p
    → Lacks c q
    → p ++ (c ∷ r) ≡ q ++ (c ∷ s)
    → (p ≡ q) × (r ≡ s)
cut_first c [] [] r s hp hq e = (refl, cc)
cut_first c [] (d ∷ q) r s hp hq e = absurd (hq.0 (cc))
cut_first c (d ∷ p) [] r s hp hq e = absurd (hp.0 (cc))
cut_first c (d ∷ p) (f ∷ q) r s hp hq e =
    let (heads, tails) = cut_first c p q r s hp.1 hq.1 (cc) in (cc, tails)

-- What integers print: digits, and a minus sign.
abbrev pub IsIntChar : ℕ → Type 0
IsIntChar c = (c < 128) × (c ≢ b':') × (c ≢ b's')

digit-IsIntChar : (c : ℕ) → IsDigit c → IsIntChar c
digit-IsIntChar c h = ground arith

pub text_of_int-All : (i : ℤ) → All IsIntChar (text_of_int i)
unfolding text_of_int
text_of_int-All (pos n) =
    All-map IsDigit IsIntChar digit-IsIntChar _ (show_ℕ-All 10 (omega arith) (omega arith) n)
text_of_int-All (negsuc n) = (
  (omega arith, omega arith, omega arith),
  All-map IsDigit IsIntChar digit-IsIntChar _ (show_ℕ-All 10 (omega arith) (omega arith) _),
)

pub encode_ascii-text_of_int : (i : ℤ) → encode_ascii (text_of_int i) ≡ ok (text_of_int i)
encode_ascii-text_of_int i =
    encode_ascii-All _ (All-map IsIntChar (λ c. c < 128) (λ c h. h.0) _ (text_of_int-All i))

-- Different integers print differently.
pub text_of_int-injective : (i j : ℤ) → text_of_int i ≡ text_of_int j → i ≡ j
text_of_int-injective i j e =
    ok-injective
      (sym (int_of_text-text_of_int i) ∙ (ap (int_of_text 10) e ∙ int_of_text-text_of_int j))
