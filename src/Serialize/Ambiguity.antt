-- ===== src/Serialize/Ambiguity.antt =====
-- Fields that stand side by side in the bytes of an offer.
use esdx_scion.Base.{
  ℕ, suc, ◌+◌, ◌*◌, ◌/◌, ◌%◌, ◌<◌, ◌≡◌, ap, ◌++◌, append_assoc, arith, ltb, zero, ok, ◌>>=◌, inl,
  inr, Bool-cases, lt→ltb, le→ltb,
}
use esdx_scion.Base.Int.{pos}
use esdx_scion.Text.{Text, Bytes, text_of_int, show_digits, encode_ascii, show_ℕ}
use esdx_scion.Serialize.{Floats, OfferFields, offer_text, offer_fields_serialize_to_bytes}

show_digits_fuel : (f g n : ℕ) → n < f → n < g → show_digits 10 f n ≡ show_digits 10 g n
unfolding show_digits
show_digits_fuel zero g n hf hg = absurd (omega arith)
show_digits_fuel (suc f) zero n hf hg = absurd (omega arith)
show_digits_fuel (suc f) (suc g) n hf hg = elim (Bool-cases (ltb n 10)) [
  | inl small ↦ rw small
  | inr large ↦ rw (large, show_digits_fuel f g (n / 10) (ground arith) (ground arith))
]

show_last : (n d : ℕ) → 0 < n → d < 10 → show_ℕ 10 (n * 10 + d) ≡ show_ℕ 10 n ++ show_ℕ 10 d
unfolding show_ℕ show_digits
show_last n d hn hd =
    let quotient : (n * 10 + d) / 10 ≡ n = omega arith in
    let digit : (n * 10 + d) % 10 ≡ d = omega arith in
    rw (
      le→ltb (n * 10 + d) 10 (omega arith),
      quotient,
      digit,
      lt→ltb d 10 hd,
      show_digits_fuel (n * 10 + d) (suc n) n (omega arith) (omega arith),
    )

module _ (floats : Floats) where
  open floats use {Float}

  -- The digits of `qos_class` follow `reachable_paths` with nothing between them. For every offer and
  -- every two-or-more-digit class 10 n + d, the offer with `n` moved to the end of the paths and the
  -- class d has the same bytes, so that one signature fits both.
  pub reachable_paths_ambiguous :
      (f : OfferFields Float) (n d : ℕ) (signature : Bytes)
      → 0 < n
      → d < 10
      → offer_fields_serialize_to_bytes floats (record f { qos_class = pos (n * 10 + d) }) signature
        ≡ offer_fields_serialize_to_bytes floats
            (record f {
              reachable_paths = f.reachable_paths ++ text_of_int (pos n);
              qos_class = pos d;
            })
            signature
  unfolding offer_fields_serialize_to_bytes offer_text text_of_int
  reachable_paths_ambiguous f n d signature hn hd =
      ap (λ (t : Text). encode_ascii t >>= λ s. ok (s ++ signature))
        (simp (show_last n d hn hd, append_assoc))
