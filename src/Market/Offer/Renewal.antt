-- ===== src/Market/Offer/Renewal.antt =====
-- The offer that replaces a sold one.
use esdx_scion.Base.{
  ◌*◌, ◌≡◌, ◌≢◌, sym, ap, ◌∙◌, Bool, true, some, List, [], ◌∷◌, arith, length, ok, ok-injective,
}
use esdx_scion.Base.Int.{ℤ, pos, ◌+ℤ◌}
use esdx_scion.Text.{Text}
use esdx_scion.Conversion.Csv.{csv_to_intlist}
use esdx_scion.Conversion.Csv.RoundTrip.{csv_to_intlist-intlist_to_csv, csv_to_intlist-ne-nil}
use esdx_scion.Conversion.Ip.{Ipv6}
use esdx_scion.Market.Time.{DateTime, period_micros}
use esdx_scion.Market.Profile.Reference.{sum, subtract_at, length-subtract_at, sum-subtract_at}
use esdx_scion.Market.Offer.{Offer, purchase, pre_save}
use esdx_scion.Market.Offer.Bought.{purchase_iff, Bought}
use esdx_scion.Market.Offer.Valid.{pre_save_iff}

ne-nil_of_length : (xs ys : List ℤ) → length xs ≡ length ys → ys ≢ [] → xs ≢ []
ne-nil_of_length [] [] e ne = ne
ne-nil_of_length [] (y ∷ ys) e ne = absurd (omega arith)
ne-nil_of_length (x ∷ xs) ys e ne = cc

module _ {F : Type 0} where
  -- what `purchase` has returned is read as the rest of the profile
  pub reads_rest :
      (o : Offer F) (bw_profile : Text) (starting : DateTime) (rest : Text)
      → (b : Bought o bw_profile starting rest)
      → csv_to_intlist rest ≡ ok (subtract_at b.starts.offset b.that b.orig)
  reads_rest o bw_profile starting rest b =
      let n = b.starts.offset in
      ap csv_to_intlist b.starts.left
      ∙ csv_to_intlist-intlist_to_csv (subtract_at n b.that b.orig) (
          ne-nil_of_length _ b.orig (length-subtract_at n b.that b.orig)
            (csv_to_intlist-ne-nil o.bw_profile b.orig b.reads_orig))

  -- A purchase conserves bandwidth: the profile that it returns is read as a list of the same length
  -- as the offered one, and its sum and the sum of what was bought make up the offered sum.
  pub purchase_conserves :
      (o : Offer F) (bw_profile : Text) (starting : DateTime) (rest : Text)
      → purchase o bw_profile starting ≡ ok (some rest)
      → (that : List ℤ) × (orig : List ℤ) × (new : List ℤ) × (csv_to_intlist bw_profile ≡ ok that)
        × (csv_to_intlist o.bw_profile ≡ ok orig)
        × (csv_to_intlist rest ≡ ok new)
        × (length new ≡ length orig)
        × (sum new +ℤ sum that ≡ sum orig)
  purchase_conserves o bw_profile starting rest e =
      let b = (purchase_iff o bw_profile starting rest).0 e in
      let n = b.starts.offset in
      (
        b.that,
        b.orig,
        subtract_at n b.that b.orig,
        b.reads_that,
        b.reads_orig,
        reads_rest o bw_profile starting rest b,
        length-subtract_at n b.that b.orig,
        sum-subtract_at n b.that b.orig b.starts.covers,
      )

  -- An offer that may be stored can be stored again with the profile that a purchase has left, if the
  -- validators of the fields accept the new profile: its length still fits the life of the offer.
  pub pre_save-purchase :
      (ipv6 : Ipv6) (full_clean : Offer F → Bool) (o : Offer F) (bw_profile : Text)
      (starting : DateTime) (rest : Text)
      → pre_save ipv6 full_clean o ≡ ok tt
      → purchase o bw_profile starting ≡ ok (some rest)
      → full_clean (record o { bw_profile = rest }) ≡ true
      → pre_save ipv6 full_clean (record o { bw_profile = rest }) ≡ ok tt
  pre_save-purchase ipv6 full_clean o bw_profile starting rest valid e clean =
      let v = (pre_save_iff ipv6 full_clean o).0 valid in
      let b = (purchase_iff o bw_profile starting rest).0 e in
      let n = b.starts.offset in
      let same_length : length v.profile ≡ length (subtract_at n b.that b.orig) =
        ap length (ok-injective (sym v.reads ∙ b.reads_orig))
        ∙ sym (length-subtract_at n b.that b.orig) in
      (pre_save_iff ipv6 full_clean (record o { bw_profile = rest })).1 (record {
        clean = clean;
        aware_before = v.aware_before;
        aware_after = v.aware_after;
        profile = subtract_at n b.that b.orig;
        reads = reads_rest o bw_profile starting rest b;
        spans = v.spans ∙ ap (λ k. o.notbefore.micros +ℤ pos (k * period_micros)) same_length;
        template = v.template;
        reads_template = v.reads_template;
      })
