-- ===== src/Market/Offer/Bought.antt =====
-- `purchase` against the reference, from text to text.
use esdx_scion.Base.{
  ℕ, ◌*◌, ◌/◌, ◌%◌, ◌≡◌, ◌≢◌, ◌↔◌, refl, Option, none, some, List, arith, ok, ok-injective, ap,
  bind_inv, ◌==◌, if◌then◌else◌, Bool-cases, inl, inr,
}
use esdx_scion.Base.Int.{ℤ, pos, negsuc}
use esdx_scion.Text.{Text}
use esdx_scion.Conversion.Csv.{csv_to_intlist, intlist_to_csv}
use esdx_scion.Market.Time.{DateTime, elapsed, period_micros}
use esdx_scion.Market.Profile.{buy}
use esdx_scion.Market.Profile.Reference.{sum, Covers, subtract_at}
use esdx_scion.Market.Profile.Purchase.{buy-eq-some}
use esdx_scion.Market.Offer.{Offer, purchase_from, purchase}

-- A purchase begins a whole number of periods after the offer, lies within it and buys something.
pub record Starts (that orig : List ℤ) (delay : ℤ) (rest : Text) : Type 0 where
  pub offset : ℕ
  pub on_time : delay ≡ pos (offset * period_micros)
  pub covers : Covers offset that orig
  pub some_bought : sum that ≢ pos 0
  pub left : rest ≡ intlist_to_csv (subtract_at offset that orig)

print_left : Option (List ℤ) → Option Text
print_left o = elim o [ none ↦ none | some new_prof ↦ some (intlist_to_csv new_prof) ]

print_left_inv :
    (o : Option (List ℤ)) (t : Text)
    → print_left o ≡ some t
    → (new : List ℤ) × (o ≡ some new) × (t ≡ intlist_to_csv new)
unfolding print_left
print_left_inv none t e = absurd (cc)
print_left_inv (some new) t e = (new, refl, cc)

purchase_from-pos :
    (that orig : List ℤ) (m : ℕ)
    → purchase_from that orig (pos m)
      ≡ (if m % period_micros == 0 then print_left (buy (m / period_micros) that orig) else none)
unfolding purchase_from print_left
purchase_from-pos that orig m = ground arith

purchase_from-negsuc : (that orig : List ℤ) (m : ℕ) → purchase_from that orig (negsuc m) ≡ none
unfolding purchase_from
purchase_from-negsuc that orig m = ground arith

purchase_from_sound :
    (that orig : List ℤ) (delay : ℤ) (t : Text)
    → purchase_from that orig delay ≡ some t
    → Starts that orig delay t
purchase_from_sound that orig (negsuc m) t e = absurd (cc (e, purchase_from-negsuc that orig m))
purchase_from_sound that orig (pos m) t e =
    let e' = rw (purchase_from-pos that orig m) at e in
    elim (Bool-cases (m % period_micros == 0)) [
      | inr late ↦ absurd (cc (rw late at e'))
      | inl on ↦
          let (new, eb, et) = print_left_inv (buy (m / period_micros) that orig) t (rw on at e') in
          let (covers, ne, exact) = (buy-eq-some (m / period_micros) that orig new).0 eb in
          record {
            offset = m / period_micros;
            on_time = ap pos (ground arith);
            covers = covers;
            some_bought = ne;
            left = rw exact at et;
          }
    ]

purchase_from_complete :
    (that orig : List ℤ) (delay : ℤ) (t : Text)
    → Starts that orig delay t
    → purchase_from that orig delay ≡ some t
purchase_from_complete that orig delay t h =
    let whole : h.offset * period_micros % period_micros ≡ 0 = omega arith in
    let periods : h.offset * period_micros / period_micros ≡ h.offset = omega arith in
    rw
      (
        h.on_time,
        purchase_from-pos that orig (h.offset * period_micros),
        whole,
        periods,
        (buy-eq-some h.offset that orig (subtract_at h.offset that orig)).1
            (h.covers, h.some_bought, refl),
        h.left,
      )
      (unfold print_left in refl)

module _ {F : Type 0} where
  -- The texts are read as two profiles, and the purchase by them leaves `rest`.
  pub record Bought (o : Offer F) (bw_profile : Text) (starting : DateTime) (rest : Text)
      : Type 0 where
    pub that : List ℤ
    pub orig : List ℤ
    pub delay : ℤ
    pub reads_that : csv_to_intlist bw_profile ≡ ok that
    pub reads_orig : csv_to_intlist o.bw_profile ≡ ok orig
    pub elapses : elapsed starting o.notbefore ≡ ok delay
    pub starts : Starts that orig delay rest

  -- `Offer.purchase` returns a profile exactly if both profiles can be read, the purchase begins a
  -- whole number of periods after the beginning of the offer, ends no later than it, asks in every
  -- period for no less than nothing and no more than what is left, and is not of nothing in total. The
  -- returned profile is the offered one less what was bought.
  pub purchase_iff :
      (o : Offer F) (bw_profile : Text) (starting : DateTime) (rest : Text)
      → (purchase o bw_profile starting ≡ ok (some rest)) ↔ Bought o bw_profile starting rest
  unfolding purchase
  purchase_iff o bw_profile starting rest = (
    λ e. bind_inv (csv_to_intlist bw_profile) _ e λ that et e1.
        bind_inv (csv_to_intlist o.bw_profile) _ e1 λ orig eo e2.
          bind_inv (elapsed starting o.notbefore) _ e2 λ delay ed e3. record {
            that = that;
            orig = orig;
            delay = delay;
            reads_that = et;
            reads_orig = eo;
            elapses = ed;
            starts = purchase_from_sound that orig delay rest (ok-injective e3);
          },
    λ h.
        rw (h.reads_that, h.reads_orig, h.elapses)
          (ap ok (purchase_from_complete h.that h.orig h.delay rest h.starts)),
  )
