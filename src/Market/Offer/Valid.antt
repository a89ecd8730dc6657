-- ===== src/Market/Offer/Valid.antt =====
-- What `_pre_save` accepts.
use esdx_scion.Base.{
  ℕ, ◌*◌, ◌≡◌, ◌↔◌, sym, ap, ◌∙◌, Bool, true, false, not, ◌||◌, List, arith, length, ok,
  value_error, ok-injective, bind_inv, guard_inv, ◌==◌, le→ltb,
}
use esdx_scion.Base.Int.{
  ℤ, pos, negsuc, ◌+ℤ◌, ◌-ℤ◌, ltb_ℤ, eqb_ℤ, div_ℤ, mod_ℤ, int_laws, parts_of_eq,
}
use esdx_scion.Conversion.Csv.{csv_to_intlist}
use esdx_scion.Conversion.Ip.{Ip, Ipv6}
use esdx_scion.Conversion.Address.{ip_port_range_from_str}
use esdx_scion.Market.Time.{DateTime, elapsed, before, period_micros}
use esdx_scion.Market.Offer.{Offer, pre_save}

pub elapsed_aware :
    (s t : DateTime) → s.aware ≡ true → t.aware ≡ true → elapsed s t ≡ ok (s.micros -ℤ t.micros)
unfolding elapsed
elapsed_aware s t hs ht = rw (hs, ht)

before_aware :
    (s t : DateTime) → s.aware ≡ true → t.aware ≡ true → before s t ≡ ok (ltb_ℤ s.micros t.micros)
unfolding before
before_aware s t hs ht = rw (hs, ht)

whole_periods :
    (d : ℤ) (k : ℕ)
    → not (mod_ℤ d period_micros == 0) ≡ false
    → not (eqb_ℤ (pos k) (div_ℤ d period_micros)) ≡ false
    → d ≡ pos (k * period_micros)
whole_periods (pos d) k h e = ap pos (ground arith)
whole_periods (negsuc d) k h e = absurd (ground arith)

not-false : (b : Bool) → not b ≡ false → b ≡ true
not-false b h = ground arith

both_aware : (a b : Bool) → not a || not b ≡ false → (a ≡ true) × (b ≡ true)
both_aware a b h = ground arith

aware_passes : (a b : Bool) → a ≡ true → b ≡ true → (not a || not b) ≡ false
aware_passes a b ha hb = rw (ha, hb)

mod_passes : (k : ℕ) → not (mod_ℤ (pos (k * period_micros)) period_micros == 0) ≡ false
mod_passes k = ground arith

div_passes : (k : ℕ) → not (eqb_ℤ (pos k) (div_ℤ (pos (k * period_micros)) period_micros)) ≡ false
div_passes k = ground arith

module _ {F : Type 0} (ipv6 : Ipv6) (full_clean : Offer F → Bool) where
  -- An offer that may be stored: the validators of its fields accept it, its times have a time zone,
  -- its profile has one entry for each period of its life, and its template is a port range.
  pub record IsValid (o : Offer F) : Type 0 where
    pub clean : full_clean o ≡ true
    pub aware_before : o.notbefore.aware ≡ true
    pub aware_after : o.notafter.aware ≡ true
    pub profile : List ℤ
    pub reads : csv_to_intlist o.bw_profile ≡ ok profile
    pub spans : o.notafter.micros ≡ o.notbefore.micros +ℤ pos (length profile * period_micros)
    pub template : Ip ipv6.Address × ℤ × ℤ
    pub reads_template : ip_port_range_from_str ipv6 o.br_address_template ≡ ok template

  end_of_span : (a b : ℤ) (k : ℕ) → a -ℤ b ≡ pos k → a ≡ b +ℤ pos k
  end_of_span a b k e = omega (int_laws, parts_of_eq _ _ e)

  pre_save_sound : (o : Offer F) → pre_save ipv6 full_clean o ≡ ok tt → IsValid o
  unfolding pre_save
  pre_save_sound o e = guard_inv (not (full_clean o)) value_error _ e λ clean e1.
      guard_inv (not o.notbefore.aware || not o.notafter.aware) value_error _ e1 λ aware e2.
        bind_inv (before o.notafter o.notbefore) _ e2 λ reversed er e3.
          guard_inv reversed value_error _ e3 λ forward e4.
            bind_inv (elapsed o.notafter o.notbefore) _ e4 λ lifespan el e5.
              guard_inv (not (mod_ℤ lifespan period_micros == 0)) value_error _ e5 λ whole e6.
                bind_inv (csv_to_intlist o.bw_profile) _ e6 λ profile ep e7.
                  guard_inv (not (eqb_ℤ (pos (length profile)) (div_ℤ lifespan period_micros)))
                    value_error _ e7
                    λ long e8.
                      bind_inv (ip_port_range_from_str ipv6 o.br_address_template) _ e8
                        λ template et _.
                          let (ab, aa) = both_aware o.notbefore.aware o.notafter.aware aware in
                          let exact =
                            ok-injective (sym (elapsed_aware o.notafter o.notbefore aa ab) ∙ el) in
                          record {
                            clean = not-false _ clean;
                            aware_before = ab;
                            aware_after = aa;
                            profile = profile;
                            reads = ep;
                            spans =
                                end_of_span o.notafter.micros o.notbefore.micros
                                  (length profile * period_micros)
                                  (exact ∙ whole_periods lifespan (length profile) whole long);
                            template = template;
                            reads_template = et;
                          }

  span_facts :
      (a b : ℤ) (k : ℕ)
      → a ≡ b +ℤ pos (k * period_micros)
      → (ltb_ℤ a b ≡ false) × (a -ℤ b ≡ pos (k * period_micros))
  span_facts a b k e =
      (le→ltb _ _ (omega (int_laws, parts_of_eq _ _ e)), omega (int_laws, parts_of_eq _ _ e))

  pre_save_complete : (o : Offer F) → IsValid o → pre_save ipv6 full_clean o ≡ ok tt
  unfolding pre_save
  pre_save_complete o h =
      let k = length h.profile in
      let facts = span_facts o.notafter.micros o.notbefore.micros k h.spans in
      rw (
        h.clean,
        aware_passes _ _ h.aware_before h.aware_after,
        before_aware o.notafter o.notbefore h.aware_after h.aware_before,
        facts.0,
        elapsed_aware o.notafter o.notbefore h.aware_after h.aware_before,
        facts.1,
        mod_passes k,
        h.reads,
        div_passes k,
        h.reads_template,
      )

  -- `_pre_save` accepts exactly the offers that may be stored.
  pub pre_save_iff : (o : Offer F) → (pre_save ipv6 full_clean o ≡ ok tt) ↔ IsValid o
  pre_save_iff o = (pre_save_sound o, pre_save_complete o)
