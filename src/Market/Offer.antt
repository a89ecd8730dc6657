-- ===== src/Market/Offer.antt =====
-- models/offer.py: the model `Offer` and the methods that only look at its own fields. Django's
-- `full_clean`, which runs the validators of the fields, is an argument.
pub mod Bought
pub mod Valid
pub mod Renewal
use esdx_scion.Base.{
  ℕ, ◌*◌, Bool, true, false, not, ◌||◌, Option, none, some, List, [], ◌∷◌, length, drop, Result, ok,
  err, value_error, raise_if, ◌>>=◌, ◌>>◌, ltb, ◌==◌, if◌then◌else◌,
}
use esdx_scion.Base.Int.{ℤ, pos, negsuc, pos_part, ltb_ℤ, eqb_ℤ, div_ℤ, mod_ℤ}
use esdx_scion.Text.{Text, Bytes}
use esdx_scion.Conversion.Csv.{csv_to_intlist, intlist_to_csv}
use esdx_scion.Conversion.Ip.{Ipv6}
use esdx_scion.Conversion.Address.{ip_port_range_from_str}
use esdx_scion.Serialize.{Floats, OfferFields, offer_fields_serialize_to_bytes}
use esdx_scion.Market.Time.{DateTime, elapsed, before, timestamp, period_micros}
use esdx_scion.Market.Profile.{buy}

-- `F` is the type of floats. `id` is the primary key and `deprecates` that of another offer.
pub record Offer (F : Type 0) : Type 0 where
  pub id : Option ℕ
  pub iaid : Text
  pub signature : Bytes
  pub notbefore : DateTime
  pub notafter : DateTime
  pub reachable_paths : Text
  pub qos_class : ℤ
  pub price_per_unit : F
  pub bw_profile : Text
  pub br_address_template : Text
  pub br_mtu : ℤ
  pub br_link_to : Text
  pub deprecates : Option ℕ

-- `clone`: a new instance, with no primary key
abbrev pub clone : {F : Type 0} → Offer F → Offer F
clone o = record o { id = none }

abbrev pub fields_of : {F : Type 0} → Offer F → OfferFields F
fields_of o = record {
  iaid = o.iaid;
  notbefore = timestamp o.notbefore;
  notafter = timestamp o.notafter;
  reachable_paths = o.reachable_paths;
  qos_class = o.qos_class;
  price_per_unit = o.price_per_unit;
  bw_profile = o.bw_profile;
  br_address_template = o.br_address_template;
  br_mtu = o.br_mtu;
  br_link_to = o.br_link_to;
}

-- `Offer.serialize_to_bytes`
unfoldable pub serialize_to_bytes : (floats : Floats) → Offer floats.Float → Bool → Result Bytes
serialize_to_bytes floats o include_signature =
    offer_fields_serialize_to_bytes floats (fields_of o)
      (if include_signature then o.signature else [])

-- the rest of `purchase`, once the profiles and the offset in microseconds are known
unfoldable pub purchase_from : List ℤ → List ℤ → ℤ → Option Text
purchase_from that_prof orig_prof offset =
    if not (mod_ℤ offset period_micros == 0) || ltb_ℤ offset (pos 0)
    then none
    else (elim (buy (pos_part (div_ℤ offset period_micros)) that_prof orig_prof) [
      | none ↦ none
      | some new_prof ↦ some (intlist_to_csv new_prof)
    ])

module _ {F : Type 0} where
  -- `Offer.purchase`; `none` is Python's `None`
  unfoldable pub purchase : Offer F → Text → DateTime → Result (Option Text)
  purchase o bw_profile starting = do
    that_prof ← csv_to_intlist bw_profile
    orig_prof ← csv_to_intlist o.bw_profile
    offset ← elapsed starting o.notbefore
    ok (purchase_from that_prof orig_prof offset)

  unfoldable pub contains_profile : Offer F → Text → DateTime → Result Bool
  contains_profile o bw_profile starting = do
    new_prof ← purchase o bw_profile starting
    ok (elim new_prof [ none ↦ false | some _ ↦ true ])

  -- `Offer._pre_save`
  unfoldable pub pre_save : Ipv6 → (Offer F → Bool) → Offer F → Result (Unit {0})
  pre_save ipv6 full_clean o = do
    raise_if (not (full_clean o)) value_error
    raise_if (not o.notbefore.aware || not o.notafter.aware) value_error
    reversed ← before o.notafter o.notbefore
    raise_if reversed value_error
    lifespan ← elapsed o.notafter o.notbefore
    raise_if (not (mod_ℤ lifespan period_micros == 0)) value_error
    profile ← csv_to_intlist o.bw_profile
    raise_if (not (eqb_ℤ (pos (length profile)) (div_ℤ lifespan period_micros))) value_error
    _ ← ip_port_range_from_str ipv6 o.br_address_template
    ok tt
