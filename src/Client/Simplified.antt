-- ===== src/Client/Simplified.antt =====
-- The offers of `MarketClient.create_simplified_offer` can be stored.
use esdx_scion.Base.{
  ℕ, suc, ◌+◌, ◌*◌, ◌^◌, ◌≤◌, ◌<◌, ◌-◌, ◌⊎◌, inl, inr, Bool-cases, leb, ◌≡◌, refl, sym, ap, ◌∙◌,
  Bool, true, List, [], ◌∷◌, length, Result, ok, map_result, bind_inv, ok-injective, arith,
}
use esdx_scion.Base.Int.{ℤ, pos, negsuc, ◌+ℤ◌, int_laws}
use esdx_scion.Text.{Text, codes, split, int_of_text, strip}
use esdx_scion.Conversion.Csv.{csv_to_intlist}
use esdx_scion.Conversion.Ip.{v4, Ipv6, parse_v4, octets}
use esdx_scion.Conversion.Address.{
  ip_port_range_from_str, ip_and_string_from_str, first_match, ip_from_str, range_of_parts,
}
use esdx_scion.Serialize.{Floats}
use esdx_scion.Crypto.{Cryptography}
use esdx_scion.Market.Time.{DateTime, timestamp, time_from_pb_timestamp, bw_period}
use esdx_scion.Market.Offer.{Offer, pre_save}
use esdx_scion.Market.Offer.Valid.{pre_save_iff}
use esdx_scion.Client.{MarketClient, create_simplified_offer}

length-map_result {ℓ κ} :
    {A : Type ℓ} {B : Type κ} (f : A → Result B) (l : List A) (ys : List B)
    → map_result f l ≡ ok ys
    → length ys ≡ length l
length-map_result f [] ys e = ap length (sym (ok-injective e))
length-map_result f (x ∷ l) ys e = bind_inv (f x) _ e λ y _ e1.
    bind_inv (map_result f l) _ e1
      λ rest er e2. ap length (sym (ok-injective e2)) ∙ ap suc (length-map_result f l rest er)

length-csv_to_intlist :
    (csv : Text) (l : List ℤ) → csv_to_intlist csv ≡ ok l → length l ≡ length (split b',' csv)
unfolding csv_to_intlist
length-csv_to_intlist csv l e = length-map_result (int_of_text 10) (split b',' csv) l e

le_or_lt : (a b : ℕ) → (a ≤ b) ⊎ (b < a)
le_or_lt a b = elim (Bool-cases (leb a b)) [
  | inl e ↦ inl (ground arith)
  | inr e ↦ inr (ground arith)
]

pos_plus : (a b : ℕ) → pos a +ℤ pos b ≡ pos (a + b)
pos_plus a b = omega int_laws

negsuc_plus_large : (a b : ℕ) → suc a ≤ b → negsuc a +ℤ pos b ≡ pos (b - suc a)
negsuc_plus_large a b h = omega int_laws

negsuc_plus_small : (a b : ℕ) → b ≤ a → negsuc a +ℤ pos b ≡ negsuc (a - b)
negsuc_plus_small a b h = omega int_laws

-- `n` periods after a timestamp, in seconds and in microseconds
later_time :
    (s : ℤ) (n : ℕ)
    → (time_from_pb_timestamp (s +ℤ pos (n * bw_period))).micros
      ≡ (time_from_pb_timestamp s).micros +ℤ pos (n * (bw_period * 10 ^ 6))
later_time (pos s) n =
    let same : (s + n * 600) * 1000000 ≡ s * 1000000 + n * 600000000 = omega arith in
    rw (pos_plus s (n * 600), pos_plus (s * 1000000) (n * 600000000), same) refl
later_time (negsuc s) n = elim (le_or_lt (suc s) (n * 600)) [
  | inl h ↦
      let same : (n * 600 - suc s) * 1000000 ≡ n * 600000000 - suc (suc s * 1000000 - 1) =
        omega arith in
      rw (
        negsuc_plus_large s (n * 600) h,
        negsuc_plus_large (suc s * 1000000 - 1) (n * 600000000) (omega arith),
        same,
      )
  | inr h ↦
      let same : suc (s - n * 600) * 1000000 - 1 ≡ suc s * 1000000 - 1 - n * 600000000 =
        omega arith in
      rw (
        negsuc_plus_small s (n * 600) (omega arith),
        negsuc_plus_small (suc s * 1000000 - 1) (n * 600000000) (omega arith),
        same,
      )
]

spans_lem :
    (a b s : ℤ) (profile : List ℤ) (csv : Text)
    → csv_to_intlist csv ≡ ok profile
    → a ≡ (time_from_pb_timestamp s).micros
    → b ≡ (time_from_pb_timestamp (s +ℤ pos (length (split b',' csv) * bw_period))).micros
    → b ≡ a +ℤ pos (length profile * (bw_period * 10 ^ 6))
spans_lem a b s profile csv reads before after =
    after
    ∙ (later_time s (length (split b',' csv))
        ∙ rw (length-csv_to_intlist csv profile reads, before) refl)

module _ (floats : Floats) (crypto : Cryptography) (ipv6 : Ipv6) where
  open floats use {Float}

  template_read :
      ip_port_range_from_str ipv6 (codes "127.0.0.1:50000-55000")
      ≡ ok (v4 127 0 0 1, pos 50000, pos 55000)
  unfolding ip_port_range_from_str ip_and_string_from_str first_match ip_from_str parse_v4 octets
      range_of_parts int_of_text split strip
  template_read = refl

  -- The offer that `create_simplified_offer` builds passes the checks before it is stored, whatever
  -- the time is, if its profile is a list of integers and the row has the times, the profile and the
  -- template of the message and is accepted by the validators of the fields.
  pub pre_save-create_simplified_offer :
      (self : MarketClient crypto) (now : DateTime) (price : Float) (bw_profile : Text)
      (profile : List ℤ) (full_clean : Offer Float → Bool) (o : Offer Float)
      → csv_to_intlist bw_profile ≡ ok profile
      → full_clean o ≡ true
      → o.notbefore
        ≡ time_from_pb_timestamp
            (create_simplified_offer floats crypto self now price bw_profile).fields.notbefore
      → o.notafter
        ≡ time_from_pb_timestamp
            (create_simplified_offer floats crypto self now price bw_profile).fields.notafter
      → o.bw_profile
        ≡ (create_simplified_offer floats crypto self now price bw_profile).fields.bw_profile
      → o.br_address_template
        ≡ (create_simplified_offer floats crypto self now price
            bw_profile).fields.br_address_template
      → pre_save ipv6 full_clean o ≡ ok tt
  unfolding create_simplified_offer
  pre_save-create_simplified_offer self now price bw_profile profile full_clean o reads clean before
        after same template =
      (pre_save_iff ipv6 full_clean o).1 (record {
        clean = clean;
        aware_before = ap (λ (t : DateTime). t.aware) before;
        aware_after = ap (λ (t : DateTime). t.aware) after;
        profile = profile;
        reads = ap csv_to_intlist same ∙ reads;
        spans =
            spans_lem o.notbefore.micros o.notafter.micros (timestamp now) profile bw_profile reads
              (ap (λ (t : DateTime). t.micros) before) (ap (λ (t : DateTime). t.micros) after);
        template = (v4 127 0 0 1, pos 50000, pos 55000);
        reads_template = ap (ip_port_range_from_str ipv6) template ∙ template_read;
      })
