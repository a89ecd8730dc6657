-- ===== src/Tests/Offering.antt =====
-- A listing and a new offer, in tables in memory.
use esdx_scion.Base.{ℕ, ◌≡◌, refl, true, false, [], ◌∷◌, Result, ok}
use esdx_scion.Base.Int.{◌-ℤ◌, ◌+ℤ◌}
use esdx_scion.Text.{int_of_text, text_of_int, split, strip, show_ℕ, encode_ascii}
use esdx_scion.Serialize.{
  OfferMessage, OfferSpecification, offer_text, offer_fields_serialize_to_bytes,
}
use esdx_scion.Crypto.{load_certificate, load_certificate_bytes, signature_create}
use esdx_scion.Market.Offer.{fields_of, serialize_to_bytes}
use esdx_scion.Market.Storage.Memory.{Tables, memory}
use esdx_scion.Market.Trade.{list_offers, add_offer, store_offer}
use esdx_scion.Market.Purchase.{save_offer}
use esdx_scion.Market.Manager.{available_below, available_with}
use esdx_scion.Market.Order.{validate_signature_from_seller, sign_with_broker}
use esdx_scion.Market.Offer.{pre_save}
use esdx_scion.Market.Time.{elapsed, before}
use esdx_scion.Crypto.{signature_validate}
use esdx_scion.Transaction.{atomic, except}
use esdx_scion.Conversion.Csv.{csv_to_intlist}
use esdx_scion.Conversion.Address.{
  first_match, is_bracket, ip_from_str, ip_and_string_from_str, range_of_parts,
  ip_port_range_from_str,
}
use esdx_scion.Conversion.Ip.{parse_octet, octets, parse_v4}
use esdx_scion.Tests.Data.{loopback_only, digit_floats, three_periods, plain_crypto}
use esdx_scion.Tests.Order.{value}
use esdx_scion.Tests.Sale.{
  printed, plain_wire, one_offer, around, stored, any_clean, is_ok, value_or, ok-value_or,
}

pub lists :
    list_offers digit_floats plain_crypto loopback_only (memory ℕ) plain_wire one_offer
    ≡ (ok (printed stored ∷ []), one_offer)
unfolding list_offers available_below available_with except
lists = refl

abbrev pub specs : OfferSpecification digit_floats
specs = record {
  fields = fields_of three_periods;
  signature = value (serialize_to_bytes digit_floats three_periods false);
}

abbrev pub offering : Result (OfferMessage digit_floats) × Tables ℕ
offering =
    add_offer digit_floats plain_crypto loopback_only (memory ℕ) plain_wire any_clean around specs
      one_offer

abbrev pub offered : OfferMessage digit_floats
offered = value_or (printed stored) offering.0

accepted : is_ok offering.0 ≡ true
unfolding add_offer store_offer validate_signature_from_seller save_offer pre_save elapsed before
    sign_with_broker serialize_to_bytes offer_text offer_fields_serialize_to_bytes
    load_certificate_bytes load_certificate signature_create signature_validate atomic except
    csv_to_intlist first_match is_bracket ip_from_str ip_and_string_from_str range_of_parts
    ip_port_range_from_str parse_octet octets parse_v4 int_of_text text_of_int split strip show_ℕ
    encode_ascii ◌-ℤ◌ ◌+ℤ◌
accepted = refl

pub adds :
    add_offer digit_floats plain_crypto loopback_only
      (memory ℕ)
      plain_wire
      any_clean
      around
      specs
      one_offer
    ≡ (ok offered, offering.1)
adds = ok-value_or (printed stored) offering accepted
