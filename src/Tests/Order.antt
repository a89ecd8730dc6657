-- ===== src/Tests/Order.antt =====
-- The theorems on orders, contracts and the requests of clients.
use esdx_scion.Base.{ℕ, ◌≡◌, refl, false, some, [], Result, ok, err}
use esdx_scion.Base.Int.{pos}
use esdx_scion.Text.{Bytes, codes, int_of_text, text_of_int, split, strip, show_ℕ, encode_ascii}
use esdx_scion.Conversion.Ip.{v4, parse_v4, octets}
use esdx_scion.Conversion.Address.{
  ip_port_range_from_str, ip_and_string_from_str, first_match, ip_from_str, range_of_parts,
}
use esdx_scion.Serialize.{
  offer_text, offer_fields_serialize_to_bytes, purchase_order_fields_serialize_to_bytes,
  contract_fields_serialize_to_bytes,
}
use esdx_scion.Crypto.{load_certificate, load_certificate_bytes, signature_create}
use esdx_scion.Market.Offer.{Offer, serialize_to_bytes}
use esdx_scion.Market.Order.{
  PurchaseOrder, Contract, sign_with_broker, stamp_signature, contract_serialize_to_bytes,
  order_serialize_to_bytes, sign_purchase_order,
}
use esdx_scion.Tests.Data.{loopback_only, digit_floats, three_periods, plain_crypto, buyer, seconds}

abbrev pub value : Result Bytes → Bytes
value (ok b) = b
value (err e) = []

abbrev pub signed : Offer ℕ
signed = record three_periods {
  signature = value (serialize_to_bytes digit_floats three_periods false);
}

signs : sign_with_broker digit_floats plain_crypto tt 0 three_periods ≡ ok signed
unfolding sign_with_broker signature_create serialize_to_bytes offer_fields_serialize_to_bytes
    offer_text encode_ascii text_of_int show_ℕ
signs = refl

abbrev pub order : PurchaseOrder
order = record {
  offer_id = some 1;
  buyer = buyer;
  signature = [];
  bw_profile = codes "1,2";
  starting_on = seconds 1200;
}

abbrev pub order_signature : Bytes
order_signature = value (
    sign_purchase_order digit_floats plain_crypto (codes "1-ff00:0:112") tt 0 signed (seconds 1200)
      (codes "1,2"))

orders :
    sign_purchase_order digit_floats plain_crypto
      (codes "1-ff00:0:112")
      tt
      0
      signed
      (seconds 1200)
      (codes "1,2")
    ≡ ok order_signature
unfolding sign_purchase_order purchase_order_fields_serialize_to_bytes signature_create
    serialize_to_bytes offer_fields_serialize_to_bytes offer_text encode_ascii text_of_int show_ℕ
orders = refl

pub loads : load_certificate plain_crypto (codes "pem") ≡ ok tt
unfolding load_certificate load_certificate_bytes encode_ascii
loads = refl

abbrev pub unstamped : Contract
unstamped = record {
  purchase_order = record order { signature = order_signature };
  timestamp = seconds 0;
  br_address = codes "10.1.1.1:50000";
  signature_broker = [];
}

abbrev pub stamped : Contract
stamped = record unstamped {
  timestamp = seconds 700;
  signature_broker = value (
      contract_serialize_to_bytes digit_floats plain_crypto
        (record unstamped { timestamp = seconds 700 }) signed);
}

stamps : stamp_signature digit_floats plain_crypto (seconds 700) tt 0 unstamped signed ≡ ok stamped
unfolding stamp_signature contract_serialize_to_bytes order_serialize_to_bytes
    contract_fields_serialize_to_bytes sign_purchase_order purchase_order_fields_serialize_to_bytes
    signature_create serialize_to_bytes offer_fields_serialize_to_bytes offer_text encode_ascii
    text_of_int show_ℕ
stamps = refl

pub template_read :
    ip_port_range_from_str loopback_only three_periods.br_address_template
    ≡ ok (v4 10 1 1 1, pos 50000, pos 50010)
unfolding ip_port_range_from_str ip_and_string_from_str first_match ip_from_str parse_v4 octets
    range_of_parts int_of_text split strip
template_read = refl
