-- ===== src/Tests/Ports.antt =====
-- A second sale, of the rest of the first one, and the ports of the two contracts.
use esdx_scion.Base.{ℕ, ◌≡◌, refl, true, false, some, Result, ok}
use esdx_scion.Base.Int.{pos, ◌-ℤ◌, ◌+ℤ◌}
use esdx_scion.Text.{join, codes, int_of_text, text_of_int, split, strip, show_ℕ, encode_ascii}
use esdx_scion.Serialize.{
  offer_text, offer_fields_serialize_to_bytes, purchase_order_fields_serialize_to_bytes,
  contract_fields_serialize_to_bytes,
}
use esdx_scion.Messages.{PurchaseRequest, ContractMessage}
use esdx_scion.Crypto.{load_certificate, load_certificate_bytes, signature_create}
use esdx_scion.Market.Offer.{Offer, serialize_to_bytes}
use esdx_scion.Market.Order.{sign_purchase_order}
use esdx_scion.Market.Storage.Memory.{Tables, memory}
use esdx_scion.Market.Trade.{handle_purchase}
use esdx_scion.Market.Trade.{pb_compare_messages, purchase_requested, purchase_with}
use esdx_scion.Market.Purchase.{
  save_offer, used_address, make_contract, purchase_body, purchase_offer,
}
use esdx_scion.Market.Manager.{available_with, purchase_getter}
use esdx_scion.Market.Derived.{get_available}
use esdx_scion.Market.Order.{
  sign_with_broker, order_serialize_to_bytes, order_validate_signature, contract_serialize_to_bytes,
  stamp_signature, contract_validate_signature,
}
use esdx_scion.Market.Offer.{purchase_from, purchase, pre_save}
use esdx_scion.Market.BrAddress.{next_port, find_available_br_address}
use esdx_scion.Market.Time.{elapsed, before}
use esdx_scion.Market.Profile.{buy_loop, buy}
use esdx_scion.Market.Service.{contract_message}
use esdx_scion.Crypto.{signature_validate}
use esdx_scion.Transaction.{atomic, except}
use esdx_scion.Conversion.Csv.{csv_to_intlist, intlist_to_csv}
use esdx_scion.Conversion.Address.{
  first_match, is_bracket, ip_from_str, ip_and_string_from_str, ip_port_from_str, range_of_parts,
  ip_port_range_from_str, print_ip, ip_port_to_str,
}
use esdx_scion.Conversion.Ip.{parse_octet, octets, parse_v4, print_v4}
use esdx_scion.Tests.Data.{loopback_only, digit_floats, plain_crypto, seconds}
use esdx_scion.Tests.Order.{value}
use esdx_scion.Conversion.Ip.{v4}
use esdx_scion.Base.{◌+◌, ◌≤◌, arith}
use esdx_scion.Conversion.Address.{ip_port_to_str}
use esdx_scion.Market.Purchase.{remaining}
use esdx_scion.Market.Storage.Memory.{memory-IsLawful}
use esdx_scion.Market.Trade.Serve.{start}
use esdx_scion.Market.Trade.Ports.{consecutive_ports}
use esdx_scion.Tests.Order.{template_read}
use esdx_scion.Tests.Sale.{
  printed, plain_wire, one_offer, around, stored, request, any_clean, outcome, is_ok, value_or,
  ok-value_or, reply, ran, linked,
}

-- the offer that the first sale has left
abbrev left : Offer ℕ
left = record (remaining stored (codes "5,3,0")) {
  id = some 1;
  signature = value (serialize_to_bytes digit_floats (remaining stored (codes "5,3,0")) false);
}

abbrev next_request : PurchaseRequest digit_floats
next_request = record {
  offer = printed left;
  buyer_iaid = codes "1-ff00:0:112";
  bw_profile = codes "2";
  starting_on = pos 1200;
  signature = value (
      sign_purchase_order digit_floats plain_crypto (codes "1-ff00:0:112") tt 0 left (seconds 1200)
        (codes "2"));
}

abbrev next_outcome : Result (ContractMessage digit_floats) × Tables ℕ
next_outcome =
    handle_purchase digit_floats plain_crypto loopback_only (memory ℕ) plain_wire any_clean around
      next_request outcome.1

next_sale : is_ok next_outcome.0 ≡ true
unfolding pb_compare_messages purchase_requested purchase_with handle_purchase save_offer
    used_address make_contract purchase_body purchase_offer available_with purchase_getter
    get_available sign_with_broker order_serialize_to_bytes order_validate_signature
    contract_serialize_to_bytes stamp_signature contract_validate_signature sign_purchase_order
    serialize_to_bytes purchase_from purchase pre_save next_port find_available_br_address elapsed
    before buy_loop buy contract_message offer_text offer_fields_serialize_to_bytes
    purchase_order_fields_serialize_to_bytes contract_fields_serialize_to_bytes
    load_certificate_bytes load_certificate signature_create signature_validate atomic except
    csv_to_intlist intlist_to_csv first_match is_bracket ip_from_str ip_and_string_from_str
    ip_port_from_str range_of_parts ip_port_range_from_str print_ip ip_port_to_str parse_octet
    octets parse_v4 print_v4 int_of_text text_of_int split strip show_ℕ encode_ascii ◌-ℤ◌ ◌+ℤ◌ join
next_sale = refl

abbrev next_reply : ContractMessage digit_floats
next_reply = value_or reply next_outcome.0

next_ran :
    handle_purchase digit_floats plain_crypto loopback_only
      (memory ℕ)
      plain_wire
      any_clean
      around
      next_request
      outcome.1
    ≡ (ok next_reply, next_outcome.1)
next_ran = ok-value_or reply next_outcome next_sale

consecutive_ports_example :
    (port : ℕ) × (reply.br_address ≡ ip_port_to_str loopback_only (v4 10 1 1 1) (pos port))
    × (next_reply.br_address ≡ ip_port_to_str loopback_only (v4 10 1 1 1) (pos (port + 1)))
    × (port + 1 ≤ 50010)
consecutive_ports_example =
    consecutive_ports digit_floats plain_crypto (memory ℕ) loopback_only plain_wire any_clean
      memory-IsLawful around around request next_request one_offer outcome.1 outcome.1
      next_outcome.1 reply next_reply 0 1 stored (v4 10 1 1 1) 50000 50010 ran start next_ran refl
      linked refl refl template_read (omega arith, (omega arith, (omega arith, (omega arith, tt))))
      (omega arith)
