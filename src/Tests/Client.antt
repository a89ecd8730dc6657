-- ===== src/Tests/Client.antt =====
-- The theorems on the requests of clients and on the handler of contracts.
use esdx_scion.Market.Service.{Queries}
use esdx_scion.Market.Service.Authorized.{Authorized}
use esdx_scion.Base.{ℕ, ◌≡◌, refl, some, [], ok}
use esdx_scion.Base.{Bool, true, false, ◌∷◌}
use esdx_scion.Base.Int.{pos, ◌+ℤ◌}
use esdx_scion.Conversion.Csv.{csv_to_intlist}
use esdx_scion.Client.{create_simplified_offer}
use esdx_scion.Client.Simplified.{pre_save-create_simplified_offer}
use esdx_scion.Market.Time.{time_from_pb_timestamp}
use esdx_scion.Market.Offer.{pre_save}
use esdx_scion.Text.{Bytes, codes, int_of_text, text_of_int, split, strip, show_ℕ, encode_ascii}
use esdx_scion.Serialize.{
  OfferSpecification, OfferMessage, offer_text, offer_fields_serialize_to_bytes,
  offer_specification_serialize_to_bytes, offer_serialize_to_bytes,
  purchase_order_fields_serialize_to_bytes, get_contract_request_serialize,
}
use esdx_scion.Messages.{PurchaseRequest, GetContractRequest}
use esdx_scion.Crypto.{signature_create, signature_validate}
use esdx_scion.Market.Offer.{Offer, fields_of, serialize_to_bytes}
use esdx_scion.Market.Order.{
  order_validate_signature, sign_purchase_order, sign_get_contract_request,
  validate_signature_from_seller,
}
use esdx_scion.Client.{MarketClient, sell_offer, buy_offer, get_contract}
use esdx_scion.Client.Accepted.{
  order_validate_signature-buy_offer, validate_signature_from_seller-sell_offer,
}
use esdx_scion.Tests.Data.{loopback_only, digit_floats, three_periods, plain_crypto, buyer, seconds}
use esdx_scion.Tests.Order.{signed, order_signature, stamped, loads}

abbrev message : OfferMessage digit_floats
message = record {
  id = pos 1;
  specs = record { fields = fields_of signed; signature = signed.signature };
}

abbrev client : MarketClient plain_crypto
client = record { ia = codes "1-ff00:0:112"; key = tt; broker_cert = tt }

abbrev request : PurchaseRequest digit_floats
request = record {
  offer = message;
  buyer_iaid = codes "1-ff00:0:112";
  bw_profile = codes "1,2";
  starting_on = pos 1200;
  signature = order_signature;
}

requests :
    buy_offer digit_floats plain_crypto client 0 message (codes "1,2") (seconds 1200) ≡ ok request
unfolding buy_offer offer_serialize_to_bytes offer_specification_serialize_to_bytes
    signature_validate sign_purchase_order purchase_order_fields_serialize_to_bytes signature_create
    serialize_to_bytes offer_fields_serialize_to_bytes offer_text encode_ascii text_of_int show_ℕ
requests = refl

order_validate_signature-buy_offer_example :
    (order_validate_signature digit_floats plain_crypto
        (record {
          offer_id = some 1;
          buyer = buyer;
          signature = request.signature;
          bw_profile = request.bw_profile;
          starting_on = seconds 1200;
        })
        signed
      ≡ ok tt)
    × (unsigned : Bytes) × (serialize_to_bytes digit_floats signed false ≡ ok unsigned)
    × (plain_crypto.verify client.broker_cert signed.signature unsigned ≡ true)
order_validate_signature-buy_offer_example =
    order_validate_signature-buy_offer digit_floats plain_crypto client tt 0 message signed buyer
      (some 1) (codes "1,2") (seconds 1200) (seconds 1200) request tt loads refl (refl, refl) refl
      requests

abbrev contract_request : GetContractRequest
contract_request = record {
  contract_id = pos 7;
  requester_iaid = codes "1-ff00:0:112";
  requester_signature = codes "contract_id:7signature:requester_ia:1-ff00:0:112";
}

asks : get_contract plain_crypto client 0 (pos 7) ≡ ok contract_request
unfolding get_contract get_contract_request_serialize signature_create encode_ascii text_of_int
    show_ℕ
asks = refl

signs_request :
    sign_get_contract_request plain_crypto tt 0 (codes "1-ff00:0:112") (pos 7)
    ≡ ok (codes "contract_id:7signature:requester_ia:1-ff00:0:112")
unfolding sign_get_contract_request get_contract_request_serialize signature_create encode_ascii
    text_of_int show_ℕ
signs_request = refl

abbrev unsigned_specs : OfferSpecification digit_floats
unsigned_specs = record { fields = fields_of three_periods; signature = [] }

sells : sell_offer digit_floats plain_crypto client 0 unsigned_specs ≡ ok message.specs
unfolding sell_offer offer_specification_serialize_to_bytes signature_create serialize_to_bytes
    offer_fields_serialize_to_bytes offer_text encode_ascii text_of_int show_ℕ
sells = refl

validate_signature_from_seller-sell_offer_example :
    validate_signature_from_seller digit_floats plain_crypto buyer signed ≡ ok tt
validate_signature_from_seller-sell_offer_example =
    validate_signature_from_seller-sell_offer digit_floats plain_crypto client tt 0 buyer
      unsigned_specs message.specs signed tt loads sells (refl, refl)

abbrev simplified : OfferSpecification digit_floats
simplified =
    create_simplified_offer digit_floats plain_crypto client (seconds 600) 1 (codes "5,4,2")

abbrev simplified_row : Offer ℕ
simplified_row = record three_periods { br_address_template = codes "127.0.0.1:50000-55000" }

abbrev accepts_all : Offer ℕ → Bool
accepts_all o = true

profile_read : csv_to_intlist (codes "5,4,2") ≡ ok (pos 5 ∷ pos 4 ∷ pos 2 ∷ [])
unfolding csv_to_intlist int_of_text split strip
profile_read = refl

row_times :
    (simplified_row.notbefore ≡ time_from_pb_timestamp simplified.fields.notbefore)
    × (simplified_row.notafter ≡ time_from_pb_timestamp simplified.fields.notafter)
    × (simplified_row.bw_profile ≡ simplified.fields.bw_profile)
    × (simplified_row.br_address_template ≡ simplified.fields.br_address_template)
unfolding create_simplified_offer split ◌+ℤ◌
row_times = (refl, refl, refl, refl)

pre_save-create_simplified_offer_example : pre_save loopback_only accepts_all simplified_row ≡ ok tt
pre_save-create_simplified_offer_example =
    pre_save-create_simplified_offer digit_floats plain_crypto loopback_only client (seconds 600) 1
      (codes "5,4,2") (pos 5 ∷ pos 4 ∷ pos 2 ∷ []) accepts_all simplified_row profile_read refl
      row_times.0 row_times.1 row_times.2 row_times.3

-- the buyer is known, and the stamped contract is there
abbrev one_contract : Queries digit_floats
one_contract = record { get_as = λ ia. ok buyer; contract_by_id = λ id. ok (stamped, signed) }
