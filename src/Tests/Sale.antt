-- ===== src/Tests/Sale.antt =====
-- A sale from tables in memory.
use esdx_scion.Base.{
  sym, subst, ℕ, ◌≡◌, refl, Bool, true, false, Option, none, some, [], ◌∷◌, ◌*◌, Result, ok, err,
}
use esdx_scion.Base.Int.{ℤ, pos, ◌-ℤ◌, ◌+ℤ◌}
use esdx_scion.Text.{join, codes, int_of_text, text_of_int, split, strip, show_ℕ, encode_ascii}
use esdx_scion.Serialize.{
  OfferMessage, offer_text, offer_fields_serialize_to_bytes,
  purchase_order_fields_serialize_to_bytes, contract_fields_serialize_to_bytes,
}
use esdx_scion.Messages.{GetContractRequest, PurchaseRequest, ContractMessage}
use esdx_scion.Crypto.{load_certificate, load_certificate_bytes, signature_create}
use esdx_scion.Market.Offer.{Offer, fields_of, serialize_to_bytes}
use esdx_scion.Market.Order.{sign_purchase_order}
use esdx_scion.Market.Storage.Memory.{Tables, memory}
use esdx_scion.Market.Purchase.{Around, ordered}
use esdx_scion.Market.Trade.{Wire, purchase_in, handle_purchase}
use esdx_scion.Market.Trade.Invariant.{accept}
use esdx_scion.Client.{MarketClient, get_contract}
use esdx_scion.Market.Trade.{pb_compare_messages, purchase_requested, purchase_with}
use esdx_scion.Market.Purchase.{
  save_offer, used_address, make_contract, purchase_body, purchase_offer,
}
use esdx_scion.Market.Manager.{available_with, purchase_getter}
use esdx_scion.Market.Derived.{get_available}
use esdx_scion.Market.Order.{
  sign_with_broker, order_serialize_to_bytes, order_validate_signature, contract_serialize_to_bytes,
  stamp_signature, contract_validate_signature,
}
use esdx_scion.Market.Offer.{purchase_from, purchase, pre_save}
use esdx_scion.Market.BrAddress.{next_port, find_available_br_address}
use esdx_scion.Market.Time.{period_micros, elapsed, before}
use esdx_scion.Market.Profile.{buy_loop, buy}
use esdx_scion.Market.Service.{contract_message}
use esdx_scion.Serialize.{get_contract_request_serialize}
use esdx_scion.Crypto.{signature_validate}
use esdx_scion.Transaction.{atomic, except}
use esdx_scion.Conversion.Csv.{csv_to_intlist, intlist_to_csv}
use esdx_scion.Conversion.Address.{
  first_match, is_bracket, ip_from_str, ip_and_string_from_str, ip_port_from_str, range_of_parts,
  ip_port_range_from_str, print_ip, ip_port_to_str,
}
use esdx_scion.Conversion.Ip.{parse_octet, octets, parse_v4, print_v4}
use esdx_scion.Tests.Data.{loopback_only, digit_floats, three_periods, plain_crypto, buyer, seconds}
use esdx_scion.Tests.Order.{value}

abbrev key_of : Option ℕ → ℤ
key_of none = pos 0
key_of (some i) = pos i

abbrev pub printed : Offer ℕ → OfferMessage digit_floats
printed o = record {
  id = key_of o.id;
  specs = record { fields = fields_of o; signature = o.signature };
}

abbrev pub plain_wire : Wire digit_floats
plain_wire = record {
  validated = λ specs.
      ok (record three_periods {
        bw_profile = specs.fields.bw_profile;
        signature = specs.signature;
      });
  offer_message = λ o. ok (printed o);
  serialize_to_string = λ m. m.specs.fields.bw_profile;
}

abbrev pub one_offer : Tables ℕ
one_offer = record {
  ases = (codes "1-ff00:0:112", buyer) ∷ (codes "1-ff00:0:111", buyer) ∷ [];
  offers = λ j. three_periods;
  next_offer = 1;
  links = λ j. none;
  orders = λ j. none;
  contracts = λ j. none;
  contract_ids = λ j. none;
  next_contract = 0;
}

abbrev pub around : Around plain_crypto
around = record {
  now = seconds 700;
  contract_salt = 0;
  offer_salt = 0;
  broker_key = ok tt;
  broker_cert = ok tt;
  rendering = ok tt;
}

abbrev pub stored : Offer ℕ
stored = record three_periods { id = some 0 }

abbrev pub request : PurchaseRequest digit_floats
request = record {
  offer = printed stored;
  buyer_iaid = codes "1-ff00:0:112";
  bw_profile = codes "1,2";
  starting_on = pos 1200;
  signature = value (
      sign_purchase_order digit_floats plain_crypto (codes "1-ff00:0:112") tt 0 stored
        (seconds 1200) (codes "1,2"));
}

abbrev pub any_clean : Tables ℕ → Offer ℕ → Bool
any_clean db o = true

abbrev pub outcome : Result (ContractMessage digit_floats) × Tables ℕ
outcome =
    handle_purchase digit_floats plain_crypto loopback_only (memory ℕ) plain_wire any_clean around
      request one_offer

abbrev pub is_ok : {A : Type 0} → Result A → Bool
is_ok (ok a) = true
is_ok (err e) = false

abbrev no_message : ContractMessage digit_floats
no_message = record {
  contract_id = pos 0;
  contract_timestamp = pos 0;
  contract_signature = [];
  offer = record { fields = fields_of three_periods; signature = [] };
  br_address = [];
  buyer_iaid = [];
  buyer_starting_on = pos 0;
  buyer_bw_profile = [];
  buyer_signature = [];
}

abbrev pub value_or : {A : Type 0} → A → Result A → A
value_or a (ok b) = b
value_or a (err e) = a

pub ok-value_or :
    {A Db : Type 0} (a : A) (r : Result A × Db) → is_ok r.0 ≡ true → r ≡ (ok (value_or a r.0), r.1)
ok-value_or a (ok b, db) h = refl
ok-value_or a (err e, db) h = absurd (cc)

-- the sale, computed: it succeeds, the offer is deprecated and has the order, and the contract has a key
sale :
    (is_ok outcome.0 ≡ true)
    × ((memory ℕ).deprecated_by outcome.1 0 ≡ some 1)
    × ((memory ℕ).order_of outcome.1 0
        ≡ some (
            ordered stored
              (purchase_in digit_floats plain_crypto loopback_only (memory ℕ) plain_wire request)
              buyer))
    × ((value_or no_message outcome.0).contract_id ≡ pos 0)
unfolding pb_compare_messages purchase_requested purchase_with handle_purchase save_offer
    used_address make_contract purchase_body purchase_offer available_with purchase_getter
    get_available sign_with_broker order_serialize_to_bytes order_validate_signature
    contract_serialize_to_bytes stamp_signature contract_validate_signature sign_purchase_order
    serialize_to_bytes purchase_from purchase pre_save next_port find_available_br_address elapsed
    before buy_loop buy contract_message offer_text offer_fields_serialize_to_bytes
    purchase_order_fields_serialize_to_bytes contract_fields_serialize_to_bytes
    load_certificate_bytes load_certificate signature_create signature_validate atomic except
    csv_to_intlist intlist_to_csv first_match is_bracket ip_from_str ip_and_string_from_str
    ip_port_from_str range_of_parts ip_port_range_from_str print_ip ip_port_to_str parse_octet
    octets parse_v4 print_v4 int_of_text text_of_int split strip show_ℕ encode_ascii ◌-ℤ◌ ◌+ℤ◌ join
sale = (refl, refl, refl, refl)

abbrev pub reply : ContractMessage digit_floats
reply = value_or no_message outcome.0

pub ran :
    handle_purchase digit_floats plain_crypto loopback_only
      (memory ℕ)
      plain_wire
      any_clean
      around
      request
      one_offer
    ≡ (ok reply, outcome.1)
ran = ok-value_or no_message outcome sale.0

pub linked : (memory ℕ).deprecated_by outcome.1 0 ≡ some 1
linked = let (_, link, _, _) = sale in link

pub bought :
    (memory ℕ).order_of outcome.1 0
    ≡ some (
        ordered stored
          (purchase_in digit_floats plain_crypto loopback_only (memory ℕ) plain_wire request)
          buyer)
bought = let (_, _, order, _) = sale in order

pub profile_read : csv_to_intlist three_periods.bw_profile ≡ ok (pos 5 ∷ pos 4 ∷ pos 2 ∷ [])
unfolding csv_to_intlist int_of_text split strip
profile_read = refl

pub amount_read : csv_to_intlist request.bw_profile ≡ ok (pos 1 ∷ pos 2 ∷ [])
unfolding csv_to_intlist int_of_text split strip
amount_read = refl

pub starts : elapsed (seconds 1200) three_periods.notbefore ≡ ok (pos (1 * period_micros))
unfolding elapsed ◌-ℤ◌ ◌+ℤ◌
starts = refl

pub valid : pre_save loopback_only accept three_periods ≡ ok tt
unfolding pre_save elapsed before csv_to_intlist first_match is_bracket ip_from_str
    ip_and_string_from_str range_of_parts ip_port_range_from_str parse_octet octets parse_v4
    int_of_text split strip ◌-ℤ◌ ◌+ℤ◌
valid = refl

abbrev pub client : MarketClient plain_crypto
client = record { ia = codes "1-ff00:0:112"; key = tt; broker_cert = tt }

abbrev empty_request : GetContractRequest
empty_request = record { contract_id = pos 0; requester_iaid = []; requester_signature = [] }

abbrev pub fetching : GetContractRequest
fetching = value_or empty_request (get_contract plain_crypto client 0 (pos 0))

fetches : get_contract plain_crypto client 0 (pos 0) ≡ ok fetching
unfolding get_contract get_contract_request_serialize signature_create encode_ascii text_of_int
    show_ℕ
fetches = refl

pub asks : get_contract plain_crypto client 0 reply.contract_id ≡ ok fetching
asks =
    let (_, _, _, key) = sale in
    subst (λ (id : ℤ). get_contract plain_crypto client 0 id ≡ ok fetching) (sym key) fetches

pub known : (memory ℕ).get_as one_offer client.ia ≡ ok buyer
known = refl
