-- ===== src/Market/Trade.antt =====
-- `ListOffers`, `AddOffer`, `Purchase` and `PurchaseEquivalent` of services.py, over the storage. The
-- part of the serializers that is in the libraries is an argument. A call runs on its own: purchases
-- hold a mutex, and the transactions of the database are isolated.
pub mod Invariant
pub mod Kept
pub mod Growth
pub mod Sale
pub mod Calls
pub mod Deal
pub mod Serve
pub mod Sales
pub mod Safety
pub mod Ports
pub mod Listing
pub mod Offered
pub mod Succeeds
use esdx_scion.Base.{
  ℕ, zero, suc, ◌≡◌, Bool, true, false, not, Option, none, some, List, [], ◌∷◌, ◌++◌, Result, ok,
  err, Exn, service_error, does_not_exist, or_raise, raise_if, map_result,
}
use esdx_scion.Base.Int.{ℤ, pos, negsuc}
use esdx_scion.Text.{Bytes, text_eq}
use esdx_scion.Conversion.Ip.{Ipv6}
use esdx_scion.Serialize.{Floats, OfferSpecification, OfferMessage}
use esdx_scion.Messages.{PurchaseRequest, ContractMessage}
use esdx_scion.Crypto.{Cryptography}
use esdx_scion.Transaction.{Tx, ◌>>=◌, ◌>>◌, pure, lift, query, write, atomic, except}
use esdx_scion.Market.Time.{time_from_pb_timestamp}
use esdx_scion.Market.Offer.{Offer}
use esdx_scion.Market.Order.{Contract, sign_with_broker, validate_signature_from_seller}
use esdx_scion.Market.Derived.{Rows, get_available, get_derived}
use esdx_scion.Market.Service.{contract_message}
use esdx_scion.Market.Storage.{Storage}
use esdx_scion.Market.Manager.{available_below, purchase_getter, equivalent_getter}
use esdx_scion.Market.Purchase.{Around, Purchase, Clean, save_offer, purchase_offer}

-- `OfferProtoSerializer` and protobuf
pub record Wire (floats : Floats) : Type 0 where
  -- the validated values of a message; they have no `deprecates`, and that of the record is not used
  pub validated : OfferSpecification floats → Result (Offer floats.Float)
  -- `OfferProtoSerializer(offer).message`
  pub offer_message : Offer floats.Float → Result (OfferMessage floats)
  -- `SerializeToString`
  pub serialize_to_string : OfferMessage floats → Bytes

module _ (floats : Floats) where
  open floats use {Float}

  -- `OfferProtoSerializer.create`: `Offer(**values)`
  abbrev pub create : Offer Float → Offer Float
  create values = record values { deprecates = none }

  unfoldable pub pb_compare_messages :
      Wire floats → OfferMessage floats → OfferMessage floats → Bool
  pb_compare_messages wire msg1 msg2 =
      text_eq (wire.serialize_to_string msg1) (wire.serialize_to_string msg2)

-- every exception of a handler becomes a `MarketServiceError`
abbrev pub to_service_error : Exn → Exn
to_service_error e = service_error

module _ (floats : Floats) (crypto : Cryptography) (ipv6 : Ipv6) (S : Storage floats.Float)
    (wire : Wire floats) where
  open floats use {Float}

  unfoldable pub list_offers : Tx S.Db (List (OfferMessage floats))
  list_offers =
      except to_service_error
        (query λ db. map_result wire.offer_message (available_below S db (S.size db)))

  -- the transaction of `AddOffer`
  unfoldable pub store_offer :
      Clean floats crypto ipv6 S → Around crypto → Offer Float → Tx S.Db (OfferMessage floats)
  store_offer full_clean around offer = do
    seller ← query (λ db. S.get_as db offer.iaid)
    lift (validate_signature_from_seller floats crypto seller offer)
    id ← save_offer floats crypto ipv6 S full_clean offer
    key ← lift around.broker_key
    new_offer ← lift (
        sign_with_broker floats crypto key around.offer_salt
          (record offer { deprecates = some id }))
    new_id ← save_offer floats crypto ipv6 S full_clean new_offer
    lift (wire.offer_message (record new_offer { id = some new_id }))

  unfoldable pub add_offer :
      Clean floats crypto ipv6 S
      → Around crypto
      → OfferSpecification floats
      → Tx S.Db (OfferMessage floats)
  add_offer full_clean around request = except to_service_error (
      lift (wire.validated request) >>= λ values.
      atomic (store_offer full_clean around (record (create floats values) { id = none })))

  -- the arguments of `purchase_offer` in a request
  abbrev pub purchase_in : PurchaseRequest floats → Purchase
  purchase_in request = record {
    buyer_iaid = request.buyer_iaid;
    buyer_starting_on = time_from_pb_timestamp request.starting_on;
    buyer_bw_profile = request.bw_profile;
    buyer_signature = request.signature;
  }

  -- the transaction of `_purchase`
  unfoldable pub purchase_requested :
      Clean floats crypto ipv6 S
      → Around crypto
      → (S.Db → Result (Offer Float × Offer Float))
      → PurchaseRequest floats
      → Tx S.Db ((ℕ × Contract) × Offer Float)
  purchase_requested full_clean around getter request = do
    (requested_offer, available_offer) ← query getter
    message ← lift (wire.offer_message requested_offer)
    lift (raise_if (not (pb_compare_messages floats wire request.offer message)) service_error)
    (contract, _) ←
        purchase_offer floats crypto ipv6 S full_clean around requested_offer available_offer
          (purchase_in request)
    pure (contract, available_offer)

  -- `_purchase`: the reply is made after the transaction, where nothing is rolled back any more
  unfoldable pub purchase_with :
      Clean floats crypto ipv6 S
      → Around crypto
      → (S.Db → Result (Offer Float × Offer Float))
      → PurchaseRequest floats
      → Tx S.Db (ContractMessage floats)
  purchase_with full_clean around getter request = except to_service_error (do
    ((id, contract), available_offer) ← atomic (purchase_requested full_clean around getter request)
    lift around.rendering
    pure (contract_message floats (pos id) contract available_offer))

  -- `Purchase`
  unfoldable pub handle_purchase :
      Clean floats crypto ipv6 S
      → Around crypto
      → PurchaseRequest floats
      → Tx S.Db (ContractMessage floats)
  handle_purchase full_clean around request =
      purchase_with full_clean around (purchase_getter S request.offer.id) request

  -- `PurchaseEquivalent`
  unfoldable pub handle_purchase_equivalent :
      Clean floats crypto ipv6 S
      → Around crypto
      → PurchaseRequest floats
      → Tx S.Db (ContractMessage floats)
  handle_purchase_equivalent full_clean around request =
      purchase_with full_clean around (equivalent_getter S request.offer.id) request
