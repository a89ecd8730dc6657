-- ===== src/Market/Order.antt =====
-- models/purchase_order.py, models/contract.py, models/ases.py, and the signing functions of
-- purchases.py and of models/offer.py. The certificates and keys of the broker, which the code caches,
-- are arguments, as are the salt of a signature and the time of a contract.
pub mod Signed
use esdx_scion.Base.{
  ℕ, Bool, true, false, Option, none, some, List, [], ◌∷◌, Result, ok, err, service_error, raise_if,
  not, ◌&&◌, ◌>>=◌, ◌>>◌,
}
use esdx_scion.Base.Int.{ℤ}
use esdx_scion.Text.{Text, Bytes, text_eq}
use esdx_scion.Serialize.{
  Floats, purchase_order_fields_serialize_to_bytes, contract_fields_serialize_to_bytes,
  get_contract_request_serialize,
}
use esdx_scion.Messages.{GetContractRequest}
use esdx_scion.Crypto.{
  Cryptography, load_certificate, get_common_name, signature_create, signature_validate,
}
use esdx_scion.Market.Time.{DateTime, timestamp}
use esdx_scion.Market.Offer.{Offer, serialize_to_bytes}

-- `AS`
pub record As : Type 0 where
  pub iaid : Text
  pub certificate_pem : Text
  pub name : Text

-- `PurchaseOrder`, with the primary key of its offer
pub record PurchaseOrder : Type 0 where
  pub offer_id : Option ℕ
  pub buyer : As
  pub signature : Bytes
  pub bw_profile : Text
  pub starting_on : DateTime

-- `Contract`
pub record Contract : Type 0 where
  pub purchase_order : PurchaseOrder
  pub timestamp : DateTime
  pub br_address : Text
  pub signature_broker : Bytes

module _ (floats : Floats) (crypto : Cryptography) where
  open floats use {Float}
  open crypto use {Key, Certificate}

  -- `Offer.sign_with_broker`
  unfoldable pub sign_with_broker : Key → ℕ → Offer Float → Result (Offer Float)
  sign_with_broker broker_key salt o = do
    content ← serialize_to_bytes floats o false
    ok (record o { signature = signature_create crypto broker_key salt content })

  -- `Offer.validate_signature` with the certificate of the broker
  unfoldable pub validate_signature : Certificate → Offer Float → Result (Unit {0})
  validate_signature cert o = do
    content ← serialize_to_bytes floats o false
    signature_validate crypto cert o.signature content

  -- `Offer.validate_signature_from_seller` with the seller's row
  unfoldable pub validate_signature_from_seller : As → Offer Float → Result (Unit {0})
  validate_signature_from_seller seller o = do
    content ← serialize_to_bytes floats o false
    cert ← load_certificate crypto seller.certificate_pem
    signature_validate crypto cert o.signature content

  -- `PurchaseOrder.serialize_to_bytes`
  unfoldable pub order_serialize_to_bytes : PurchaseOrder → Offer Float → Result Bytes
  order_serialize_to_bytes po requested_offer = do
    offerbytes ← serialize_to_bytes floats requested_offer true
    purchase_order_fields_serialize_to_bytes offerbytes po.buyer.iaid po.bw_profile
        (timestamp po.starting_on)

  -- `PurchaseOrder.validate_signature`
  unfoldable pub order_validate_signature : PurchaseOrder → Offer Float → Result (Unit {0})
  order_validate_signature po requested_offer = do
    cert ← load_certificate crypto po.buyer.certificate_pem
    content ← order_serialize_to_bytes po requested_offer
    signature_validate crypto cert po.signature content

  -- `Contract.serialize_to_bytes`
  unfoldable pub contract_serialize_to_bytes : Contract → Offer Float → Result Bytes
  contract_serialize_to_bytes c requested_offer = do
    order ← order_serialize_to_bytes c.purchase_order requested_offer
    contract_fields_serialize_to_bytes order c.purchase_order.signature (timestamp c.timestamp)
        c.br_address

  -- `Contract.stamp_signature`
  unfoldable pub stamp_signature : DateTime → Key → ℕ → Contract → Offer Float → Result Contract
  stamp_signature now broker_key salt c requested_offer = do
    let stamped = record c { timestamp = now }
    content ← contract_serialize_to_bytes stamped requested_offer
    ok (record stamped { signature_broker = signature_create crypto broker_key salt content })

  -- `Contract.validate_signature`
  unfoldable pub contract_validate_signature :
      Certificate → Contract → Offer Float → Result (Unit {0})
  contract_validate_signature broker_cert c requested_offer = do
    content ← contract_serialize_to_bytes c requested_offer
    signature_validate crypto broker_cert c.signature_broker content

  unfoldable pub sign_purchase_order : Text → Key → ℕ → Offer Float → DateTime → Text → Result Bytes
  sign_purchase_order buyer_ia buyer_key salt o starting_on bw_profile = do
    offer_bytes ← serialize_to_bytes floats o true
    content ←
        purchase_order_fields_serialize_to_bytes offer_bytes buyer_ia bw_profile
          (timestamp starting_on)
    ok (signature_create crypto buyer_key salt content)

module _ (crypto : Cryptography) where
  open crypto use {Key, Certificate}

  unfoldable pub sign_get_contract_request : Key → ℕ → Text → ℤ → Result Bytes
  sign_get_contract_request requester_key salt requester_iaid contract_id = do
    content ← get_contract_request_serialize contract_id requester_iaid (some [])
    ok (signature_create crypto requester_key salt content)

  -- the check of the requester's signature in `MarketService.GetContract`, with the requester's row
  unfoldable pub check_requester : As → GetContractRequest → Result (Unit {0})
  check_requester requester request = do
    cert ← load_certificate crypto requester.certificate_pem
    content ← get_contract_request_serialize request.contract_id request.requester_iaid none
    signature_validate crypto cert request.requester_signature content

-- the parties of a contract, as `GetContract` tests them: the buyer and the seller of the offer
unfoldable pub check_party : Text → Text → Text → Result (Unit {0})
check_party requester_iaid buyer_iaid seller_iaid =
    raise_if (not (text_eq buyer_iaid requester_iaid) && not (text_eq seller_iaid requester_iaid))
      service_error
