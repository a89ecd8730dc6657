-- ===== src/Market/Order/Signed.antt =====
-- Signatures that the code makes are accepted where the code checks them.
use esdx_scion.Base.{ℕ, ◌≡◌, refl, true, false, some, [], ok, ok-injective, bind_inv}
use esdx_scion.Base.Int.{ℤ}
use esdx_scion.Text.{Bytes}
use esdx_scion.Serialize.{
  Floats, purchase_order_fields_serialize_to_bytes, get_contract_request_serialize,
}
use esdx_scion.Crypto.{Cryptography, load_certificate, signature_validate-signature_create}
use esdx_scion.Market.Time.{DateTime, timestamp}
use esdx_scion.Market.Offer.{Offer, serialize_to_bytes}
use esdx_scion.Market.Order.{
  As, PurchaseOrder, Contract, sign_with_broker, validate_signature, order_serialize_to_bytes,
  order_validate_signature, contract_serialize_to_bytes, stamp_signature,
  contract_validate_signature, sign_purchase_order, sign_get_contract_request, check_requester,
}

module _ (floats : Floats) (crypto : Cryptography) where
  open floats use {Float}
  open crypto use {Key, Certificate, Certifies}

  -- An offer that the broker has signed is the old one but for the signature, and the broker's
  -- certificate validates it.
  pub validate_signature-sign_with_broker :
      (cert : Certificate) (key : Key) (salt : ℕ) (o signed : Offer Float)
      → Certifies cert key
      → sign_with_broker floats crypto key salt o ≡ ok signed
      → (validate_signature floats crypto cert signed ≡ ok tt)
        × (record signed { signature = o.signature } ≡ o)
  unfolding sign_with_broker validate_signature serialize_to_bytes
  validate_signature-sign_with_broker cert key salt o signed pair e =
      bind_inv (serialize_to_bytes floats o false) _ e λ content bytes e1.
        let exact = ok-injective e1 in
        rw (← exact)
          (rw bytes (signature_validate-signature_create crypto cert key salt content pair), refl)

  -- A purchase order with the signature that `sign_purchase_order` makes for an offer is validated
  -- against that offer, if the certificate of the buyer can be loaded and belongs to the signing key.
  pub order_validate_signature-sign_purchase_order :
      (cert : Certificate) (key : Key) (salt : ℕ) (o : Offer Float) (po : PurchaseOrder)
      (signature : Bytes)
      → Certifies cert key
      → load_certificate crypto po.buyer.certificate_pem ≡ ok cert
      → sign_purchase_order floats crypto po.buyer.iaid key salt o po.starting_on po.bw_profile
        ≡ ok signature
      → order_validate_signature floats crypto (record po { signature = signature }) o ≡ ok tt
  unfolding sign_purchase_order order_validate_signature order_serialize_to_bytes
  order_validate_signature-sign_purchase_order cert key salt o po signature pair loads e =
      bind_inv (serialize_to_bytes floats o true) _ e λ offer_bytes bytes e1.
        bind_inv
          (purchase_order_fields_serialize_to_bytes offer_bytes po.buyer.iaid po.bw_profile
            (timestamp po.starting_on))
          _ e1
          λ content contents e2.
            rw (loads, bytes, contents, ← ok-injective e2)
              (signature_validate-signature_create crypto cert key salt content pair)

  -- A contract that the broker has stamped is validated with the certificate of the broker, has the
  -- given time, and keeps its order and its address.
  pub contract_validate_signature-stamp_signature :
      (cert : Certificate) (key : Key) (salt : ℕ) (now : DateTime) (c stamped : Contract)
      (o : Offer Float)
      → Certifies cert key
      → stamp_signature floats crypto now key salt c o ≡ ok stamped
      → (contract_validate_signature floats crypto cert stamped o ≡ ok tt)
        × (stamped.timestamp ≡ now)
        × (stamped.purchase_order ≡ c.purchase_order)
        × (stamped.br_address ≡ c.br_address)
  unfolding stamp_signature contract_validate_signature contract_serialize_to_bytes
  contract_validate_signature-stamp_signature cert key salt now c stamped o pair e =
      bind_inv (contract_serialize_to_bytes floats crypto (record c { timestamp = now }) o) _ e
        λ content bytes e1. rw (← ok-injective e1) (
          rw bytes (signature_validate-signature_create crypto cert key salt content pair),
          refl,
          refl,
          refl,
        )

module _ (crypto : Cryptography) where
  open crypto use {Key, Certificate, Certifies}

  -- `MarketService.GetContract` accepts the signature that `sign_get_contract_request` makes for a
  -- contract and an AS, if the certificate of the AS can be loaded and belongs to the signing key.
  pub check_requester-sign_get_contract_request :
      (cert : Certificate) (key : Key) (salt : ℕ) (requester : As) (id : ℤ) (signature : Bytes)
      → Certifies cert key
      → load_certificate crypto requester.certificate_pem ≡ ok cert
      → sign_get_contract_request crypto key salt requester.iaid id ≡ ok signature
      → check_requester crypto requester (record {
        contract_id = id;
        requester_iaid = requester.iaid;
        requester_signature = signature;
      })
        ≡ ok tt
  unfolding sign_get_contract_request check_requester get_contract_request_serialize
  check_requester-sign_get_contract_request cert key salt requester id signature pair loads e =
      bind_inv (get_contract_request_serialize id requester.iaid (some [])) _ e
        λ content contents e1.
          rw (loads, contents, ← ok-injective e1)
            (signature_validate-signature_create crypto cert key salt content pair)
