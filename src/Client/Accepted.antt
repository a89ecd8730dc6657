-- ===== src/Client/Accepted.antt =====
-- What a client signs is accepted by the checks of the service.
use esdx_scion.Base.{
  ℕ, ◌∙◌, value_error, raise_if_inv, ◌≡◌, refl, sym, ap, Bool, true, false, Option, none, ok,
  ok-injective, bind_inv,
}
use esdx_scion.Base.Int.{ℤ}
use esdx_scion.Text.{Text, Bytes}
use esdx_scion.Serialize.{
  Floats, OfferSpecification, OfferMessage, offer_specification_serialize_to_bytes,
  offer_serialize_to_bytes, purchase_order_fields_serialize_to_bytes,
  get_contract_request_serialize,
}
use esdx_scion.Messages.{PurchaseRequest, GetContractRequest}
use esdx_scion.Crypto.{
  Cryptography, load_certificate, signature_create, signature_validate,
  signature_validate-signature_create,
}
use esdx_scion.Market.Time.{DateTime, timestamp}
use esdx_scion.Market.Offer.{Offer, fields_of, serialize_to_bytes}
use esdx_scion.Market.Order.{
  As, order_serialize_to_bytes, order_validate_signature, validate_signature_from_seller,
  check_requester,
}
use esdx_scion.Client.{MarketClient, sell_offer, buy_offer, get_contract}

module _ (floats : Floats) (crypto : Cryptography) where
  open floats use {Float}
  open crypto use {Certificate, Certifies}

  -- The message says of the offer what the row holds.
  abbrev pub Describes : OfferSpecification floats → Offer Float → Type 0
  Describes specs o = (specs.fields ≡ fields_of o) × (specs.signature ≡ o.signature)

  signature_validate-verify :
      (cert : Certificate) (signature content : Bytes)
      → signature_validate crypto cert signature content ≡ ok tt
      → crypto.verify cert signature content ≡ true
  unfolding signature_validate
  signature_validate-verify cert signature content e = raise_if_inv _ value_error e

  same_bytes :
      (specs : OfferSpecification floats) (o : Offer Float) (include_signature : Bool)
      → Describes specs o
      → offer_specification_serialize_to_bytes floats specs include_signature
        ≡ serialize_to_bytes floats o include_signature
  unfolding offer_specification_serialize_to_bytes serialize_to_bytes
  same_bytes specs o include_signature same = rw (same.0, same.1) refl

  -- If a client can build a purchase request for the message of an offer, then the purchase order that
  -- the service makes of it, for the buyer whose certificate belongs to the client's key and with the
  -- start in the same second, is validated against the offer; and the client's certificate of the
  -- broker verifies the signature in the message on the offer without its signature.
  pub order_validate_signature-buy_offer :
      (self : MarketClient crypto) (cert : Certificate) (salt : ℕ) (message : OfferMessage floats)
      (o : Offer Float) (buyer : As) (offer_id : Option ℕ) (bw_profile : Text)
      (starting_on received : DateTime) (request : PurchaseRequest floats)
      → Certifies cert self.key
      → load_certificate crypto buyer.certificate_pem ≡ ok cert
      → buyer.iaid ≡ self.ia
      → Describes message.specs o
      → timestamp received ≡ timestamp starting_on
      → buy_offer floats crypto self salt message bw_profile starting_on ≡ ok request
      → (order_validate_signature floats crypto
            (record {
              offer_id = offer_id;
              buyer = buyer;
              signature = request.signature;
              bw_profile = request.bw_profile;
              starting_on = received;
            })
            o
          ≡ ok tt)
        × (unsigned : Bytes) × (serialize_to_bytes floats o false ≡ ok unsigned)
        × (crypto.verify self.broker_cert o.signature unsigned ≡ true)
  unfolding buy_offer order_validate_signature order_serialize_to_bytes offer_serialize_to_bytes
  order_validate_signature-buy_offer self cert salt message o buyer offer_id bw_profile starting_on
        received request pair loads who same when e =
      bind_inv (offer_serialize_to_bytes floats message false) _ e λ unsigned unsigned_lem e1.
        bind_inv (signature_validate crypto self.broker_cert message.specs.signature unsigned) _ e1
          λ valid valid_lem e2.
            bind_inv (offer_serialize_to_bytes floats message true) _ e2 λ offer_bytes bytes e3.
              bind_inv
                (purchase_order_fields_serialize_to_bytes offer_bytes self.ia bw_profile
                  (timestamp starting_on))
                _ e3
                λ content contents e4. (
                  rw (← ok-injective e4) (
                      rw (loads, ← same_bytes message.specs o true same, bytes, who, when, contents)
                        (signature_validate-signature_create crypto cert self.key salt content
                          pair)),
                  unsigned,
                  sym (same_bytes message.specs o false same) ∙ unsigned_lem,
                  rw (← same.1) (signature_validate-verify self.broker_cert _ unsigned valid_lem),
                )

  -- A contract request that a client builds is accepted by the signature check of `GetContract`, if
  -- the certificate of the client's AS can be loaded and belongs to the client's key.
  pub check_requester-get_contract :
      (self : MarketClient crypto) (cert : Certificate) (salt : ℕ) (requester : As) (id : ℤ)
      (request : GetContractRequest)
      → Certifies cert self.key
      → load_certificate crypto requester.certificate_pem ≡ ok cert
      → get_contract crypto self salt id ≡ ok request
      → check_requester crypto requester request ≡ ok tt
  unfolding get_contract check_requester
  check_requester-get_contract self cert salt requester id request pair loads e =
      bind_inv (get_contract_request_serialize id self.ia none) _ e λ content contents e1.
        rw (← ok-injective e1) (
          rw (loads, contents)
            (signature_validate-signature_create crypto cert self.key salt content pair))

  unsigned_bytes :
      (s t : OfferSpecification floats)
      → s.fields ≡ t.fields
      → offer_specification_serialize_to_bytes floats s false
        ≡ offer_specification_serialize_to_bytes floats t false
  unfolding offer_specification_serialize_to_bytes
  unsigned_bytes s t e = rw e refl

  -- An offer that a client signs for sale is accepted by the check of the seller's signature, if it is
  -- stored as sent, and the certificate of the seller can be loaded and belongs to the client's key.
  pub validate_signature_from_seller-sell_offer :
      (self : MarketClient crypto) (cert : Certificate) (salt : ℕ) (seller : As)
      (specs signed : OfferSpecification floats) (o : Offer Float)
      → Certifies cert self.key
      → load_certificate crypto seller.certificate_pem ≡ ok cert
      → sell_offer floats crypto self salt specs ≡ ok signed
      → Describes signed o
      → validate_signature_from_seller floats crypto seller o ≡ ok tt
  unfolding sell_offer validate_signature_from_seller
  validate_signature_from_seller-sell_offer self cert salt seller specs signed o pair loads e same =
      bind_inv (offer_specification_serialize_to_bytes floats specs false) _ e
        λ content contents e1.
          let fields : signed.fields ≡ specs.fields =
            ap (λ (s : OfferSpecification floats). s.fields) (sym (ok-injective e1)) in
          let signature : signed.signature ≡ signature_create crypto self.key salt content =
            ap (λ (s : OfferSpecification floats). s.signature) (sym (ok-injective e1)) in
          rw
            (
              ← same_bytes signed o false same,
              unsigned_bytes signed specs fields,
              contents,
              loads,
              ← same.1,
              signature,
            )
            (signature_validate-signature_create crypto cert self.key salt content pair)
