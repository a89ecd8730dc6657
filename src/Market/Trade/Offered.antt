-- ===== src/Market/Trade/Offered.antt =====
-- What `AddOffer` has done when it returns.
use esdx_scion.Base.{
  ℕ, ◌<◌, ◌≡◌, ◌≢◌, refl, sym, ◌∙◌, ap, subst, Bool, true, false, Option, [], value_error,
  raise_if_inv, ok-injective, bind_inv, ◌==◌, none, some, Result, ok, Option-cases, inl, inr, arith,
}
use esdx_scion.Conversion.Ip.{Ipv6}
use esdx_scion.Text.{Bytes}
use esdx_scion.Serialize.{Floats, OfferMessage, OfferSpecification, offer_fields_serialize_to_bytes}
use esdx_scion.Crypto.{Cryptography, load_certificate, signature_create, signature_validate}
use esdx_scion.Transaction.{lift_inv, query_inv, tx_inv, atomic_inv, except_inv}
use esdx_scion.Market.Offer.{Offer, fields_of, serialize_to_bytes}
use esdx_scion.Market.Order.{As, sign_with_broker, validate_signature_from_seller}
use esdx_scion.Market.Storage.{Storage, IsLawful, OfferInserted}
use esdx_scion.Market.Manager.{IsAvailable}
use esdx_scion.Market.Purchase.{Around, save_offer}
use esdx_scion.Market.Purchase.Done.{save_offer-Saved, sign_keeps}
use esdx_scion.Market.Trade.{Wire, create, store_offer, add_offer, to_service_error}
use esdx_scion.Market.Trade.Invariant.{IsMarket}
use esdx_scion.Market.Trade.Kept.{==_self}

module _ (floats : Floats) (crypto : Cryptography) (ipv6 : Ipv6) (S : Storage floats.Float)
    (wire : Wire floats) where
  open floats use {Float}

  -- The offer of a seller, whose certificate verifies its signature on the fields of the offer, and the
  -- copy with the broker's signature in its place, which each certificate of the broker's key verifies on
  -- the same fields. The copy deprecates the offer and is available. The reply is its message.
  pub record Offered (around : Around crypto) (values : Offer Float) (db : S.Db)
      (reply : OfferMessage floats) (db' : S.Db) : Type 0 where
    pub seller : As
    pub known : S.get_as db values.iaid ≡ ok seller
    pub cert : crypto.Certificate
    pub loads : load_certificate crypto seller.certificate_pem ≡ ok cert
    pub content : Bytes
    pub content_lem : offer_fields_serialize_to_bytes floats (fields_of values) [] ≡ ok content
    pub seller_signed : crypto.verify cert values.signature content ≡ true
    pub id : ℕ
    pub next : ℕ
    pub new : (o : Offer Float) → S.by_id db id ≢ some o
    pub original_stored : S.by_id db' id ≡ some (record values { id = some id })
    pub deprecated : S.deprecated_by db' id ≡ some next
    pub key : crypto.Key
    pub broker_key : around.broker_key ≡ ok key
    pub signature : Bytes
    pub broker_signed :
        (broker_cert : crypto.Certificate)
        → crypto.Certifies broker_cert key
        → crypto.verify broker_cert signature content ≡ true
    pub available :
        IsAvailable S db' next
          (record values { deprecates = some id; id = some next; signature = signature })
    pub replied :
        wire.offer_message
          (record values { deprecates = some id; id = some next; signature = signature })
        ≡ ok reply

  -- what the check of the seller's signature and the signing by the broker mean
  seller-verify :
      (seller : As) (o : Offer Float)
      → validate_signature_from_seller floats crypto seller o ≡ ok tt
      → (cert : crypto.Certificate) × (content : Bytes) × (load_certificate crypto
            seller.certificate_pem
          ≡ ok cert)
        × (offer_fields_serialize_to_bytes floats (fields_of o) [] ≡ ok content)
        × (crypto.verify cert o.signature content ≡ true)
  unfolding validate_signature_from_seller serialize_to_bytes signature_validate
  seller-verify seller o e =
      bind_inv (offer_fields_serialize_to_bytes floats (fields_of o) []) _ e
        λ content content_lem e1.
          bind_inv (load_certificate crypto seller.certificate_pem) _ e1
            λ cert loads e2. (cert, content, loads, content_lem, raise_if_inv _ value_error e2)

  broker-verify :
      (key : crypto.Key) (salt : ℕ) (o copy : Offer Float) (deprecates : Option ℕ) (content : Bytes)
      → offer_fields_serialize_to_bytes floats (fields_of o) [] ≡ ok content
      → sign_with_broker floats crypto key salt (record o { deprecates = deprecates }) ≡ ok copy
      → (signature : Bytes) × (copy ≡ record o { deprecates = deprecates; signature = signature })
        × ((cert : crypto.Certificate)
            → crypto.Certifies cert key
            → crypto.verify cert signature content ≡ true)
  unfolding sign_with_broker serialize_to_bytes signature_create
  broker-verify key salt o copy deprecates content content_lem e =
      bind_inv (offer_fields_serialize_to_bytes floats (fields_of o) []) _ e λ signed signed_lem e1.
        (
          crypto.sign key salt signed,
          sym (ok-injective e1),
          λ cert pair.
              rw (ok-injective (sym content_lem ∙ signed_lem))
                (crypto.verify-sign cert key salt signed pair),
        )

  module _ (laws : IsLawful S) (full_clean : S.Db → Offer Float → Bool)
      (around : Around crypto) where
    -- what is not there is not deprecated
    unlinked :
        (db : S.Db) (k : ℕ)
        → IsMarket ipv6 S db
        → ((p : Offer Float) → S.by_id db k ≢ some p)
        → S.deprecated_by db k ≡ none
    unlinked db k m absent = elim (Option-cases (S.deprecated_by db k)) [
      | inl h ↦ h
      | inr (l, h) ↦ let link = m.linked k l h in absurd (absent link.old link.old_at)
    ]

    linked_next :
        (db db1 db2 : S.Db) (o copy : Offer Float) (id next : ℕ)
        → o.deprecates ≡ none
        → copy.deprecates ≡ some id
        → id < next
        → OfferInserted S o db id db1
        → OfferInserted S copy db1 next db2
        → S.deprecated_by db next ≡ none
        → S.deprecated_by db2 next ≡ none
    linked_next db db1 db2 o copy id next original links up i j h =
        let apart : (id == next) ≡ false = ground arith in
        rw (j.links next, links, apart, i.links next, original) h

    pub store_offer-Offered :
        (values : Offer Float) (db db' : S.Db) (reply : OfferMessage floats)
        → values.deprecates ≡ none
        → IsMarket ipv6 S db
        → store_offer floats crypto ipv6 S wire full_clean around values db ≡ (ok reply, db')
        → Offered around values db reply db'
    unfolding store_offer
    store_offer-Offered o db db' reply original m e =
        query_inv (λ d. S.get_as d o.iaid) _ e
          λ seller known e1.
            lift_inv (validate_signature_from_seller floats crypto seller o) _ e1
              λ u seller_signed e2.
                tx_inv (save_offer floats crypto ipv6 S full_clean o) _ e2 λ id db1 saves e3.
                  lift_inv around.broker_key _ e3 λ key broker_key e4.
                    lift_inv
                      (sign_with_broker floats crypto key around.offer_salt
                        (record o { deprecates = some id }))
                      _ e4
                      λ copy signs e5.
                        tx_inv (save_offer floats crypto ipv6 S full_clean copy) _ e5
                          λ next db2 saves_copy e6.
                            let first =
                              save_offer-Saved floats crypto ipv6 S full_clean o db db1 id saves in
                            let second =
                              save_offer-Saved floats crypto ipv6 S full_clean copy db1 db2 next
                                saves_copy in
                            let (_, kept) =
                              sign_keeps floats crypto ipv6 S key around.offer_salt _ copy signs in
                            let i = laws.insert_offer_lem o db db1 id first.inserted in
                            let j = laws.insert_offer_lem copy db1 db2 next second.inserted in
                            let links : copy.deprecates ≡ some id =
                              ap (λ (p : Offer Float). p.deprecates) kept in
                            let stored : S.by_id db1 id ≡ some (record o { id = some id }) =
                              rw (i.offers id, ==_self id) refl in
                            let later : id < next = j.newest id _ stored in
                            let earlier : (next == id) ≡ false = ground arith in
                            let absent : (p : Offer Float) → S.by_id db next ≢ some p =
                              λ p at. let below = i.newest next p at in absurd (omega arith) in
                            let (cert, content, loads, content_lem, verified) =
                              seller-verify seller o seller_signed in
                            let (signature, exact, broker_signed) =
                              broker-verify key around.offer_salt o copy (some id) content
                                content_lem signs in
                            let done : Offered around o db reply db2 = record {
                              seller = seller;
                              known = known;
                              cert = cert;
                              loads = loads;
                              content = content;
                              content_lem = content_lem;
                              seller_signed = verified;
                              id = id;
                              next = next;
                              new = λ p at. let below = i.newest id p at in absurd (omega arith);
                              original_stored = rw (j.offers id, earlier) stored;
                              deprecated = rw (j.links id, links, ==_self id) refl;
                              key = key;
                              broker_key = broker_key;
                              signature = signature;
                              broker_signed = broker_signed;
                              available = (
                                rw (j.offers next, ==_self next)
                                    (ap (λ (p : Offer Float). some (record p { id = some next }))
                                      exact),
                                linked_next db db1 db2 o copy id next original links later i j
                                    (unlinked db next m absent),
                              );
                              replied =
                                  subst
                                    (λ (p : Offer Float).
                                      wire.offer_message (record p { id = some next }) ≡ ok reply)
                                    exact
                                    (ap (λ (p : Result (OfferMessage floats) × S.Db). p.0) e6);
                            } in
                            subst (λ (d : S.Db). Offered around o db reply d)
                              (ap (λ (p : Result (OfferMessage floats) × S.Db). p.1) e6) done

    -- When `AddOffer` returns, the offer that was sent is stored under a new key with a signature that the
    -- stored certificate of its seller verifies on the fields of the offer. A copy of it deprecates it, is
    -- available, and is what the reply says; its signature is verified on the same fields by each
    -- certificate of the broker's key. This holds if the tables had the invariant.
    pub add_offer-Offered :
        (request : OfferSpecification floats) (db db' : S.Db) (reply : OfferMessage floats)
        → IsMarket ipv6 S db
        → add_offer floats crypto ipv6 S wire full_clean around request db ≡ (ok reply, db')
        → (values : Offer Float) × (wire.validated request ≡ ok values)
          × Offered around (record (create floats values) { id = none }) db reply db'
    unfolding add_offer
    add_offer-Offered request db db' reply m e =
        lift_inv (wire.validated request) _ (except_inv to_service_error _ e) λ values valid e1. (
          values,
          valid,
          store_offer-Offered (record (create floats values) { id = none }) db db' reply refl m
              (atomic_inv _ e1),
        )
