-- ===== src/Market/Purchase/Makes.antt =====
-- `purchase_offer` returns where its parts do.
use esdx_scion.Base.{ℕ, ◌≡◌, refl, Bool, true, false, Option, some, [], ok}
use esdx_scion.Text.{Text, Bytes}
use esdx_scion.Conversion.Ip.{Ipv6}
use esdx_scion.Serialize.{Floats}
use esdx_scion.Crypto.{Cryptography, signature_create}
use esdx_scion.Transaction.{atomic}
use esdx_scion.Market.Offer.{Offer, purchase, pre_save, serialize_to_bytes}
use esdx_scion.Market.Offer.Valid.{IsValid, pre_save_iff}
use esdx_scion.Market.Offer.Renewal.{pre_save-purchase}
use esdx_scion.Market.Order.{
  As, PurchaseOrder, Contract, sign_with_broker, order_validate_signature, stamp_signature,
  contract_serialize_to_bytes,
}
use esdx_scion.Market.Order.Signed.{contract_validate_signature-stamp_signature}
use esdx_scion.Market.BrAddress.{find_available_br_address}
use esdx_scion.Market.Storage.{Storage}
use esdx_scion.Market.Purchase.{
  Around, Purchase, save_offer, used_address, remaining, ordered, make_contract, purchase_body,
  purchase_offer,
}
use esdx_scion.Market.Trade.Invariant.{accept}

module _ (floats : Floats) (crypto : Cryptography) (ipv6 : Ipv6) (S : Storage floats.Float)
    (around : Around crypto) where
  open floats use {Float}

  abbrev pub unsigned : PurchaseOrder → Text → Contract
  unsigned po br_address = record {
    purchase_order = po;
    timestamp = around.now;
    br_address = br_address;
    signature_broker = [];
  }

  abbrev pub stamped_with : crypto.Key → Bytes → PurchaseOrder → Text → Contract
  stamped_with key content po br_address = record (unsigned po br_address) {
    signature_broker = signature_create crypto key around.contract_salt content;
  }

  -- a contract is made if an address is free and its content can be signed and stored
  pub make_contract_ok :
      (offer : Offer Float) (po : PurchaseOrder) (db db' : S.Db) (used : Option Text)
      (br_address : Text) (content : Bytes) (key : crypto.Key) (cert : crypto.Certificate) (id : ℕ)
      → used_address floats crypto ipv6 S offer db ≡ ok used
      → find_available_br_address ipv6 offer used ≡ ok br_address
      → contract_serialize_to_bytes floats crypto (unsigned po br_address) offer ≡ ok content
      → around.broker_key ≡ ok key
      → around.broker_cert ≡ ok cert
      → crypto.Certifies cert key
      → S.insert_contract (stamped_with key content po br_address) db ≡ ok (id, db')
      → make_contract floats crypto ipv6 S around offer offer po db
        ≡ (ok (id, stamped_with key content po br_address), db')
  unfolding make_contract stamp_signature
  make_contract_ok offer po db db' used br_address content key cert id uses free serializes has_key
        has_cert pair inserts =
      let stamps : stamp_signature floats crypto around.now key around.contract_salt
            (unsigned po br_address) offer
          ≡ ok (stamped_with key content po br_address) =
        rw serializes refl in
      let validates =
        (contract_validate_signature-stamp_signature floats crypto cert key around.contract_salt
          around.now (unsigned po br_address) (stamped_with key content po br_address) offer pair
          stamps).0 in
      rw (uses, free, has_key, stamps, inserts, has_cert, validates) refl

  abbrev pub signed_with : crypto.Key → Bytes → Offer Float → Offer Float
  signed_with key content o = record o {
    signature = signature_create crypto key around.offer_salt content;
  }

  -- an offer with the rest of a profile is valid if the whole one is
  pub pre_save-remaining :
      (full_clean : Offer Float → Bool) (offer : Offer Float) (p : Purchase) (rest : Text)
      (signature : Bytes)
      → IsValid ipv6 accept offer
      → purchase offer p.buyer_bw_profile p.buyer_starting_on ≡ ok (some rest)
      → full_clean (record (remaining offer rest) { signature = signature }) ≡ true
      → pre_save ipv6 full_clean (record (remaining offer rest) { signature = signature }) ≡ ok tt
  pre_save-remaining full_clean offer p rest signature valid bought clean =
      let v = (pre_save_iff ipv6 accept (record offer { bw_profile = rest })).0 (
        pre_save-purchase ipv6 accept offer p.buyer_bw_profile p.buyer_starting_on rest
          ((pre_save_iff ipv6 accept offer).1 valid) bought refl) in
      (pre_save_iff ipv6 full_clean (record (remaining offer rest) { signature = signature })).1
        (record {
          clean = clean;
          aware_before = v.aware_before;
          aware_after = v.aware_after;
          profile = v.profile;
          reads = v.reads;
          spans = v.spans;
          template = v.template;
          reads_template = v.reads_template;
        })

  module _ (full_clean : S.Db → Offer Float → Bool) where
    pub purchase_body_ok :
        (offer : Offer Float) (p : Purchase) (buyer : As) (rest : Text) (db db1 db2 db3 : S.Db)
        (order_key id rest_key : ℕ) (contract : Contract) (key : crypto.Key) (content : Bytes)
        → S.get_as db p.buyer_iaid ≡ ok buyer
        → purchase offer p.buyer_bw_profile p.buyer_starting_on ≡ ok (some rest)
        → S.insert_order (ordered offer p buyer) db ≡ ok (order_key, db1)
        → order_validate_signature floats crypto (ordered offer p buyer) offer ≡ ok tt
        → make_contract floats crypto ipv6 S around offer offer (ordered offer p buyer) db1
          ≡ (ok (id, contract), db2)
        → around.broker_key ≡ ok key
        → serialize_to_bytes floats (remaining offer rest) false ≡ ok content
        → pre_save ipv6 (full_clean db2) (signed_with key content (remaining offer rest)) ≡ ok tt
        → S.insert_offer (signed_with key content (remaining offer rest)) db2 ≡ ok (rest_key, db3)
        → purchase_offer floats crypto ipv6 S full_clean around offer offer p db ≡ (
          ok (
            (id, contract),
            record (signed_with key content (remaining offer rest)) { id = some rest_key },
          ),
          db3,
        )
    unfolding purchase_offer purchase_body sign_with_broker save_offer atomic
    purchase_body_ok offer p buyer rest db db1 db2 db3 order_key id rest_key contract key content
          known bought orders signed contracts has_key serializes valid stores =
        rw (known, bought, orders, signed, contracts, has_key, serializes, valid, stores) refl
