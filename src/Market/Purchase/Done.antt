-- ===== src/Market/Purchase/Done.antt =====
-- What a purchase that returned has done.
use esdx_scion.Base.{
  ℕ, ◌≡◌, sym, ap, ◌∙◌, Bool, false, Option, some, ok, runtime_error, or_raise_inv, or_raise, subst,
  bind_inv, ok-injective,
}
use esdx_scion.Text.{Text, Bytes}
use esdx_scion.Conversion.Ip.{Ipv6}
use esdx_scion.Serialize.{Floats}
use esdx_scion.Crypto.{Cryptography}
use esdx_scion.Transaction.{lift_inv, query_inv, write_inv, tx_inv, atomic_inv, pure_inv, write_ok}
use esdx_scion.Market.Offer.{Offer, purchase, pre_save, serialize_to_bytes}
use esdx_scion.Market.Order.{
  As, PurchaseOrder, Contract, sign_with_broker, order_validate_signature, stamp_signature,
  contract_validate_signature, contract_serialize_to_bytes,
}
use esdx_scion.Market.BrAddress.{find_available_br_address}
use esdx_scion.Market.Storage.{Storage}
use esdx_scion.Market.Purchase.{
  Around, Purchase, save_offer, used_address, remaining, ordered, make_contract, purchase_body,
  purchase_offer,
}

module _ (floats : Floats) (crypto : Cryptography) (ipv6 : Ipv6) (S : Storage floats.Float) where
  open floats use {Float}

  -- A contract was made for an order: with the order, an address that was free, a signature of the
  -- broker that its certificate validates, and a row.
  pub record Contracted (available : Offer Float) (requested : Offer Float) (po : PurchaseOrder)
      (db : S.Db) (key : ℕ) (contract : Contract) (db' : S.Db) : Type 0 where
    pub used : Option Text
    pub uses : used_address floats crypto ipv6 S available db ≡ ok used
    pub address : find_available_br_address ipv6 available used ≡ ok contract.br_address
    pub order : contract.purchase_order ≡ po
    pub cert : crypto.Certificate
    pub validated : contract_validate_signature floats crypto cert contract requested ≡ ok tt
    pub inserted : S.insert_contract contract db ≡ ok (key, db')

  stamp_keeps :
      (around : Around crypto) (key : crypto.Key) (c stamped : Contract) (requested : Offer Float)
      → stamp_signature floats crypto around.now key around.contract_salt c requested ≡ ok stamped
      → (stamped.purchase_order ≡ c.purchase_order) × (stamped.br_address ≡ c.br_address)
  unfolding stamp_signature
  stamp_keeps around key c stamped requested e =
      bind_inv
        (contract_serialize_to_bytes floats crypto (record c { timestamp = around.now }) requested)
        _ e
        λ content _ exact. (
          ap (λ (d : Contract). d.purchase_order) (sym (ok-injective exact)),
          ap (λ (d : Contract). d.br_address) (sym (ok-injective exact)),
        )

  pub sign_keeps :
      (key : crypto.Key) (salt : ℕ) (o signed : Offer Float)
      → sign_with_broker floats crypto key salt o ≡ ok signed
      → (signature : Bytes) × (signed ≡ record o { signature = signature })
  unfolding sign_with_broker
  sign_keeps key salt o signed e =
      bind_inv (serialize_to_bytes floats o false) _ e
        λ content _ exact. (_, sym (ok-injective exact))

  make_contract-Contracted :
      (around : Around crypto) (requested available : Offer Float) (po : PurchaseOrder)
      (db db' : S.Db) (key : ℕ) (contract : Contract)
      → make_contract floats crypto ipv6 S around requested available po db
        ≡ (ok (key, contract), db')
      → Contracted available requested po db key contract db'
  unfolding make_contract
  make_contract-Contracted around requested available po db db' key contract e =
      query_inv (used_address floats crypto ipv6 S available) _ e λ used uses e1.
        lift_inv (find_available_br_address ipv6 available used) _ e1 λ br_address address e2.
          lift_inv around.broker_key _ e2 λ broker_key _ e3.
            lift_inv
              (stamp_signature floats crypto around.now broker_key around.contract_salt _ requested)
              _ e3
              λ stamped stamps e4. write_inv (S.insert_contract stamped) _ e4 λ id db1 inserted e5.
                lift_inv around.broker_cert _ e5 λ cert _ e6.
                  lift_inv (contract_validate_signature floats crypto cert stamped requested) _ e6
                    λ u validated e7.
                      let (order, same) =
                        stamp_keeps around broker_key _ stamped requested stamps in
                      subst
                        (λ (q : (ℕ × Contract) × S.Db).
                          Contracted available requested po db q.0.0 q.0.1 q.1)
                        (pure_inv e7)
                        (record {
                          used = used;
                          uses = uses;
                          address = rw same address;
                          order = order;
                          cert = cert;
                          validated = validated;
                          inserted = inserted;
                        })

  -- A row for a new offer was written after the checks of `_pre_save`.
  pub record Saved (full_clean : S.Db → Offer Float → Bool) (o : Offer Float) (db : S.Db) (key : ℕ)
      (db' : S.Db) : Type 0 where
    pub checked : pre_save ipv6 (full_clean db) o ≡ ok tt
    pub inserted : S.insert_offer o db ≡ ok (key, db')

  pub save_offer-Saved :
      (full_clean : S.Db → Offer Float → Bool) (o : Offer Float) (db db' : S.Db) (key : ℕ)
      → save_offer floats crypto ipv6 S full_clean o db ≡ (ok key, db')
      → Saved full_clean o db key db'
  unfolding save_offer
  save_offer-Saved full_clean o db db' key e =
      query_inv (λ d. pre_save ipv6 (full_clean d) o) _ e
        λ u checked e1. record {
          checked = checked;
          inserted = write_ok db (S.insert_offer o db) e1;
        }

  -- A purchase was made: the buyer is known, the available offer had the bandwidth, the order was
  -- signed for the requested offer, a contract was made for it, and an offer of the rest deprecates the
  -- available one.
  pub record Purchased (full_clean : S.Db → Offer Float → Bool) (requested available : Offer Float)
      (p : Purchase) (db : S.Db) (key : ℕ) (contract : Contract) (rest : Offer Float) (db' : S.Db)
      : Type 0 where
    pub buyer : As
    pub known : S.get_as db p.buyer_iaid ≡ ok buyer
    pub new_profile : Text
    pub bought : purchase available p.buyer_bw_profile p.buyer_starting_on ≡ ok (some new_profile)
    pub order_key : ℕ
    pub db1 : S.Db
    pub ordered_lem : S.insert_order (ordered available p buyer) db ≡ ok (order_key, db1)
    pub signed :
        order_validate_signature floats crypto (ordered available p buyer) requested ≡ ok tt
    pub db2 : S.Db
    pub contracted : Contracted available requested (ordered available p buyer) db1 key contract db2
    pub signature : Bytes
    pub rest_key : ℕ
    pub rest_lem :
        rest
        ≡ record (remaining available new_profile) { id = some rest_key; signature = signature }
    pub saved :
        Saved full_clean
          (record (remaining available new_profile) { signature = signature })
          db2
          rest_key
          db'

  pub purchase_offer-Purchased :
      (full_clean : S.Db → Offer Float → Bool) (around : Around crypto)
      (requested available : Offer Float) (p : Purchase) (db db' : S.Db) (key : ℕ)
      (contract : Contract) (rest : Offer Float)
      → purchase_offer floats crypto ipv6 S full_clean around requested available p db
        ≡ (ok ((key, contract), rest), db')
      → Purchased full_clean requested available p db key contract rest db'
  unfolding purchase_offer purchase_body
  purchase_offer-Purchased full_clean around requested available p db db' key contract rest e =
      query_inv (λ d. S.get_as d p.buyer_iaid) _ (atomic_inv _ e)
        λ buyer known e1.
          lift_inv (purchase available p.buyer_bw_profile p.buyer_starting_on) _ e1
            λ result result_lem e2.
              lift_inv (or_raise result runtime_error) _ e2 λ new_profile profile_lem e3.
                write_inv (S.insert_order (ordered available p buyer)) _ e3
                  λ order_key db1 inserted e4.
                    lift_inv
                      (order_validate_signature floats crypto (ordered available p buyer) requested)
                      _ e4
                      λ u signed e5.
                        tx_inv
                          (make_contract floats crypto ipv6 S around requested available
                            (ordered available p buyer))
                          _ e5
                          λ (k, c) db2 contract_lem e6.
                            lift_inv around.broker_key _ e6 λ broker_key _ e7.
                              lift_inv
                                (sign_with_broker floats crypto broker_key around.offer_salt
                                  (remaining available new_profile))
                                _ e7
                                λ new_offer signs e8.
                                  tx_inv (save_offer floats crypto ipv6 S full_clean new_offer) _ e8
                                    λ rest_key db3 saves e9.
                                      let (signature, exact) =
                                        sign_keeps broker_key around.offer_salt _ new_offer signs in
                                      let save =
                                        save_offer-Saved full_clean new_offer db2 db3 rest_key
                                          saves in
                                      subst
                                        (λ (q : ((ℕ × Contract) × Offer Float) × S.Db).
                                          Purchased full_clean requested available p db q.0.0.0
                                            q.0.0.1 q.0.1 q.1)
                                        (pure_inv e9)
                                        (record {
                                          buyer = buyer;
                                          known = known;
                                          new_profile = new_profile;
                                          bought =
                                              result_lem
                                              ∙ ap ok
                                                  (or_raise_inv result runtime_error profile_lem);
                                          order_key = order_key;
                                          db1 = db1;
                                          ordered_lem = inserted;
                                          signed = signed;
                                          db2 = db2;
                                          contracted =
                                              make_contract-Contracted around requested available _
                                                db1 db2 k c contract_lem;
                                          signature = signature;
                                          rest_key = rest_key;
                                          rest_lem =
                                              ap
                                                (λ (o : Offer Float). record o {
                                                  id = some rest_key;
                                                })
                                                exact;
                                          saved =
                                              subst
                                                (λ (o : Offer Float).
                                                  Saved full_clean o db2 rest_key db3)
                                                exact save;
                                        })
