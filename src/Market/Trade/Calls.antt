-- ===== src/Market/Trade/Calls.antt =====
-- What the calls of the service do to the tables.
use esdx_scion.Base.{
  some-injective, ℕ, ◌≡◌, refl, sym, ap, subst, ◌∙◌, Bool, true, not, none, some, Result, ok, err,
  Exn, ◌⊎◌, inl, inr, service_error, raise_if, raise_if_inv,
}
use esdx_scion.Base.Int.{pos}
use esdx_scion.Conversion.Ip.{Ipv6}
use esdx_scion.Serialize.{Floats, OfferMessage}
use esdx_scion.Messages.{PurchaseRequest, ContractMessage}
use esdx_scion.Crypto.{Cryptography}
use esdx_scion.Transaction.{
  lift_inv, query_inv, tx_inv, tx_err, atomic, atomic_inv, atomic-err, except_inv, except-err,
  pure_inv, lift, pure, ◌>>=◌,
}
use esdx_scion.Market.Offer.{Offer}
use esdx_scion.Market.Order.{Contract, sign_with_broker, validate_signature_from_seller}
use esdx_scion.Market.Service.{contract_message}
use esdx_scion.Market.Storage.{Storage, IsLawful}
use esdx_scion.Market.Purchase.{Around, save_offer, purchase_offer}
use esdx_scion.Market.Purchase.Done.{
  Purchased, save_offer-Saved, purchase_offer-Purchased, sign_keeps,
}
use esdx_scion.Market.Trade.{
  Wire, pb_compare_messages, store_offer, purchase_in, purchase_requested, purchase_with,
  to_service_error,
}
use esdx_scion.Market.Trade.Kept.{new_offer}
use esdx_scion.Market.Trade.Sale.{IsValid-accept, inserted-Grown, Purchased-Growth}
use esdx_scion.Market.Trade.Growth.{Growth}
use esdx_scion.Market.Manager.{IsAvailable}

-- the message alone raises here, and it touches no table
rendering_err :
    {A Db : Type 0} (rendering : Result (Unit {0})) (a : A) (db db' : Db) {x : Exn}
    → (lift rendering >>= λ _. pure a) db ≡ (err x, db')
    → ((y : Exn) × (rendering ≡ err y)) × (db ≡ db')
rendering_err (ok tt) a db db' h = absurd (cc)
rendering_err (err y) a db db' h = ((y, refl), ap (λ (p : Result _ × _). p.1) h)

module _ (floats : Floats) (crypto : Cryptography) (ipv6 : Ipv6) (S : Storage floats.Float)
    (wire : Wire floats) where
  open floats use {Float}

  -- A purchase was made: the getter found the two offers, the message of the requested one is the one
  -- of the request, and the purchase was made.
  pub record Bargain (full_clean : S.Db → Offer Float → Bool)
      (getter : S.Db → Result (Offer Float × Offer Float)) (request : PurchaseRequest floats)
      (db db' : S.Db) : Type 0 where
    pub requested : Offer Float
    pub available : Offer Float
    pub found : getter db ≡ ok (requested, available)
    pub message : OfferMessage floats
    pub printed : wire.offer_message requested ≡ ok message
    pub agreed : pb_compare_messages floats wire request.offer message ≡ true
    pub key : ℕ
    pub contract : Contract
    pub rest : Offer Float
    pub done :
        Purchased floats crypto ipv6 S full_clean requested available
          (purchase_in floats crypto ipv6 S wire request)
          db
          key
          contract
          rest
          db'

  -- the purchase of a contract under its key, on the available offer
  abbrev pub Makes :
      (full_clean : S.Db → Offer Float → Bool)
      → (S.Db → Result (Offer Float × Offer Float))
      → PurchaseRequest floats
      → S.Db
      → (ℕ × Contract) × Offer Float
      → S.Db
      → Type 0
  Makes full_clean getter request db made db' =
      (b : Bargain full_clean getter request db db') × (made ≡ ((b.key, b.contract), b.available))

  purchase_requested-Bargain :
      (full_clean : S.Db → Offer Float → Bool) (around : Around crypto)
      (getter : S.Db → Result (Offer Float × Offer Float)) (request : PurchaseRequest floats)
      (db db' : S.Db) (made : (ℕ × Contract) × Offer Float)
      → purchase_requested floats crypto ipv6 S wire full_clean around getter request db
        ≡ (ok made, db')
      → Makes full_clean getter request db made db'
  unfolding purchase_requested
  purchase_requested-Bargain full_clean around getter request db db' made e =
      query_inv getter _ e λ (requested, available) found e1.
        lift_inv (wire.offer_message requested) _ e1 λ message printed e2.
          lift_inv
            (raise_if (not (pb_compare_messages floats wire request.offer message)) service_error) _
            e2
            λ u agreed e3.
              tx_inv
                (purchase_offer floats crypto ipv6 S full_clean around requested available
                  (purchase_in floats crypto ipv6 S wire request))
                _ e3
                λ ((key, contract), rest) db1 bought e4.
                  subst
                    (λ (q : ((ℕ × Contract) × Offer Float) × S.Db).
                      Makes full_clean getter request db q.0 q.1)
                    (pure_inv e4)
                    (
                      record {
                        requested = requested;
                        available = available;
                        found = found;
                        message = message;
                        printed = printed;
                        agreed = raise_if_inv _ service_error agreed;
                        key = key;
                        contract = contract;
                        rest = rest;
                        done =
                            purchase_offer-Purchased floats crypto ipv6 S full_clean around
                              requested available (purchase_in floats crypto ipv6 S wire request) db
                              db1 key contract rest bought;
                      },
                      refl,
                    )

  pub purchase_with-Bargain :
      (full_clean : S.Db → Offer Float → Bool) (around : Around crypto)
      (getter : S.Db → Result (Offer Float × Offer Float)) (request : PurchaseRequest floats)
      (db db' : S.Db) (reply : ContractMessage floats)
      → purchase_with floats crypto ipv6 S wire full_clean around getter request db
        ≡ (ok reply, db')
      → (b : Bargain full_clean getter request db db') × (reply
          ≡ contract_message floats (pos b.key) b.contract b.available)
  unfolding purchase_with
  purchase_with-Bargain full_clean around getter request db db' reply e =
      tx_inv
        (atomic (purchase_requested floats crypto ipv6 S wire full_clean around getter request)) _
        (except_inv _ _ e)
        λ made db1 committed e1.
          let (b, exact) =
            purchase_requested-Bargain full_clean around getter request db db1 made
              (atomic_inv _ committed) in
          lift_inv around.rendering _ e1 λ u _ e2.
            subst
              (λ (q : ContractMessage floats × S.Db).
                (c : Bargain full_clean getter request db q.1) × (q.0
                  ≡ contract_message floats (pos c.key) c.contract c.available))
              (pure_inv e2)
              (
                b,
                ap
                    (λ (m : (ℕ × Contract) × Offer Float).
                      contract_message floats (pos m.0.0) m.0.1 m.1)
                    exact,
              )

  -- A purchase that raised has left the tables as they were, or it was made, and the libraries raised
  -- when they made the reply.
  pub purchase_with-err :
      (full_clean : S.Db → Offer Float → Bool) (around : Around crypto)
      (getter : S.Db → Result (Offer Float × Offer Float)) (request : PurchaseRequest floats)
      (db db' : S.Db) (e : Exn)
      → purchase_with floats crypto ipv6 S wire full_clean around getter request db ≡ (err e, db')
      → (e ≡ service_error)
        × ((db' ≡ db)
            ⊎ (((x : Exn) × (around.rendering ≡ err x)) × Bargain full_clean getter request db db'))
  unfolding purchase_with
  purchase_with-err full_clean around getter request db db' e h =
      let (x, inner, exact) = except-err to_service_error _ h in
      (
        exact,
        tx_err
            (atomic (purchase_requested floats crypto ipv6 S wire full_clean around getter request))
            _ inner (λ raised. inl (atomic-err _ raised))
            (λ made db1 committed e1.
              let (b, _) =
                purchase_requested-Bargain full_clean around getter request db db1 made
                  (atomic_inv _ committed) in
              let (failed, same) = rendering_err around.rendering _ db1 db' e1 in
              inr (failed, subst (λ (d : S.Db). Bargain full_clean getter request db d) same b)),
      )

  module _ (laws : IsLawful S) (full_clean : S.Db → Offer Float → Bool) where
    pub Bargain-Growth :
        (getter : S.Db → Result (Offer Float × Offer Float)) (request : PurchaseRequest floats)
        (db0 db db' : S.Db)
        → ((r a : Offer Float) → getter db ≡ ok (r, a) → (n : ℕ) × IsAvailable S db n a)
        → Growth ipv6 S db0 db
        → Bargain full_clean getter request db db'
        → Growth ipv6 S db0 db'
    Bargain-Growth getter request db0 db db' stored before b =
        let (n, (at, _)) = stored b.requested b.available b.found in
        Purchased-Growth floats crypto ipv6 S laws full_clean b.requested b.available
          (purchase_in floats crypto ipv6 S wire request) db db' b.key b.contract b.rest b.done n
          db0 at before

  module _ (laws : IsLawful S) (full_clean : S.Db → Offer Float → Bool)
      (around : Around crypto) where
    pub store_offer-Growth :
        (o : Offer Float) (db0 db db' : S.Db) (reply : OfferMessage floats)
        → o.deprecates ≡ none
        → Growth ipv6 S db0 db
        → store_offer floats crypto ipv6 S wire full_clean around o db ≡ (ok reply, db')
        → Growth ipv6 S db0 db'
    unfolding store_offer
    store_offer-Growth o db0 db db' reply original before e =
        query_inv (λ d. S.get_as d o.iaid) _ e
          λ seller _ e1.
            lift_inv (validate_signature_from_seller floats crypto seller o) _ e1 λ u _ e2.
              tx_inv (save_offer floats crypto ipv6 S full_clean o) _ e2 λ id db1 saves e3.
                lift_inv around.broker_key _ e3 λ key _ e4.
                  lift_inv
                    (sign_with_broker floats crypto key around.offer_salt
                      (record o { deprecates = some id }))
                    _ e4
                    λ new signs e5.
                      tx_inv (save_offer floats crypto ipv6 S full_clean new) _ e5
                        λ new_id db2 saves_new e6.
                          let first =
                            save_offer-Saved floats crypto ipv6 S full_clean o db db1 id saves in
                          let second =
                            save_offer-Saved floats crypto ipv6 S full_clean new db1 db2 new_id
                              saves_new in
                          let (signature, exact) =
                            sign_keeps floats crypto ipv6 S key around.offer_salt _ new signs in
                          let grown =
                            inserted-Grown floats crypto ipv6 S laws o db db1 id
                              (laws.insert_offer_lem o db db1 id first.inserted) in
                          let grown_again =
                            inserted-Grown floats crypto ipv6 S laws new db1 db2 new_id
                              (laws.insert_offer_lem new db1 db2 new_id second.inserted) in
                          let links : new.deprecates ≡ some id =
                            ap (λ (p : Offer Float). p.deprecates) exact in
                          let stored = new_offer ipv6 S db db1 o id none grown in
                          let copy =
                            exact
                            ∙ sym (
                                ap
                                  (λ (p : Offer Float). record o {
                                    id = p.id;
                                    signature = p.signature;
                                    bw_profile = p.bw_profile;
                                    deprecates = p.deprecates;
                                  })
                                  exact) in
                          let original_stored : Growth ipv6 S db0 db1 =
                            Growth.grown db db1 o id none before grown
                              (IsValid-accept ipv6 (full_clean db) o first.checked)
                              (λ d own. absurd (cc)) in
                          let renewed : Growth ipv6 S db0 db2 =
                            Growth.grown db1 db2 new new_id none original_stored grown_again
                              (IsValid-accept ipv6 (full_clean db1) new second.checked)
                              (λ d own. record {
                                old = record o { id = some d };
                                old_at =
                                    subst
                                      (λ (j : ℕ). S.by_id db1 j ≡ some (record o { id = some j }))
                                      (some-injective (sym links ∙ own)) stored;
                                copy = copy;
                                change = ap (λ (p : Offer Float). p.bw_profile) exact;
                              }) in
                          subst (λ (d : S.Db). Growth ipv6 S db0 d)
                            (ap (λ (q : Result (OfferMessage floats) × S.Db). q.1) e6) renewed
