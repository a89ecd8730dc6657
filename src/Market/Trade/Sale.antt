-- ===== src/Market/Trade/Sale.antt =====
-- A purchase and a new offer, as changes of the tables.
use esdx_scion.Base.{
  Bool-cases, inl, inr, ℕ, ◌≡◌, refl, sym, subst, ◌∙◌, Bool, true, false, none, some, ok, ◌==◌,
  if◌then◌else◌, some-injective,
}
use esdx_scion.Conversion.Ip.{Ipv6}
use esdx_scion.Serialize.{Floats}
use esdx_scion.Crypto.{Cryptography}
use esdx_scion.Market.Offer.{Offer, pre_save}
use esdx_scion.Market.Offer.Valid.{IsValid, pre_save_iff}
use esdx_scion.Market.Order.{Contract}
use esdx_scion.Market.Storage.{Storage, is_key, IsLawful, OfferInserted, ContractInserted}
use esdx_scion.Market.Purchase.{Purchase, remaining, ordered}
use esdx_scion.Market.Purchase.Done.{Purchased}
use esdx_scion.Market.Trade.Growth.{Growth}
use esdx_scion.Market.Trade.Invariant.{accept, Grown, Replaces}
use esdx_scion.Market.Trade.Kept.{==_self, ==_eq}

pub IsValid-accept :
    (ipv6 : Ipv6) {F : Type 0} (full_clean : Offer F → Bool) (o : Offer F)
    → pre_save ipv6 full_clean o ≡ ok tt
    → IsValid ipv6 accept o
IsValid-accept ipv6 full_clean o e =
    let v = (pre_save_iff ipv6 full_clean o).0 e in
    record {
      clean = refl;
      aware_before = v.aware_before;
      aware_after = v.aware_after;
      profile = v.profile;
      reads = v.reads;
      spans = v.spans;
      template = v.template;
      reads_template = v.reads_template;
    }

if_same : {A : Type 0} (b : Bool) (x : A) → x ≡ (if b then x else x)
if_same true x = refl
if_same false x = refl

module _ (floats : Floats) (crypto : Cryptography) (ipv6 : Ipv6) (S : Storage floats.Float)
    (laws : IsLawful S) where
  open floats use {Float}

  pub inserted-Grown :
      (o : Offer Float) (db db' : S.Db) (key : ℕ)
      → OfferInserted S o db key db'
      → Grown ipv6 S db o key none db'
  inserted-Grown o db db' key i = record {
    newest = i.newest;
    offers = i.offers;
    links = i.links;
    unique = i.unique;
    orders = λ j. i.same_orders j ∙ if_same (is_key o.deprecates j) (S.order_of db j);
    contracts = λ j. i.same_contracts j ∙ if_same (is_key o.deprecates j) (S.contract_of db j);
    contract_ids = λ j c e. i.same_contract_ids j ∙ e;
    same_ases = i.same_ases;
  }

  kept_contract :
      (c : Contract) (db db' : S.Db) (key : ℕ)
      → ContractInserted S c db key db'
      → (j : ℕ) (d : Contract) → S.contract_by_id db j ≡ some d
      → S.contract_by_id db' j ≡ some d
  kept_contract c db db' key i j d e = elim (Bool-cases (key == j)) [
    | inl h ↦ absurd (
        cc
          (sym i.fresh ∙ subst (λ (k : ℕ). S.contract_by_id db k ≡ some d) (sym (==_eq key j h)) e))
    | inr h ↦ rw (i.contract_ids j, h) e
  ]

  module _ (full_clean : S.Db → Offer Float → Bool) (requested available : Offer Float)
      (p : Purchase) (db db' : S.Db) (key : ℕ) (contract : Contract) (rest : Offer Float)
      (done : Purchased floats crypto ipv6 S full_clean requested available p db key contract rest
        db') where
    pub Purchased-Grown :
        Grown ipv6 S db
          (record (remaining available done.new_profile) { signature = done.signature })
          done.rest_key
          (some (ordered available p done.buyer, contract))
          db'
    Purchased-Grown =
        let o =
          laws.insert_order_lem (ordered available p done.buyer) db done.db1 done.order_key
            done.ordered_lem in
        let c = laws.insert_contract_lem contract done.db1 done.db2 key done.contracted.inserted in
        let r =
          laws.insert_offer_lem
            (record (remaining available done.new_profile) { signature = done.signature }) done.db2
            db' done.rest_key done.saved.inserted in
        record {
          newest = λ j q e. r.newest j q (c.same_offers j ∙ (o.same_offers j ∙ e));
          offers = λ j. rw (r.offers j, c.same_offers j, o.same_offers j) refl;
          links = λ j. rw (r.links j, c.same_links j, o.same_links j) refl;
          unique = λ j e. sym (c.same_links j ∙ o.same_links j) ∙ r.unique j e;
          orders = λ j. rw (r.same_orders j, c.same_orders j, o.orders j) refl;
          contracts = λ j.
              rw (r.same_contracts j, c.contracts j, o.same_contracts j, done.contracted.order)
                refl;
          contract_ids = λ j d e.
              r.same_contract_ids j
              ∙ kept_contract contract done.db1 done.db2 key c j d (o.same_contract_ids j ∙ e);
          same_ases = λ ia. r.same_ases ia ∙ (c.same_ases ia ∙ o.same_ases ia);
        }

    -- The offer of the rest differs from the available one in what the purchase sets.
    Purchased-Replaces :
        (n d : ℕ)
        → S.by_id db n ≡ some available
        → available.id ≡ some d
        → Replaces ipv6 S db
            (record (remaining available done.new_profile) { signature = done.signature })
            (some (ordered available p done.buyer, contract))
            d
    Purchased-Replaces n d e own = record {
      old = available;
      old_at =
          subst (λ (j : ℕ). S.by_id db j ≡ some available)
            (some-injective (sym (laws.own_id db n available e) ∙ own)) e;
      copy = refl;
      change = done.bought;
    }

    pub Purchased-Growth :
        (n : ℕ) (db0 : S.Db)
        → S.by_id db n ≡ some available
        → Growth ipv6 S db0 db
        → Growth ipv6 S db0 db'
    Purchased-Growth n db0 e before =
        Growth.grown db db'
          (record (remaining available done.new_profile) { signature = done.signature })
          done.rest_key (some (ordered available p done.buyer, contract)) before Purchased-Grown
          (IsValid-accept ipv6 (full_clean done.db2) _ done.saved.checked)
          (λ d own. Purchased-Replaces n d e own)

    -- The offer that was sold is deprecated, has the order, and the contract can be found.
    pub Purchased-sold :
        (n : ℕ)
        → S.by_id db n ≡ some available
        → (S.deprecated_by db' n ≡ some done.rest_key)
          × (S.order_of db' n ≡ some (ordered available p done.buyer))
          × (S.contract_of db' n ≡ some contract)
          × (S.by_id db' done.rest_key ≡ some rest)
    Purchased-sold n e =
        let own = laws.own_id db n available e in
        let g = Purchased-Grown in
        (
          rw (g.links n, own, ==_self n) refl,
          rw (g.orders n, own, ==_self n) refl,
          rw (g.contracts n, own, ==_self n) refl,
          rw (g.offers done.rest_key, ==_self done.rest_key, done.rest_lem) refl,
        )

    pub Purchased-found : S.contract_by_id db' key ≡ some contract
    Purchased-found =
        let c = laws.insert_contract_lem contract done.db1 done.db2 key done.contracted.inserted in
        let r =
          laws.insert_offer_lem
            (record (remaining available done.new_profile) { signature = done.signature }) done.db2
            db' done.rest_key done.saved.inserted in
        rw (r.same_contract_ids key, c.contract_ids key, ==_self key) refl
