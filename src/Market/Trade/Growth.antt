-- ===== src/Market/Trade/Growth.antt =====
-- How the tables grow, offer by offer, and what stays while they do: the abstract view of the calls.
use esdx_scion.Base.{ℕ, ◌≡◌, refl, ◌∙◌, Option, some}
use esdx_scion.Text.{Text}
use esdx_scion.Conversion.Ip.{Ipv6}
use esdx_scion.Market.Offer.{Offer}
use esdx_scion.Market.Offer.Valid.{IsValid}
use esdx_scion.Market.Order.{PurchaseOrder, Contract}
use esdx_scion.Market.Storage.{Storage}
use esdx_scion.Market.Trade.Invariant.{accept, IsMarket, Grown, Replaces}
use esdx_scion.Market.Trade.Kept.{Grown-IsMarket, old_offer, old_link, old_order, linked_sale}

module _ (ipv6 : Ipv6) {F : Type 0} (S : Storage F) where
  -- The tables grew by some valid offers. Each new one took what it must from the one that it deprecates,
  -- if any, which nothing had deprecated before, and which may have been sold with it.
  pub data Growth (db : S.Db) : S.Db → Type 0 where
    same : Growth db db
    grown :
        (db1 db2 : S.Db) (o : Offer F) (key : ℕ) (sale : Option (PurchaseOrder × Contract))
        → Growth db db1
        → Grown ipv6 S db1 o key sale db2
        → IsValid ipv6 accept o
        → ((d : ℕ) → o.deprecates ≡ some d → Replaces ipv6 S db1 o sale d)
        → Growth db db2

  pub Growth-IsMarket : {db db' : S.Db} → IsMarket ipv6 S db → Growth db db' → IsMarket ipv6 S db'
  Growth-IsMarket m Growth.same = m
  Growth-IsMarket m (Growth.grown db1 db2 o key sale before g v r) =
      Grown-IsMarket ipv6 S db1 db2 o key sale g (Growth-IsMarket m before) v r

  pub Growth-link :
      {db db' : S.Db} (j k : ℕ)
      → S.deprecated_by db j ≡ some k
      → Growth db db'
      → S.deprecated_by db' j ≡ some k
  Growth-link j k e Growth.same = e
  Growth-link j k e (Growth.grown db1 db2 o key sale before g v r) =
      old_link ipv6 S db1 db2 o key sale g j k (Growth-link j k e before)

  pub Growth-offer :
      {db db' : S.Db} (j : ℕ) (p : Offer F)
      → S.by_id db j ≡ some p
      → Growth db db'
      → S.by_id db' j ≡ some p
  Growth-offer j p e Growth.same = e
  Growth-offer j p e (Growth.grown db1 db2 o key sale before g v r) =
      old_offer ipv6 S db1 db2 o key sale g j p (Growth-offer j p e before)

  pub Growth-order :
      {db db' : S.Db} (j : ℕ) (po : PurchaseOrder)
      → IsMarket ipv6 S db
      → S.order_of db j ≡ some po
      → Growth db db'
      → S.order_of db' j ≡ some po
  Growth-order j po m e Growth.same = e
  Growth-order j po m e (Growth.grown db1 db2 o key sale before g v r) =
      old_order ipv6 S db1 db2 o key sale g (Growth-IsMarket m before) j po
        (Growth-order j po m e before)

  -- what is known of the sale of an offer that is deprecated does not change
  pub Growth-sold :
      {db db' : S.Db} (j k : ℕ)
      → S.deprecated_by db j ≡ some k
      → Growth db db'
      → (S.order_of db' j ≡ S.order_of db j) × (S.contract_of db' j ≡ S.contract_of db j)
  Growth-sold j k e Growth.same = (refl, refl)
  Growth-sold j k e (Growth.grown db1 db2 o key sale before g v r) =
      let (order, contract) = Growth-sold j k e before in
      let (order', contract') =
        linked_sale ipv6 S db1 db2 o key sale g j k (Growth-link j k e before) in
      (order' ∙ order, contract' ∙ contract)

  pub Growth-contract :
      {db db' : S.Db} (j : ℕ) (c : Contract)
      → S.contract_by_id db j ≡ some c
      → Growth db db'
      → S.contract_by_id db' j ≡ some c
  Growth-contract j c e Growth.same = e
  Growth-contract j c e (Growth.grown db1 db2 o key sale before g v r) =
      g.contract_ids j c (Growth-contract j c e before)

  pub Growth-ases : {db db' : S.Db} (ia : Text) → Growth db db' → S.get_as db' ia ≡ S.get_as db ia
  Growth-ases ia Growth.same = refl
  Growth-ases ia (Growth.grown db1 db2 o key sale before g v r) =
      g.same_ases ia ∙ Growth-ases ia before
