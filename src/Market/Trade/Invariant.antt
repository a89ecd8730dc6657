-- ===== src/Market/Trade/Invariant.antt =====
-- What holds of the tables between calls, and how one new offer keeps it.
use esdx_scion.Base.{ℕ, ◌<◌, ◌≡◌, Bool, true, Option, none, some, ok, ◌==◌, if◌then◌else◌}
use esdx_scion.Text.{Text}
use esdx_scion.Conversion.Ip.{Ipv6}
use esdx_scion.Market.Offer.{Offer, purchase}
use esdx_scion.Market.Offer.Valid.{IsValid}
use esdx_scion.Market.Order.{PurchaseOrder, Contract}
use esdx_scion.Market.Storage.{Storage, is_key}

module _ {F : Type 0} where
  -- any offer, for the validators of fields
  abbrev pub accept : Offer F → Bool
  accept o = true

  -- How the profile of an offer came out of that of the offer that it deprecates: it is the same, or if
  -- there is an order for that one, it is the rest of the purchase.
  abbrev pub Change : Option PurchaseOrder → Offer F → Offer F → Type 0
  Change none o p = p.bw_profile ≡ o.bw_profile
  Change (some po) o p = purchase o po.bw_profile po.starting_on ≡ ok (some p.bw_profile)

  -- Two offers agree in what a sale leaves alone.
  abbrev pub IsCopy : Offer F → Offer F → Type 0
  IsCopy o p = p ≡ record o {
    id = p.id;
    signature = p.signature;
    bw_profile = p.bw_profile;
    deprecates = p.deprecates;
  }

module _ (ipv6 : Ipv6) {F : Type 0} (S : Storage F) where
  -- the offer `i` is deprecated by the later offer `k`
  pub record Link (db : S.Db) (i k : ℕ) : Type 0 where
    pub old : Offer F
    pub new : Offer F
    pub old_at : S.by_id db i ≡ some old
    pub new_at : S.by_id db k ≡ some new
    pub up : i < k
    pub copy : IsCopy old new
    pub change : Change (S.order_of db i) old new

  -- Deprecated offers are linked to what replaced them, a sold offer is deprecated and has a contract,
  -- which no other offer has, and all offers are valid.
  pub record IsMarket (db : S.Db) : Type 0 where
    pub linked : (i k : ℕ) → S.deprecated_by db i ≡ some k → Link db i k
    pub sold_deprecated :
        (i : ℕ) (po : PurchaseOrder)
        → S.order_of db i ≡ some po
        → (k : ℕ) × (S.deprecated_by db i ≡ some k)
    pub sold_contract :
        (i : ℕ) (po : PurchaseOrder)
        → S.order_of db i ≡ some po
        → (c : Contract) × (S.contract_of db i ≡ some c)
    pub unsold_contract : (i : ℕ) → S.order_of db i ≡ none → S.contract_of db i ≡ none
    pub valid : (i : ℕ) (o : Offer F) → S.by_id db i ≡ some o → IsValid ipv6 accept o

  abbrev pub sold_order :
      Option (PurchaseOrder × Contract) → Option PurchaseOrder → Option PurchaseOrder
  sold_order none old = old
  sold_order (some (po, c)) old = some po

  abbrev pub sold_contract_of :
      Option (PurchaseOrder × Contract) → Option Contract → Option Contract
  sold_contract_of none old = old
  sold_contract_of (some (po, c)) old = some c

  -- One offer is new. If it deprecates another one, that one may have been sold with it.
  pub record Grown (db : S.Db) (o : Offer F) (key : ℕ) (sale : Option (PurchaseOrder × Contract))
      (db' : S.Db) : Type 0 where
    pub newest : (j : ℕ) (p : Offer F) → S.by_id db j ≡ some p → j < key
    pub offers :
        (j : ℕ)
        → S.by_id db' j ≡ (if key == j then some (record o { id = some key }) else S.by_id db j)
    pub links :
        (j : ℕ)
        → S.deprecated_by db' j ≡ (if is_key o.deprecates j then some key else S.deprecated_by db j)
    pub unique : (j : ℕ) → o.deprecates ≡ some j → S.deprecated_by db j ≡ none
    pub orders :
        (j : ℕ)
        → S.order_of db' j
          ≡ (if is_key o.deprecates j then sold_order sale (S.order_of db j) else S.order_of db j)
    pub contracts :
        (j : ℕ)
        → S.contract_of db' j ≡ (
            if is_key o.deprecates j
            then sold_contract_of sale (S.contract_of db j)
            else S.contract_of db j)
    pub contract_ids :
        (j : ℕ) (c : Contract) → S.contract_by_id db j ≡ some c → S.contract_by_id db' j ≡ some c
    pub same_ases : (ia : Text) → S.get_as db' ia ≡ S.get_as db ia

  -- what the new offer takes from the one that it deprecates
  pub record Replaces (db : S.Db) (o : Offer F) (sale : Option (PurchaseOrder × Contract)) (d : ℕ)
      : Type 0 where
    pub old : Offer F
    pub old_at : S.by_id db d ≡ some old
    pub copy : IsCopy old o
    pub change : Change (sold_order sale none) old o
