-- ===== src/Market/Storage.antt =====
-- The tables of the models as Django's object-relational mapper gives them: an interface of queries and
-- inserts, with what Django and the database document of them.
pub mod Memory
use esdx_scion.Base.{
  ℕ, ◌<◌, ◌≡◌, Bool, true, false, Option, none, some, Result, ok, ◌==◌, if◌then◌else◌,
}
use esdx_scion.Text.{Text}
use esdx_scion.Market.Offer.{Offer}
use esdx_scion.Market.Order.{As, PurchaseOrder, Contract}

-- A key of an offer is the one in a foreign key.
abbrev pub is_key : Option ℕ → ℕ → Bool
is_key none j = false
is_key (some i) j = i == j

pub record Storage (F : Type 0) : Type 1 where
  pub Db : Type 0
  -- `AS.objects.get(iaid=…)`, which compares as the collation of the database does
  pub get_as : Db → Text → Result As
  -- the offer with a primary key
  pub by_id : Db → ℕ → Option (Offer F)
  -- the reverse of the one-to-one field `deprecates`: the key of the offer that deprecates one
  pub deprecated_by : Db → ℕ → Option ℕ
  -- the reverse of the one-to-one field `PurchaseOrder.offer`: the order of an offer, by its key
  pub order_of : Db → ℕ → Option PurchaseOrder
  -- the contract of the order of an offer
  pub contract_of : Db → ℕ → Option Contract
  -- `Contract.objects.get(id=…)`
  pub contract_by_id : Db → ℕ → Option Contract
  -- the inserts of a row, which give its primary key
  pub insert_offer : Offer F → Db → Result (ℕ × Db)
  pub insert_order : PurchaseOrder → Db → Result (ℕ × Db)
  pub insert_contract : Contract → Db → Result (ℕ × Db)
  -- all keys of offers are below
  pub size : Db → ℕ

module _ {F : Type 0} (S : Storage F) where
  -- An offer was inserted with a new key, which is the largest; the offer that it deprecates, if any,
  -- is there, and nothing else deprecated it.
  pub record OfferInserted (o : Offer F) (db : S.Db) (key : ℕ) (db' : S.Db) : Type 0 where
    pub newest : (j : ℕ) (p : Offer F) → S.by_id db j ≡ some p → j < key
    pub offers :
        (j : ℕ)
        → S.by_id db' j ≡ (if key == j then some (record o { id = some key }) else S.by_id db j)
    pub links :
        (j : ℕ)
        → S.deprecated_by db' j ≡ (if is_key o.deprecates j then some key else S.deprecated_by db j)
    pub unique : (j : ℕ) → o.deprecates ≡ some j → S.deprecated_by db j ≡ none
    pub refers : (j : ℕ) → o.deprecates ≡ some j → (p : Offer F) × (S.by_id db j ≡ some p)
    pub same_orders : (j : ℕ) → S.order_of db' j ≡ S.order_of db j
    pub same_contracts : (j : ℕ) → S.contract_of db' j ≡ S.contract_of db j
    pub same_contract_ids : (j : ℕ) → S.contract_by_id db' j ≡ S.contract_by_id db j
    pub same_ases : (ia : Text) → S.get_as db' ia ≡ S.get_as db ia

  -- An order was inserted for an offer that had none.
  pub record OrderInserted (po : PurchaseOrder) (db : S.Db) (db' : S.Db) : Type 0 where
    pub orders :
        (j : ℕ) → S.order_of db' j ≡ (if is_key po.offer_id j then some po else S.order_of db j)
    pub unique : (j : ℕ) → po.offer_id ≡ some j → S.order_of db j ≡ none
    pub same_offers : (j : ℕ) → S.by_id db' j ≡ S.by_id db j
    pub same_links : (j : ℕ) → S.deprecated_by db' j ≡ S.deprecated_by db j
    pub same_contracts : (j : ℕ) → S.contract_of db' j ≡ S.contract_of db j
    pub same_contract_ids : (j : ℕ) → S.contract_by_id db' j ≡ S.contract_by_id db j
    pub same_ases : (ia : Text) → S.get_as db' ia ≡ S.get_as db ia

  -- A contract was inserted for an order.
  pub record ContractInserted (c : Contract) (db : S.Db) (key : ℕ) (db' : S.Db) : Type 0 where
    pub contracts :
        (j : ℕ)
        → S.contract_of db' j
          ≡ (if is_key c.purchase_order.offer_id j then some c else S.contract_of db j)
    pub fresh : S.contract_by_id db key ≡ none
    pub contract_ids :
        (j : ℕ) → S.contract_by_id db' j ≡ (if key == j then some c else S.contract_by_id db j)
    pub same_offers : (j : ℕ) → S.by_id db' j ≡ S.by_id db j
    pub same_links : (j : ℕ) → S.deprecated_by db' j ≡ S.deprecated_by db j
    pub same_orders : (j : ℕ) → S.order_of db' j ≡ S.order_of db j
    pub same_ases : (ia : Text) → S.get_as db' ia ≡ S.get_as db ia

  pub record IsLawful : Type 0 where
    pub own_id : (db : S.Db) (j : ℕ) (o : Offer F) → S.by_id db j ≡ some o → o.id ≡ some j
    pub below_size : (db : S.Db) (j : ℕ) (o : Offer F) → S.by_id db j ≡ some o → j < S.size db
    pub insert_offer_lem :
        (o : Offer F) (db db' : S.Db) (key : ℕ)
        → S.insert_offer o db ≡ ok (key, db')
        → OfferInserted o db key db'
    pub insert_order_lem :
        (po : PurchaseOrder) (db db' : S.Db) (key : ℕ)
        → S.insert_order po db ≡ ok (key, db')
        → OrderInserted po db db'
    pub insert_contract_lem :
        (c : Contract) (db db' : S.Db) (key : ℕ)
        → S.insert_contract c db ≡ ok (key, db')
        → ContractInserted c db key db'

  -- When the inserts succeed: if the constraints of the tables hold.
  pub record IsComplete : Type 0 where
    pub order_ok :
        (po : PurchaseOrder) (db : S.Db) (j : ℕ) (o : Offer F)
        → po.offer_id ≡ some j
        → S.by_id db j ≡ some o
        → S.order_of db j ≡ none
        → (key : ℕ) × (db' : S.Db) × (S.insert_order po db ≡ ok (key, db'))
    pub contract_ok :
        (c : Contract) (db : S.Db) (j : ℕ) (po : PurchaseOrder)
        → c.purchase_order.offer_id ≡ some j
        → S.order_of db j ≡ some po
        → S.contract_of db j ≡ none
        → (key : ℕ) × (db' : S.Db) × (S.insert_contract c db ≡ ok (key, db'))
    pub offer_ok :
        (o : Offer F) (db : S.Db) (j : ℕ) (p : Offer F)
        → o.deprecates ≡ some j
        → S.by_id db j ≡ some p
        → S.deprecated_by db j ≡ none
        → (key : ℕ) × (db' : S.Db) × (S.insert_offer o db ≡ ok (key, db'))
