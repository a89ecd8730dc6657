-- ===== src/Market/Storage/Memory.antt =====
-- A store in memory, which has the laws of the interface.
use esdx_scion.Base.{
  ℕ, suc, ◌≡◌, refl, sym, ap, Bool, true, false, ◌&&◌, Option, none, some, Result, ok, err,
  integrity_error, does_not_exist, ltb, ◌==◌, if◌then◌else◌, arith, Bool-cases, inl, inr,
  ok-injective, subst,
}
use esdx_scion.Text.{Text}
use esdx_scion.Dict.{Dict, get}
use esdx_scion.Market.Offer.{Offer}
use esdx_scion.Market.Order.{As, PurchaseOrder, Contract}
use esdx_scion.Market.Storage.{
  IsComplete, is_key, Storage, OfferInserted, OrderInserted, ContractInserted, IsLawful,
}

-- Keys count up from 0; what the functions say from the next key on is not in the tables.
pub record Tables (F : Type 0) : Type 0 where
  pub ases : Dict As
  pub offers : ℕ → Offer F
  pub next_offer : ℕ
  pub links : ℕ → Option ℕ
  pub orders : ℕ → Option PurchaseOrder
  pub contracts : ℕ → Option Contract
  pub contract_ids : ℕ → Option Contract
  pub next_contract : ℕ

both : (a b : Bool) → (a && b) ≡ true → (a ≡ true) × (b ≡ true)
both true b h = (refl, h)
both false b h = cc

abbrev is_none : {A : Type 0} → Option A → Bool
is_none none = true
is_none (some a) = false

is_none-eq : {A : Type 0} (a : Option A) → is_none a ≡ true → a ≡ none
is_none-eq none h = refl
is_none-eq (some a) h = cc

module _ {F : Type 0} where
  -- the offer of a foreign key is there, and the one-to-one field is not used for it
  abbrev pub free_parent : Option ℕ → Tables F → Bool
  free_parent none t = true
  free_parent (some j) t = ltb j t.next_offer && is_none (t.links j)

  abbrev unsold : Option ℕ → Tables F → Bool
  unsold none t = false
  unsold (some j) t = ltb j t.next_offer && is_none (t.orders j)

  abbrev row : Tables F → ℕ → Option (Offer F)
  row t j = if ltb j t.next_offer then some (record (t.offers j) { id = some j }) else none

  abbrev pub put_offer : Offer F → Tables F → Result (ℕ × Tables F)
  put_offer o t =
      if free_parent o.deprecates t
      then ok (
        t.next_offer,
        record t {
          offers = λ j. if t.next_offer == j then o else t.offers j;
          next_offer = suc t.next_offer;
          links = λ j. if is_key o.deprecates j then some t.next_offer else t.links j;
        },
      )
      else err integrity_error

  abbrev pub add_order : PurchaseOrder → Tables F → Result (ℕ × Tables F)
  add_order po t =
      if unsold po.offer_id t
      then ok (0, record t { orders = λ j. if is_key po.offer_id j then some po else t.orders j })
      else err integrity_error

  abbrev pub add_contract : Contract → Tables F → Result (ℕ × Tables F)
  add_contract c t = ok (
    t.next_contract,
    record t {
      contracts = λ j. if is_key c.purchase_order.offer_id j then some c else t.contracts j;
      contract_ids = λ j. if t.next_contract == j then some c else t.contract_ids j;
      next_contract = suc t.next_contract;
    },
  )

taken : {A : Type 0} {a : A} (r : Result A) (b : Bool) → b ≡ true → (if b then ok a else r) ≡ ok a
taken r true h = refl
taken r false h = absurd (cc)

-- an AS under its identifier
abbrev named : Text → Option As → Result As
named ia none = err does_not_exist
named ia (some a) = ok (record a { iaid = ia })

abbrev pub memory : (F : Type 0) → Storage F
memory F = record {
  Db = Tables F;
  get_as = λ t ia. named ia (get ia t.ases);
  by_id = λ t j. row t j;
  deprecated_by = λ t j. t.links j;
  order_of = λ t j. t.orders j;
  contract_of = λ t j. t.contracts j;
  contract_by_id = λ t j. if ltb j t.next_contract then t.contract_ids j else none;
  insert_offer = put_offer;
  insert_order = add_order;
  insert_contract = add_contract;
  size = λ t. t.next_offer;
}

module _ {F : Type 0} where
  added_offer :
      (o : Offer F) (t : Tables F)
      → free_parent o.deprecates t ≡ true
      → OfferInserted (memory F) o t t.next_offer (record t {
        offers = λ j. if t.next_offer == j then o else t.offers j;
        next_offer = suc t.next_offer;
        links = λ j. if is_key o.deprecates j then some t.next_offer else t.links j;
      })
  added_offer o t h = record {
    newest = λ j p e. ground arith;
    offers = λ j. ground arith;
    links = λ j. refl;
    unique = λ j e. is_none-eq (t.links j) (both _ _ (rw e at h)).1;
    refers = λ j e. (
      record (t.offers j) { id = some j },
      rw (both (ltb j t.next_offer) (is_none (t.links j)) (rw e at h)).0 refl,
    );
    same_orders = λ j. refl;
    same_contracts = λ j. refl;
    same_contract_ids = λ j. refl;
    same_ases = λ ia. refl;
  }

  added_order :
      (po : PurchaseOrder) (t : Tables F)
      → unsold po.offer_id t ≡ true
      → OrderInserted
          (memory F)
          po
          t
          (record t { orders = λ j. if is_key po.offer_id j then some po else t.orders j })
  added_order po t h = record {
    orders = λ j. refl;
    unique = λ j e. is_none-eq (t.orders j) (both _ _ (rw e at h)).1;
    same_offers = λ j. refl;
    same_links = λ j. refl;
    same_contracts = λ j. refl;
    same_contract_ids = λ j. refl;
    same_ases = λ ia. refl;
  }

  added_contract :
      (c : Contract) (t : Tables F)
      → ContractInserted (memory F) c t t.next_contract (record t {
        contracts = λ j. if is_key c.purchase_order.offer_id j then some c else t.contracts j;
        contract_ids = λ j. if t.next_contract == j then some c else t.contract_ids j;
        next_contract = suc t.next_contract;
      })
  added_contract c t = record {
    contracts = λ j. refl;
    fresh = ground arith;
    contract_ids = λ j. ground arith;
    same_offers = λ j. refl;
    same_links = λ j. refl;
    same_orders = λ j. refl;
    same_ases = λ ia. refl;
  }

  memory_offer :
      (o : Offer F) (db db' : Tables F) (key : ℕ)
      → put_offer o db ≡ ok (key, db')
      → OfferInserted (memory F) o db key db'
  memory_offer o db db' key e = elim (Bool-cases (free_parent o.deprecates db)) [
    | inl h ↦
        let same = ok-injective (rw h at e) in
        subst (λ (p : ℕ × Tables F). OfferInserted (memory F) o db p.0 p.1) same
          (added_offer o db h)
    | inr h ↦ absurd (cc (rw h at e))
  ]

  memory_order :
      (po : PurchaseOrder) (db db' : Tables F) (key : ℕ)
      → add_order po db ≡ ok (key, db')
      → OrderInserted (memory F) po db db'
  memory_order po db db' key e = elim (Bool-cases (unsold po.offer_id db)) [
    | inl h ↦
        let same = ok-injective (rw h at e) in
        subst (λ (p : ℕ × Tables F). OrderInserted (memory F) po db p.1) same (added_order po db h)
    | inr h ↦ absurd (cc (rw h at e))
  ]

  memory_contract :
      (c : Contract) (db db' : Tables F) (key : ℕ)
      → add_contract c db ≡ ok (key, db')
      → ContractInserted (memory F) c db key db'
  memory_contract c db db' key e =
      subst (λ (p : ℕ × Tables F). ContractInserted (memory F) c db p.0 p.1) (ok-injective e)
        (added_contract c db)

  abbrev id_of : Option (Offer F) → Option ℕ
  id_of none = none
  id_of (some o) = o.id

  row-id : (t : Tables F) (j : ℕ) (o : Offer F) → row t j ≡ some o → o.id ≡ some j
  row-id t j o e = elim (Bool-cases (ltb j t.next_offer)) [
    | inl h ↦ sym (ap id_of (rw h at e))
    | inr h ↦ absurd (cc (rw h at e))
  ]

  pub memory-IsLawful : IsLawful (memory F)
  memory-IsLawful = record {
    own_id = row-id;
    below_size = λ t j o e. ground arith;
    insert_offer_lem = memory_offer;
    insert_order_lem = memory_order;
    insert_contract_lem = memory_contract;
  }

  pub row_below :
      (t : Tables F) (j : ℕ) (o : Offer F) → row t j ≡ some o → ltb j t.next_offer ≡ true
  row_below t j o e = elim (Bool-cases (ltb j t.next_offer)) [
    | inl h ↦ h
    | inr h ↦ absurd (cc (rw h at e))
  ]

  pub memory-IsComplete : IsComplete (memory F)
  memory-IsComplete = record {
    order_ok = λ po t j o key at unsold_lem.
        (_, _, taken _ (unsold po.offer_id t) (rw (key, row_below t j o at, unsold_lem) refl));
    contract_ok = λ c t j po key at none_yet. (_, _, refl);
    offer_ok = λ o t j p key at free_lem.
        (_, _, taken _ (free_parent o.deprecates t) (rw (key, row_below t j p at, free_lem) refl));
  }
