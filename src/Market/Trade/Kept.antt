-- ===== src/Market/Trade/Kept.antt =====
-- How one new offer keeps the invariant of the tables.
use esdx_scion.Base.{
  ℕ, ◌<◌, ◌≡◌, refl, sym, ap, subst, ◌∙◌, inl, inr, true, false, Option, none, some, Bool-cases,
  Option-cases, ◌==◌, arith, some-injective,
}
use esdx_scion.Conversion.Ip.{Ipv6}
use esdx_scion.Market.Offer.{Offer}
use esdx_scion.Market.Offer.Valid.{IsValid}
use esdx_scion.Market.Order.{PurchaseOrder, Contract}
use esdx_scion.Market.Storage.{Storage, is_key}
use esdx_scion.Market.Trade.Invariant.{
  accept, Change, Link, IsMarket, sold_order, sold_contract_of, Grown, Replaces,
}

is_key-eq : (k : Option ℕ) (j : ℕ) → is_key k j ≡ true → k ≡ some j
is_key-eq none j h = cc
is_key-eq (some i) j h = ap some (ground arith)

pub ==_self : (j : ℕ) → (j == j) ≡ true
==_self j = ground arith

pub ==_eq : (i j : ℕ) → (i == j) ≡ true → i ≡ j
==_eq i j h = ground arith

eq-is_key : (k : Option ℕ) (j : ℕ) → k ≡ some j → is_key k j ≡ true
eq-is_key none j h = cc
eq-is_key (some i) j h = let e : i ≡ j = cc in rw e (==_self j)

-- the key of an offer plays no part in these
Change-id :
    {F : Type 0} (order : Option PurchaseOrder) (o p : Offer F) (key : ℕ)
    → Change order o p
    → Change order o (record p { id = some key })
Change-id none o p key h = h
Change-id (some po) o p key h = h

pub IsValid-id :
    (ipv6 : Ipv6) {F : Type 0} (o : Offer F) (key : ℕ)
    → IsValid ipv6 accept o
    → IsValid ipv6 accept (record o { id = some key })
IsValid-id ipv6 o key v = record {
  clean = refl;
  aware_before = v.aware_before;
  aware_after = v.aware_after;
  profile = v.profile;
  reads = v.reads;
  spans = v.spans;
  template = v.template;
  reads_template = v.reads_template;
}

module _ (ipv6 : Ipv6) {F : Type 0} (S : Storage F) where
  sale_contract :
      (sale : Option (PurchaseOrder × Contract)) (old : Option Contract) (po : PurchaseOrder)
      → sold_order ipv6 S sale none ≡ some po
      → (c : Contract) × (sold_contract_of ipv6 S sale old ≡ some c)
  sale_contract none old po e = absurd (cc)
  sale_contract (some (po', c)) old po e = (c, refl)

  -- an old key is not the new one
  old_key : (key j : ℕ) → j < key → (key == j) ≡ false
  old_key key j h = ground arith

  module _ (db db' : S.Db) (o : Offer F) (key : ℕ) (sale : Option (PurchaseOrder × Contract))
      (g : Grown ipv6 S db o key sale db') where
    pub old_offer : (j : ℕ) (p : Offer F) → S.by_id db j ≡ some p → S.by_id db' j ≡ some p
    old_offer j p e = rw (g.offers j, old_key key j (g.newest j p e)) e

    pub new_offer : S.by_id db' key ≡ some (record o { id = some key })
    new_offer = rw (g.offers key, ==_self key) refl

    -- the only link that is new is from an offer that had none
    pub old_link : (j k : ℕ) → S.deprecated_by db j ≡ some k → S.deprecated_by db' j ≡ some k
    old_link j k e = elim (Bool-cases (is_key o.deprecates j)) [
      | inl h ↦ absurd (cc (sym e ∙ g.unique j (is_key-eq o.deprecates j h)))
      | inr h ↦ rw (g.links j, h) e
    ]

    pub linked_sale :
        (j k : ℕ)
        → S.deprecated_by db j ≡ some k
        → (S.order_of db' j ≡ S.order_of db j) × (S.contract_of db' j ≡ S.contract_of db j)
    linked_sale j k e = elim (Bool-cases (is_key o.deprecates j)) [
      | inl h ↦ absurd (cc (sym e ∙ g.unique j (is_key-eq o.deprecates j h)))
      | inr h ↦ (rw (g.orders j, h) refl, rw (g.contracts j, h) refl)
    ]

    -- an offer that was sold before is not the one that is replaced
    not_replaced :
        (m : IsMarket ipv6 S db) (i : ℕ) (po : PurchaseOrder)
        → S.order_of db i ≡ some po
        → is_key o.deprecates i ≡ false
    not_replaced m i po e = elim (Bool-cases (is_key o.deprecates i)) [
      | inr h ↦ h
      | inl h ↦
          let (k, l) = m.sold_deprecated i po e in
          absurd (cc (sym l ∙ g.unique i (is_key-eq o.deprecates i h)))
    ]

    pub old_order :
        (m : IsMarket ipv6 S db) (j : ℕ) (po : PurchaseOrder)
        → S.order_of db j ≡ some po
        → S.order_of db' j ≡ some po
    old_order m j po e = rw (g.orders j, not_replaced m j po e) e

    Link-old : (i k : ℕ) → is_key o.deprecates i ≡ false → Link ipv6 S db i k → Link ipv6 S db' i k
    Link-old i k h l = record {
      old = l.old;
      new = l.new;
      old_at = old_offer i l.old l.old_at;
      new_at = old_offer k l.new l.new_at;
      up = l.up;
      copy = l.copy;
      change = rw (g.orders i, h) l.change;
    }

    unsold_before :
        (m : IsMarket ipv6 S db) (i : ℕ) → is_key o.deprecates i ≡ true → S.order_of db i ≡ none
    unsold_before m i h = elim (Option-cases (S.order_of db i)) [
      | inl e ↦ e
      | inr (po, e) ↦ absurd (cc (sym h ∙ not_replaced m i po e))
    ]

    Link-new :
        (m : IsMarket ipv6 S db) (d : ℕ)
        → is_key o.deprecates d ≡ true
        → Replaces ipv6 S db o sale d
        → Link ipv6 S db' d key
    Link-new m d h r = record {
      old = r.old;
      new = record o { id = some key };
      old_at = old_offer d r.old r.old_at;
      new_at = new_offer;
      up = g.newest d r.old r.old_at;
      copy = ap (λ (p : Offer F). record p { id = some key }) r.copy;
      change =
          rw (g.orders d, h, unsold_before m d h)
            (Change-id (sold_order ipv6 S sale none) r.old o key r.change);
    }

    grown-Link :
        IsMarket ipv6 S db
        → ((d : ℕ) → o.deprecates ≡ some d → Replaces ipv6 S db o sale d)
        → (i k : ℕ) → S.deprecated_by db' i ≡ some k
        → Link ipv6 S db' i k
    grown-Link m r i k e = elim (Bool-cases (is_key o.deprecates i)) [
      | inl h ↦
          subst (λ (j : ℕ). Link ipv6 S db' i j) (some-injective (rw (g.links i, h) at e))
            (Link-new m i h (r i (is_key-eq o.deprecates i h)))
      | inr h ↦ Link-old i k h (m.linked i k (rw (g.links i, h) at e))
    ]

    still_deprecated :
        (m : IsMarket ipv6 S db) (i : ℕ) (po : PurchaseOrder)
        → S.order_of db' i ≡ some po
        → (k : ℕ) × (S.deprecated_by db' i ≡ some k)
    still_deprecated m i po e = elim (Bool-cases (is_key o.deprecates i)) [
      | inl h ↦ (key, rw (g.links i, h) refl)
      | inr h ↦
          let (k, l) = m.sold_deprecated i po (rw (g.orders i, h) at e) in (k, rw (g.links i, h) l)
    ]

    still_contract :
        (m : IsMarket ipv6 S db) (i : ℕ) (po : PurchaseOrder)
        → S.order_of db' i ≡ some po
        → (c : Contract) × (S.contract_of db' i ≡ some c)
    still_contract m i po e = elim (Bool-cases (is_key o.deprecates i)) [
      | inl h ↦
          let (c, l) =
            sale_contract sale (S.contract_of db i) po
              (rw (g.orders i, h, unsold_before m i h) at e) in
          (c, rw (g.contracts i, h) l)
      | inr h ↦
          let (c, l) = m.sold_contract i po (rw (g.orders i, h) at e) in
          (c, rw (g.contracts i, h) l)
    ]

    unsold_old :
        (s : Option (PurchaseOrder × Contract)) (old : Option PurchaseOrder)
        → sold_order ipv6 S s old ≡ none
        → (s ≡ none) × (old ≡ none)
    unsold_old none old e = (refl, e)
    unsold_old (some (po, c)) old e = absurd (cc)

    still_unsold :
        (m : IsMarket ipv6 S db) (i : ℕ) → S.order_of db' i ≡ none → S.contract_of db' i ≡ none
    still_unsold m i e = elim (Bool-cases (is_key o.deprecates i)) [
      | inl h ↦
          let (no_sale, old) = unsold_old sale (S.order_of db i) (rw (g.orders i, h) at e) in
          rw (g.contracts i, h, no_sale) (m.unsold_contract i old)
      | inr h ↦ rw (g.contracts i, h) (m.unsold_contract i (rw (g.orders i, h) at e))
    ]

    grown-IsValid :
        (m : IsMarket ipv6 S db) (i : ℕ) (p : Offer F)
        → IsValid ipv6 accept o
        → S.by_id db' i ≡ some p
        → IsValid ipv6 accept p
    grown-IsValid m i p v e = elim (Bool-cases (key == i)) [
      | inl h ↦
          subst (λ (q : Offer F). IsValid ipv6 accept q) (some-injective (rw (g.offers i, h) at e))
            (IsValid-id ipv6 o key v)
      | inr h ↦ m.valid i p (rw (g.offers i, h) at e)
    ]

    -- one new valid offer that takes what it must from the one it deprecates keeps the invariant
    pub Grown-IsMarket :
        IsMarket ipv6 S db
        → IsValid ipv6 accept o
        → ((d : ℕ) → o.deprecates ≡ some d → Replaces ipv6 S db o sale d)
        → IsMarket ipv6 S db'
    Grown-IsMarket m v r = record {
      linked = λ i k e. grown-Link m r i k e;
      sold_deprecated = still_deprecated m;
      sold_contract = still_contract m;
      unsold_contract = still_unsold m;
      valid = λ i p e. grown-IsValid m i p v e;
    }
