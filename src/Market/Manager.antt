-- ===== src/Market/Manager.antt =====
-- `OfferManager` of models/offer.py over the storage, and the offers that the two kinds of purchase take.
use esdx_scion.Base.{
  ℕ, zero, suc, ◌≡◌, refl, sym, ap, ◌∙◌, Bool, true, false, Option, none, some, List, [], ◌∷◌, ◌++◌,
  Result, ok, err, does_not_exist, runtime_error, or_raise, ◌>>=◌, bind_inv, guard_inv,
  ok-injective, Option-cases, inl, inr, or_raise_inv, some-injective, subst,
}
use esdx_scion.Base.Int.{ℤ, pos, negsuc}
use esdx_scion.Serialize.{Floats}
use esdx_scion.Market.Offer.{Offer}
use esdx_scion.Market.Order.{Contract}
use esdx_scion.Market.Service.{Queries}
use esdx_scion.Market.Derived.{Rows, get_available, get_derived, walk, EndsAt}
use esdx_scion.Market.Storage.{Storage}

abbrev pub is_some : {A : Type 0} → Option A → Bool
is_some none = false
is_some (some a) = true

module _ {F : Type 0} (S : Storage F) where
  -- the rows of offers, as the queries of their manager find them
  abbrev pub rows_of : S.Db → Rows F
  rows_of db = record {
    by_id = S.by_id db;
    deprecated_by = S.deprecated_by db;
    is_sold = λ j. is_some (S.order_of db j);
  }

  -- `self.filter(deprecated_by=None, id=…)`
  unfoldable pub available_with : S.Db → ℤ → List (Offer F)
  available_with db (negsuc n) = []
  available_with db (pos n) = elim (S.by_id db n) [
    | none ↦ []
    | some o ↦ elim (S.deprecated_by db n) [ none ↦ o ∷ [] | some _ ↦ [] ]
  ]

  -- `self.filter(deprecated_by=None)`, of the keys below a number
  unfoldable pub available_below : S.Db → ℕ → List (Offer F)
  available_below db zero = []
  available_below db (suc n) = available_below db n ++ available_with db (pos n)

  -- the offers that `Purchase` takes for a key: the one that is available, twice
  unfoldable pub purchase_getter : ℤ → S.Db → Result (Offer F × Offer F)
  purchase_getter id db = do o ← get_available (available_with db id); ok (o, o)

  -- the offers that `PurchaseEquivalent` takes: the exact one, and the available one derived from it
  unfoldable pub equivalent_getter : ℤ → S.Db → Result (Offer F × Offer F)
  equivalent_getter (negsuc n) db = err does_not_exist
  equivalent_getter (pos id) db = do
    (exact, avail) ← get_derived (rows_of db) (S.size db) id
    exact_offer ← or_raise (S.by_id db exact) does_not_exist
    avail_offer ← or_raise (S.by_id db avail) does_not_exist
    ok (exact_offer, avail_offer)

  -- An offer that is in the tables and that nothing deprecates.
  abbrev pub IsAvailable : S.Db → ℕ → Offer F → Type 0
  IsAvailable db n o = (S.by_id db n ≡ some o) × (S.deprecated_by db n ≡ none)

  available_with_inv :
      (db : S.Db) (n : ℕ) (a : Offer F)
      → get_available (available_with db (pos n)) ≡ ok a
      → IsAvailable db n a
  unfolding available_with get_available
  available_with_inv db n a e = elim (Option-cases (S.by_id db n)) [
    | inl h ↦ absurd (cc (rw (get_available, available_with, h) at e))
    | inr (o, h) ↦ elim (Option-cases (S.deprecated_by db n)) [
      | inl l ↦ (h ∙ ap some (ok-injective (rw (get_available, available_with, h, l) at e)), l)
      | inr (k, l) ↦ absurd (cc (rw (get_available, available_with, h, l) at e))
    ]
  ]

  -- `Purchase` takes the available offer that was asked for, twice.
  pub purchase_getter_inv :
      (id : ℤ) (db : S.Db) (r a : Offer F)
      → purchase_getter id db ≡ ok (r, a)
      → (n : ℕ) × (id ≡ pos n) × (r ≡ a) × IsAvailable db n a
  unfolding purchase_getter available_with get_available
  purchase_getter_inv (negsuc n) db r a e = absurd (cc)
  purchase_getter_inv (pos n) db r a e =
      bind_inv (get_available (available_with db (pos n))) _ e λ o found same. (
        n,
        refl,
        sym (ap (λ (p : Offer F × Offer F). p.0) (ok-injective same))
            ∙ ap (λ (p : Offer F × Offer F). p.1) (ok-injective same),
        available_with_inv db n a
            (found ∙ ap (λ (p : Offer F × Offer F). ok p.1) (ok-injective same)),
      )

  -- The walk of `get_derived` ends where the chain ends.
  walk-EndsAt :
      (deprecated_by : ℕ → Option ℕ) (fuel id last : ℕ)
      → walk deprecated_by fuel id ≡ some last
      → EndsAt deprecated_by last id
  unfolding walk
  walk-EndsAt deprecated_by zero id last e = absurd (cc)
  walk-EndsAt deprecated_by (suc fuel) id last e = elim (Option-cases (deprecated_by id)) [
    | inl h ↦
        subst (λ (j : ℕ). EndsAt deprecated_by j id) (some-injective (rw (walk, h) at e))
          (EndsAt.at_end h)
    | inr (k, h) ↦ EndsAt.later id k h (walk-EndsAt deprecated_by fuel k last (rw (walk, h) at e))
  ]

  pub EndsAt-none :
      {deprecated_by : ℕ → Option ℕ} {last id : ℕ}
      → EndsAt deprecated_by last id
      → deprecated_by last ≡ none
  EndsAt-none (EndsAt.at_end e) = e
  EndsAt-none (EndsAt.later id k e ends) = EndsAt-none ends

  pub equivalent_getter_inv :
      (id : ℤ) (db : S.Db) (r a : Offer F)
      → equivalent_getter id db ≡ ok (r, a)
      → (i : ℕ) × (n : ℕ) × (id ≡ pos i)
        × (S.by_id db i ≡ some r)
        × IsAvailable db n a
        × EndsAt (S.deprecated_by db) n i
  unfolding equivalent_getter get_derived
  equivalent_getter_inv (negsuc n) db r a e = absurd (cc)
  equivalent_getter_inv (pos i) db r a e =
      bind_inv (get_derived (rows_of db) (S.size db) i) _ e λ (exact, n) walked e1.
        bind_inv (or_raise (S.by_id db exact) does_not_exist) _ e1 λ o o_lem e2.
          bind_inv (or_raise (S.by_id db n) does_not_exist) _ e2 λ q q_lem e3.
            bind_inv (or_raise (S.by_id db i) does_not_exist) _ walked λ o' o'_lem e4.
              bind_inv (or_raise (walk (S.deprecated_by db) (S.size db) i) runtime_error) _ e4
                λ last walk_lem e5.
                  guard_inv (is_some (S.order_of db last)) does_not_exist _ e5 λ unsold e6.
                    let keys = ok-injective e6 in
                    let exact_lem : i ≡ exact = ap (λ (p : ℕ × ℕ). p.0) keys in
                    let avail_lem : last ≡ n = ap (λ (p : ℕ × ℕ). p.1) keys in
                    let ends =
                      walk-EndsAt (S.deprecated_by db) (S.size db) i last
                        (or_raise_inv _ runtime_error walk_lem) in
                    (
                      i,
                      last,
                      refl,
                      rw exact_lem (or_raise_inv _ does_not_exist o_lem)
                          ∙ ap (λ (p : Offer F × Offer F). some p.0) (ok-injective e3),
                      (
                        rw avail_lem (or_raise_inv _ does_not_exist q_lem)
                            ∙ ap (λ (p : Offer F × Offer F). some p.1) (ok-injective e3),
                        EndsAt-none ends,
                      ),
                      ends,
                    )

module _ (floats : Floats) (S : Storage floats.Float) where
  open floats use {Float}

  -- the offer of the purchase order of a contract, with the contract
  abbrev with_offer : S.Db → Contract → Result (Contract × Offer Float)
  with_offer db contract = do
    id ← or_raise contract.purchase_order.offer_id does_not_exist
    offer ← or_raise (S.by_id db id) does_not_exist
    ok (contract, offer)

  abbrev contract_with_offer : S.Db → ℤ → Result (Contract × Offer Float)
  contract_with_offer db (negsuc n) = err does_not_exist
  contract_with_offer db (pos n) = or_raise (S.contract_by_id db n) does_not_exist >>= with_offer db

  -- the queries of `GetContract`
  abbrev pub queries_of : S.Db → Queries floats
  queries_of db = record { get_as = S.get_as db; contract_by_id = contract_with_offer db }
