-- ===== src/Market/Derived.antt =====
-- `OfferManager.get_available` and `get_derived` of models/offer.py. What the queries find in the
-- database is an argument.
use esdx_scion.Base.{
  ℕ, zero, suc, ◌+◌, ◌<◌, ◌≡◌, refl, Bool, Option, none, some, List, [], ◌∷◌, Result, ok, err,
  does_not_exist, multiple_objects, runtime_error, raise_if, or_raise, ◌>>=◌, ◌>>◌, Option-cases,
  inl, inr, arith,
}
use esdx_scion.Market.Offer.{Offer}

-- The rows: an offer by its primary key, the key of the offer that deprecates one (`deprecated_by`),
-- and whether an offer has a purchase order (`is_sold`).
pub record Rows (F : Type 0) : Type 0 where
  pub by_id : ℕ → Option (Offer F)
  pub deprecated_by : ℕ → Option ℕ
  pub is_sold : ℕ → Bool

-- `get_available` on the offers that the filter finds
unfoldable pub get_available : {F : Type 0} → List (Offer F) → Result (Offer F)
get_available [] = err does_not_exist
get_available (o ∷ []) = ok o
get_available (o ∷ p ∷ l) = err multiple_objects

-- the loop of `get_derived`, on primary keys; `none` if the fuel runs out, which stands for a loop
-- that goes on
unfoldable pub walk : (ℕ → Option ℕ) → ℕ → ℕ → Option ℕ
walk deprecated_by zero avail = none
walk deprecated_by (suc fuel) avail = elim (deprecated_by avail) [
  | none ↦ some avail
  | some successor ↦ walk deprecated_by fuel successor
]

module _ {F : Type 0} where
  -- `get_derived`, with the keys of the exact and of the available offer
  unfoldable pub get_derived : Rows F → ℕ → ℕ → Result (ℕ × ℕ)
  get_derived rows fuel id = do
    _ ← or_raise (rows.by_id id) does_not_exist
    avail ← or_raise (walk rows.deprecated_by fuel id) runtime_error
    raise_if (rows.is_sold avail) does_not_exist
    ok (id, avail)

-- `last` is at the end of the chain of deprecations from an offer.
pub data EndsAt (deprecated_by : ℕ → Option ℕ) (last : ℕ) : ℕ → Type 0 where
  at_end : deprecated_by last ≡ none → EndsAt deprecated_by last last
  later :
      (id successor : ℕ)
      → deprecated_by id ≡ some successor
      → EndsAt deprecated_by last successor
      → EndsAt deprecated_by last id

-- An offer is deprecated by a later one, and all keys are below a bound.
abbrev pub IsAscending : (ℕ → Option ℕ) → ℕ → Type 0
IsAscending deprecated_by bound =
    (id successor : ℕ) → deprecated_by id ≡ some successor → (id < successor) × (successor < bound)

walk_lem :
    (deprecated_by : ℕ → Option ℕ) (bound fuel id : ℕ)
    → IsAscending deprecated_by bound
    → id < bound
    → bound < fuel + id + 1
    → (last : ℕ) × (walk deprecated_by fuel id ≡ some last) × EndsAt deprecated_by last id
unfolding walk
walk_lem deprecated_by bound zero id h l f = absurd (omega arith)
walk_lem deprecated_by bound (suc fuel) id h l f = elim (Option-cases (deprecated_by id)) [
  | inl e ↦ (id, rw (walk, e) refl, at_end e)
  | inr (successor, e) ↦
      let (up, below) = h id successor e in
      let (last, w, ends) = walk_lem deprecated_by bound fuel successor h below (omega arith) in
      (last, rw (walk, e) w, later id successor e ends)
]

-- If offers are deprecated by later offers alone and all keys are below a bound, then from every offer
-- of the database `get_derived` reaches the end of the chain of deprecations with the bound as fuel,
-- and returns its key with the one asked for, or raises DoesNotExist if the end is sold.
pub get_derived-EndsAt :
    {F : Type 0} (rows : Rows F) (bound id : ℕ) (o : Offer F)
    → IsAscending rows.deprecated_by bound
    → id < bound
    → rows.by_id id ≡ some o
    → (last : ℕ) × EndsAt rows.deprecated_by last id
      × (get_derived rows bound id ≡ (raise_if (rows.is_sold last) does_not_exist >> ok (id, last)))
unfolding get_derived
get_derived-EndsAt rows bound id o h l found =
    let (last, w, ends) = walk_lem rows.deprecated_by bound bound id h l (omega arith) in
    (last, ends, rw (found, w) refl)
