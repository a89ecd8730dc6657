-- ===== src/Tests/Manager.antt =====
-- The theorems on the managers of the models.
use esdx_scion.Base.{
  ℕ, ◌≡◌, refl, Option, some, none, List, [], ◌∷◌, Result, ok, err, does_not_exist, raise_if, arith,
  ◌>>◌, ◌==◌, if◌then◌else◌, Bool-cases, inl, inr,
}
use esdx_scion.Text.{codes, encode_ascii}
use esdx_scion.Crypto.{load_key}
use esdx_scion.Market.Derived.{Rows, get_derived, EndsAt, IsAscending, get_derived-EndsAt}
use esdx_scion.Market.Broker.{
  Row, State, load_broker_key, load_broker_certificate, get_broker_key, get_broker_certificate,
  get_broker, clear_cached, change_rows, Steps, key_step, signal_step, change_step,
}
use esdx_scion.Market.Broker.Cache.{Loaded, get_broker_key-Steps}
use esdx_scion.Tests.Data.{three_periods, plain_crypto}

-- the offer 1 is deprecated by the offer 2, which is on sale
abbrev two_offers : ℕ → Option ℕ
two_offers id = if id == 1 then some 2 else none

ascending : IsAscending two_offers 3
ascending id successor e = elim (Bool-cases (id == 1)) [
  | inl h ↦ let two : 2 ≡ successor = cc (rw h at e) in (ground (arith, two), ground (arith, two))
  | inr h ↦ absurd (cc (rw h at e))
]

abbrev rows : Rows ℕ
rows = record {
  by_id = λ id. some three_periods;
  deprecated_by = two_offers;
  is_sold = λ id. id == 1;
}

get_derived-EndsAt_example :
    (last : ℕ) × EndsAt two_offers last 1
    × (get_derived rows 3 1 ≡ (raise_if (last == 1) does_not_exist >> ok (1, last)))
get_derived-EndsAt_example = get_derived-EndsAt rows 3 1 three_periods ascending (omega arith) refl

abbrev first : List Row → Result Row
first [] = err does_not_exist
first (row ∷ rest) = ok row

abbrev old_row : Row
old_row = record { certificate_pem = codes "old"; key_pem = codes "old key" }

abbrev new_row : Row
new_row = record { certificate_pem = codes "new"; key_pem = codes "new key" }

abbrev first_state : State plain_crypto
first_state = record { rows = old_row ∷ []; broker_key = none; broker_cert = none }

abbrev cached : State plain_crypto
cached = (get_broker_key plain_crypto first first_state).1

abbrev cleared : State plain_crypto
cleared = clear_cached plain_crypto cached

abbrev replaced : State plain_crypto
replaced = change_rows plain_crypto (new_row ∷ []) cleared

abbrev seen : List (List Row)
seen = (new_row ∷ []) ∷ (old_row ∷ []) ∷ []

get_broker_key-Steps_example :
    Loaded plain_crypto first
      (load_broker_key plain_crypto first)
      seen
      (get_broker_key plain_crypto first replaced).0
    × Loaded plain_crypto first
        (load_broker_certificate plain_crypto first)
        seen
        (get_broker_certificate plain_crypto first replaced).0
    × ((table : List Row)
        → seen ≡ table ∷ []
        → (replaced.rows ≡ table)
          × ((get_broker_key plain_crypto first replaced).0
              ≡ load_broker_key plain_crypto first table)
          × ((get_broker_certificate plain_crypto first replaced).0
              ≡ load_broker_certificate plain_crypto first table))
unfolding get_broker_key load_broker_key get_broker load_key encode_ascii
get_broker_key-Steps_example = get_broker_key-Steps plain_crypto first seen replaced (
    change_step (cached.rows ∷ []) cleared (new_row ∷ []) (
      signal_step ((old_row ∷ []) ∷ []) cached
        (key_step ((old_row ∷ []) ∷ []) first_state (Steps.start (old_row ∷ [])))))
