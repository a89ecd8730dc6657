-- ===== src/Market/Broker.antt =====
-- models/broker.py: the manager, which caches the key and the certificate of the only broker, and the
-- signal that clears the cache before a row is saved or deleted, in the process that does so. Django's
-- `get` is an argument.
pub mod Cache
use esdx_scion.Base.{
  ℕ, ◌≡◌, refl, sym, ap, ◌∙◌, Bool, true, false, Option, none, some, List, [], ◌∷◌, Result, ok, err,
  runtime_error, length, ltb, if◌then◌else◌, ◌>>=◌, Result-cases, Option-cases, inl, inr,
}
use esdx_scion.Text.{Text}
use esdx_scion.Crypto.{Cryptography, load_key, load_certificate}

-- a row of `Broker`
pub record Row : Type 0 where
  pub certificate_pem : Text
  pub key_pem : Text

module _ (crypto : Cryptography) where
  open crypto use {Key, Certificate}

  -- the table, and the two attributes of the manager
  pub record State : Type 0 where
    pub rows : List Row
    pub broker_key : Option Key
    pub broker_cert : Option Certificate

  unfoldable pub clear_cached : State → State
  clear_cached s = record s { broker_key = none; broker_cert = none }

  module _ (django_get : List Row → Result Row) where
    -- `BrokerManager.get`
    unfoldable pub get_broker : List Row → Result Row
    get_broker rows = if ltb 1 (length rows) then err runtime_error else django_get rows

    unfoldable pub load_broker_key : List Row → Result Key
    load_broker_key rows = do row ← get_broker rows; load_key crypto row.key_pem

    unfoldable pub load_broker_certificate : List Row → Result Certificate
    load_broker_certificate rows = do
      row ← get_broker rows
      load_certificate crypto row.certificate_pem

    unfoldable pub get_broker_key : State → Result Key × State
    get_broker_key s = elim s.broker_key [
      | some key ↦ (ok key, s)
      | none ↦ elim (load_broker_key s.rows) [
        | ok key ↦ (ok key, record s { broker_key = some key })
        | err e ↦ (err e, s)
      ]
    ]

    unfoldable pub get_broker_certificate : State → Result Certificate × State
    get_broker_certificate s = elim s.broker_cert [
      | some cert ↦ (ok cert, s)
      | none ↦ elim (load_broker_certificate s.rows) [
        | ok cert ↦ (ok cert, record s { broker_cert = some cert })
        | err e ↦ (err e, s)
      ]
    ]

  -- The table is changed, by this process after its signal or by another process without one.
  abbrev pub change_rows : List Row → State → State
  change_rows rows s = record s { rows = rows }

  -- The states of a process, with the tables that stood since its cache was last empty: it uses the
  -- manager, its signal clears the cache before it saves or deletes a row, and the table is changed at
  -- any time.
  pub data Steps (django_get : List Row → Result Row) : List (List Row) → State → Type 0 where
    start :
        (rows : List Row)
        → Steps django_get
            (rows ∷ [])
            (record { rows = rows; broker_key = none; broker_cert = none })
    key_step :
        (seen : List (List Row)) (s : State)
        → Steps django_get seen s
        → Steps django_get seen (get_broker_key django_get s).1
    certificate_step :
        (seen : List (List Row)) (s : State)
        → Steps django_get seen s
        → Steps django_get seen (get_broker_certificate django_get s).1
    signal_step :
        (seen : List (List Row)) (s : State)
        → Steps django_get seen s
        → Steps django_get (s.rows ∷ []) (clear_cached s)
    change_step :
        (seen : List (List Row)) (s : State) (rows : List Row)
        → Steps django_get seen s
        → Steps django_get (rows ∷ seen) (change_rows rows s)
