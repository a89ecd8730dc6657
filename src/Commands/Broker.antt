-- ===== src/Commands/Broker.antt =====
-- broker.py: removing, creating and exporting the broker. The transaction restores the table alone, and
-- the writing of each of the two files can raise.
pub mod Ended
pub mod Raised
pub mod Outcome
use esdx_scion.Base.{
  ℕ, ◌*◌, ◌+◌, ◌^◌, ◌≤◌, ◌≡◌, ◌⊎◌, refl, sym, ap, subst, ◌∙◌, Bool, true, false, not, Option, none,
  some, List, [], ◌∷◌, ◌++◌, Result, ok, err, Exn, system_exit, os_error, raise_if, ok-injective,
  Bool-cases, inl, inr, length, ◌==◌, arith,
}
use esdx_scion.Base.Int.{ℤ, pos, ◌+ℤ◌}
use esdx_scion.Text.{Text, codes}
use esdx_scion.Crypto.{Cryptography, get_common_name, load_certificate, load_key}
use esdx_scion.Crypto.Create.{
  Authority, IsStandard, Name, create_x509_name, create_key, create_certificate, certificate_to_pem,
  key_to_pem, load_certificate-certificate_to_pem, load_key-key_to_pem,
  get_common_name-create_certificate, create_certificate-Certifies,
}
use esdx_scion.Transaction.{
  Tx, ◌>>=◌, ◌>>◌, pure, lift, query, atomic, lift_inv, query_inv, tx_inv, atomic_inv, atomic-err,
}
use esdx_scion.Market.Time.{DateTime}
use esdx_scion.Market.Broker.{Row}

-- how the writing of a file goes: in full, or with an OSError, before the file is opened or behind it,
-- when it holds some other text
pub data Writing : Type 0 where
  written : Writing
  not_opened : Writing
  broken : Text → Writing

-- what is in the file then
abbrev pub left_by : Writing → Text → Option Text → Option Text
left_by written content old = some content
left_by not_opened content old = old
left_by (broken part) content old = some part

abbrev pub outcome_of : Writing → Result (Unit {0})
outcome_of written = ok tt
outcome_of not_opened = err os_error
outcome_of (broken part) = err os_error

-- the options of the command, what is random, the two times that it reads, and how it writes its files
pub record Options : Type 0 where
  pub remove : Bool
  pub create : Bool
  pub export_files : Bool
  pub key_random : ℕ
  pub serial : ℕ
  pub now : DateTime
  pub then : DateTime
  pub crt_writing : Writing
  pub key_writing : Writing

-- the table, and what is in `broker.crt` and `broker.key`
pub record Site : Type 0 where
  pub rows : List Row
  pub crt : Option Text
  pub key : Option Text

abbrev pub in_a_year : DateTime → DateTime
in_a_year t = record t { micros = t.micros +ℤ pos (365 * 86400 * 10 ^ 6) }

abbrev pub update : (Site → Site) → Tx Site (Unit {0})
update f s = (ok tt, f s)

-- `with transaction.atomic()`: an exception restores the table, and no file
abbrev pub restore_rows : Site → Result (Unit {0}) × Site → Result (Unit {0}) × Site
restore_rows s (ok u, s') = (ok u, s')
restore_rows s (err e, s') = (err e, record s' { rows = s.rows })

unfoldable pub atomic_rows : Tx Site (Unit {0}) → Tx Site (Unit {0})
atomic_rows m s = restore_rows s (m s)

abbrev pub write_crt : Writing → Text → Tx Site (Unit {0})
write_crt writing content s = (outcome_of writing, record s { crt = left_by writing content s.crt })

abbrev pub write_key : Writing → Text → Tx Site (Unit {0})
write_key writing content s = (outcome_of writing, record s { key = left_by writing content s.key })

unfoldable pub remove_broker : Bool → Tx Site (Unit {0})
remove_broker false = pure tt
remove_broker true = update (λ s. record s { rows = [] })

-- `b.first()` of the only broker
abbrev pub only : List Row → Result Row
only [] = err system_exit
only (row ∷ []) = ok row
only (row ∷ other ∷ rest) = err system_exit

unfoldable pub export_broker : Bool → Options → Tx Site (Unit {0})
export_broker false options = pure tt
export_broker true options = do
  b ← query (λ s. only s.rows)
  write_crt options.crt_writing b.certificate_pem
  write_key options.key_writing b.key_pem

module _ (crypto : Cryptography) (authority : Authority crypto) where
  open crypto use {Key, Certificate}

  abbrev pub broker_name : Name
  broker_name = create_x509_name (codes "CH") (codes "Netsec") (codes "ETH") (codes "broker")

  abbrev pub broker_key : Options → Key
  broker_key options = create_key crypto authority 4096 options.key_random

  abbrev pub broker_cert : Options → Certificate
  broker_cert options =
      create_certificate crypto authority broker_name broker_name (broker_key options) options.now
        (in_a_year options.then) options.serial

  unfoldable pub create_broker : Bool → Options → Tx Site (Unit {0})
  create_broker false options = pure tt
  create_broker true options = do
    query (λ s. raise_if (not (length s.rows == 0)) system_exit)
    keybytes ← lift (key_to_pem crypto authority (broker_key options) none)
    certbytes ← lift (certificate_to_pem crypto authority (broker_cert options))
    update (λ s. record s {
      rows = s.rows ++ (record { certificate_pem = certbytes; key_pem = keybytes } ∷ []);
    })

  unfoldable pub broker_body : Options → Tx Site (Unit {0})
  broker_body options = do
    remove_broker options.remove
    create_broker options.create options
    export_broker options.export_files options

  unfoldable pub broker_command : Options → Tx Site (Unit {0})
  broker_command options = atomic_rows (broker_body options)

  -- The table has one broker, with a key and a certificate for it that are loaded from its row.
  pub record Created (options : Options) (rows : List Row) : Type 0 where
    pub row : Row
    pub one : rows ≡ row ∷ []
    pub key_loads : load_key crypto row.key_pem ≡ ok (broker_key options)
    pub cert_loads : load_certificate crypto row.certificate_pem ≡ ok (broker_cert options)
    pub named : get_common_name crypto (broker_cert options) ≡ ok (codes "broker")
    pub pair : crypto.Certifies (broker_cert options) (broker_key options)

  -- The command raised: the table is as it was. So are the files, or the only row of the table before
  -- the rollback was being exported: the writing of `broker.crt` raised, or that file holds the
  -- certificate of that row and the writing of `broker.key` raised.
  pub record Failed (options : Options) (s s' : Site) : Type 0 where
    pub rows_kept : s'.rows ≡ s.rows
    pub files :
        ((s'.crt ≡ s.crt) × (s'.key ≡ s.key))
        ⊎ ((options.export_files ≡ true)
            × (row : Row) × (options.create ≡ true → Created options (row ∷ []))
            × (s'.crt ≡ left_by options.crt_writing row.certificate_pem s.crt)
            × (((outcome_of options.crt_writing ≡ err os_error) × (s'.key ≡ s.key))
                ⊎ ((options.crt_writing ≡ written)
                    × (outcome_of options.key_writing ≡ err os_error)
                    × (s'.key ≡ left_by options.key_writing row.key_pem s.key))))

  pub record Done (options : Options) (s s' : Site) : Type 0 where
    pub at_most_one : length s.rows ≤ 1 → length s'.rows ≤ 1
    pub created : options.create ≡ true → Created options s'.rows
    pub removed : options.remove ≡ true → options.create ≡ false → s'.rows ≡ []
    pub kept : options.remove ≡ false → options.create ≡ false → s'.rows ≡ s.rows
    pub exported :
        options.export_files ≡ true
        → (row : Row) × (s'.rows ≡ row ∷ [])
          × (s'.crt ≡ some row.certificate_pem)
          × (s'.key ≡ some row.key_pem)
    pub not_exported : options.export_files ≡ false → (s'.crt ≡ s.crt) × (s'.key ≡ s.key)
