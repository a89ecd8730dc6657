-- ===== src/Commands/CreateClient.antt =====
-- create-client.py, with `ASManager.create` of models/ases.py. The table of the ASes is a parameter.
use esdx_scion.Base.{
  ℕ, ◌<◌, ◌^◌, Result-cases, true, ◌≡◌, ◌⊎◌, false, refl, sym, ap, ◌∙◌, Bool, false, not, Option,
  none, some, Result, ok, err, Exn, value_error, system_exit, raise_if, raise_if_inv, Option-cases,
  Bool-cases, inl, inr, if◌then◌else◌,
}
use esdx_scion.Text.{Text, Bytes, text_eq, text_eq→eq, split, strip}
use esdx_scion.Conversion.Ia.{ia_str_to_int, ia_validator}
use esdx_scion.Conversion.Ia.Range.{Reads, ia_str_to_int-Reads}
use esdx_scion.Crypto.{Cryptography, get_common_name, load_certificate, load_certificate_bytes}
use esdx_scion.Crypto.Create.{
  Authority, IsStandard, certificate_to_pem, load_certificate-certificate_to_pem,
}
use esdx_scion.Transaction.{
  Tx, ◌>>=◌, ◌>>◌, lift, write, atomic, lift_inv, tx_inv, atomic_inv, atomic-err, write_ok,
}
use esdx_scion.Market.Order.{As}

-- the rows of `AS` by their primary key, with an insert and a delete that may raise; `same` is how the
-- collation of the database compares two identifiers, which may ignore their case
pub record AsTable : Type 1 where
  pub Db : Type 0
  pub same : Text → Text → Bool
  pub find : Db → Text → Option As
  pub insert : As → Db → Result (Unit {0} × Db)
  pub delete : Text → Db → Result (Unit {0} × Db)

pub record IsAsTable (table : AsTable) : Type 0 where
  pub same_refl : (ia : Text) → table.same ia ia ≡ true
  pub inserted :
      (a : As) (db db' : table.Db)
      → table.insert a db ≡ ok (tt, db')
      → (ia : Text)
      → table.find db' ia ≡ (if table.same a.iaid ia then some a else table.find db ia)
  pub deleted :
      (iaid : Text) (db db' : table.Db)
      → table.delete iaid db ≡ ok (tt, db')
      → (ia : Text) → table.find db' ia ≡ (if table.same iaid ia then none else table.find db ia)

-- the arguments of the command; `argparse` always sets `name`, to None if it is not given
pub record Options : Type 0 where
  pub cert : Bytes
  pub ia : Text
  pub name : Option Text
  pub force : Bool

abbrev pub name_or : Option Text → Text → Text
name_or none iaid = iaid
name_or (some name) iaid = name

validated : (ia : Text) → ia_validator ia ≡ ok tt → (v : ℕ) × (ia_str_to_int ia ≡ ok v)
unfolding ia_validator
validated ia e = elim (Result-cases (ia_str_to_int ia)) [
  | inl (v, read) ↦ (v, read)
  | inr (x, raised) ↦ absurd (cc (rw (raised, ia_validator) at e))
]

module _ (crypto : Cryptography) (authority : Authority crypto) (table : AsTable) where
  open crypto use {Certificate}
  open table use {Db}

  -- `ASManager.create`
  unfoldable pub create_as : Text → Certificate → Option Text → Tx Db (Unit {0})
  create_as iaid cert name = do
    cn ← lift (get_common_name crypto cert)
    lift (raise_if (not (text_eq cn iaid)) value_error)
    certbytes ← lift (certificate_to_pem crypto authority cert)
    write (
        table.insert
          (record { iaid = iaid; certificate_pem = certbytes; name = name_or name iaid }))

  -- an existing client is removed, or the command ends
  unfoldable pub remove_existing : Bool → Text → Tx Db (Unit {0})
  remove_existing force ia db = elim (table.find db ia) [
    | none ↦ (ok tt, db)
    | some _ ↦ if force then write (table.delete ia) db else (err system_exit, db)
  ]

  -- the body of the transaction
  unfoldable pub replace_client : Options → Text → Tx Db (Unit {0})
  replace_client options ia = do
    remove_existing options.force ia
    cert ← lift (load_certificate_bytes crypto options.cert)
    create_as ia cert options.name

  unfoldable pub create_client : Options → Tx Db (Unit {0})
  create_client options = do
    lift (ia_validator (strip options.ia))
    atomic (replace_client options (strip options.ia))

  -- A client is registered: its identifier is an ISD and an AS within their ranges, its row has that
  -- identifier letter by letter, and its certificate is the given one, of its identifier, and is loaded
  -- back from the row. No identifier that the database tells apart from it has changed, and without
  -- `--force` the database found none before.
  pub record Registered (options : Options) (db db' : Db) : Type 0 where
    pub value : ℕ
    pub valid : ia_str_to_int (strip options.ia) ≡ ok value
    pub reads : Reads (split b'-' (strip options.ia)) value
    pub fits : value < 2 ^ 64
    pub cert : Certificate
    pub given : load_certificate_bytes crypto options.cert ≡ ok cert
    pub common : get_common_name crypto cert ≡ ok (strip options.ia)
    pub row : As
    pub found : table.find db' (strip options.ia) ≡ some row
    pub spelt : row.iaid ≡ strip options.ia
    pub named : row.name ≡ name_or options.name (strip options.ia)
    pub loads : load_certificate crypto row.certificate_pem ≡ ok cert
    pub others :
        (ia : Text)
        → table.same (strip options.ia) ia ≡ false
        → table.find db' ia ≡ table.find db ia
    pub new : options.force ≡ false → table.find db (strip options.ia) ≡ none

  after_error :
      (r : Result (Unit {0})) (options : Options) (db db' : Db) (e : Exn)
      → (lift r >> atomic (replace_client options (strip options.ia))) db ≡ (err e, db')
      → db' ≡ db
  after_error (ok u) options db db' e h = atomic-err _ h
  after_error (err x) options db db' e h = sym (ap (λ (p : Result (Unit {0}) × Db). p.1) h)

  module _ (standard : IsStandard crypto authority) (laws : IsAsTable table) where
    removed_others :
        (force : Bool) (iaid : Text) (db db' : Db)
        → remove_existing force iaid db ≡ (ok tt, db')
        → ((ia : Text) → table.same iaid ia ≡ false → table.find db' ia ≡ table.find db ia)
          × (force ≡ false → table.find db iaid ≡ none)
    unfolding remove_existing
    removed_others force iaid db db' e = elim (Option-cases (table.find db iaid)) [
      | inl absent ↦
          let same : db ≡ db' =
            ap (λ (p : Result (Unit {0}) × Db). p.1) (rw (remove_existing, absent) at e) in
          (λ ia h. ap (λ (d : Db). table.find d ia) (sym same), λ h. absent)
      | inr (row, present) ↦ elim (Bool-cases force) [
        | inl forced ↦
            let gone =
              write_ok db (table.delete iaid db) (rw (remove_existing, present, forced) at e) in
            (
              λ ia h. rw (laws.deleted iaid db db' gone ia, h) refl,
              λ h. absurd (cc (sym forced ∙ h)),
            )
        | inr kept ↦ absurd (cc (rw (remove_existing, present, kept) at e))
      ]
    ]

    -- The command ends with an error and the table as it was, or the client is registered: its
    -- identifier is an ISD below 2^16 and an AS below 2^48, a row with exactly this identifier is found
    -- under it, with the given certificate, whose common name is the identifier and which is loaded back.
    -- What is found under each identifier that the database tells apart from it is as before, and without
    -- `force` nothing was found under it before.
    pub create_client-Registered :
        (options : Options) (db db' : Db) (result : Result (Unit {0}))
        → create_client options db ≡ (result, db')
        → ((e : Exn) × (result ≡ err e) × (db' ≡ db)) ⊎ Registered options db db'
    unfolding create_client replace_client create_as
    create_client-Registered options db db' (ok tt) e =
        lift_inv (ia_validator (strip options.ia)) _ e λ u valid e1.
          tx_inv (remove_existing options.force (strip options.ia)) _ (atomic_inv _ e1)
            λ v db1 removed e2.
              lift_inv (load_certificate_bytes crypto options.cert) _ e2 λ cert given e3.
                lift_inv (get_common_name crypto cert) _ e3 λ cn common e4.
                  lift_inv (raise_if (not (text_eq cn (strip options.ia))) value_error) _ e4
                    λ w agrees e5.
                      lift_inv (certificate_to_pem crypto authority cert) _ e5 λ pem printed e6.
                        let (others, new) =
                          removed_others options.force (strip options.ia) db db1 removed in
                        let row : As = record {
                          iaid = strip options.ia;
                          certificate_pem = pem;
                          name = name_or options.name (strip options.ia);
                        } in
                        let stored =
                          laws.inserted row db1 db' (write_ok db1 (table.insert row db1) e6) in
                        let (value, read) = validated (strip options.ia) valid in
                        let (reads, fits) = ia_str_to_int-Reads (strip options.ia) value read in
                        inr (record {
                          value = value;
                          valid = read;
                          reads = reads;
                          fits = fits;
                          cert = cert;
                          given = given;
                          common =
                              common
                              ∙ ap ok (
                                  text_eq→eq cn (strip options.ia)
                                    (raise_if_inv _ value_error agrees));
                          row = row;
                          found =
                              rw (stored (strip options.ia), laws.same_refl (strip options.ia))
                                refl;
                          spelt = refl;
                          named = refl;
                          loads =
                              load_certificate-certificate_to_pem crypto authority standard cert pem
                                printed;
                          others = λ ia h. rw (stored ia, h) (others ia h);
                          new = new;
                        })
    create_client-Registered options db db' (err x) e =
        inl (x, refl, after_error (ia_validator (strip options.ia)) options db db' x e)
