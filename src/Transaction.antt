-- ===== src/Transaction.antt =====
-- Code that reads and writes a database and may raise, and Django's `transaction.atomic`.
use esdx_scion.Base.{◌≡◌, refl, sym, ap, Result, ok, err, Exn}

-- what a block of code does to a database: the writes before an exception stand
abbrev pub Tx : Type 0 → Type 0 → Type 0
Tx Db A = Db → Result A × Db

module _ {Db : Type 0} where
  abbrev pub continue : {A B : Type 0} → (A → Tx Db B) → Result A × Db → Result B × Db
  continue f (ok a, db) = f a db
  continue f (err e, db) = (err e, db)

  infixl 5 ◌>>=◌ ◌>>◌
  abbrev pub ◌>>=◌ : {A B : Type 0} → Tx Db A → (A → Tx Db B) → Tx Db B
  ◌>>=◌ m f db = continue f (m db)

  abbrev pub ◌>>◌ : {B : Type 0} → Tx Db (Unit {0}) → Tx Db B → Tx Db B
  m >> n = m >>= λ _. n

  abbrev pub pure : {A : Type 0} → A → Tx Db A
  pure a db = (ok a, db)

  -- code that does not touch the database
  abbrev pub lift : {A : Type 0} → Result A → Tx Db A
  lift r db = (r, db)

  abbrev pub query : {A : Type 0} → (Db → Result A) → Tx Db A
  query q db = (q db, db)

  -- one statement, which changes nothing if it raises
  abbrev pub written : {A : Type 0} → Db → Result (A × Db) → Result A × Db
  written db (ok (a, db')) = (ok a, db')
  written db (err e) = (err e, db)

  abbrev pub write : {A : Type 0} → (Db → Result (A × Db)) → Tx Db A
  write w db = written db (w db)

  abbrev pub rollback : {A : Type 0} → Db → Result A × Db → Result A × Db
  rollback db (ok a, db') = (ok a, db')
  rollback db (err e, db') = (err e, db)

  -- `with transaction.atomic()`
  unfoldable pub atomic : {A : Type 0} → Tx Db A → Tx Db A
  atomic m db = rollback db (m db)

  -- `except Exception as ex: raise … from ex`, with the exception that replaces another one
  abbrev pub replaced : {A : Type 0} → (Exn → Exn) → Result A × Db → Result A × Db
  replaced f (ok a, db) = (ok a, db)
  replaced f (err e, db) = (err (f e), db)

  unfoldable pub except : {A : Type 0} → (Exn → Exn) → Tx Db A → Tx Db A
  except f m db = replaced f (m db)

-- the same exception as the result of other code
abbrev same_error : {A B : Type 0} → Result A → Result B → Result A
same_error r (ok b) = r
same_error r (err e) = err e

module _ {Db : Type 0} where
  abbrev value_or : {A : Type 0} → A → Result A × Db → A
  value_or a (ok b, db) = b
  value_or a (err e, db) = a

  -- Inversion of code that returned, in continuation form: one step for each kind of statement.
  lift_step :
      {A B C : Type 0} (r : Result A) (f : A → Tx Db B) {db db' : Db} {b : B}
      → continue f (r, db) ≡ (ok b, db')
      → ((a : A) → r ≡ ok a → f a db ≡ (ok b, db') → C)
      → C
  lift_step (ok a) f h k = k a refl h
  lift_step (err e) f h k = absurd (cc)

  pub lift_inv :
      {A B C : Type 0} (r : Result A) (f : A → Tx Db B) {db db' : Db} {b : B}
      → (lift r >>= f) db ≡ (ok b, db')
      → ((a : A) → r ≡ ok a → f a db ≡ (ok b, db') → C)
      → C
  lift_inv r f h k = lift_step r f h k

  pub query_inv :
      {A B C : Type 0} (q : Db → Result A) (f : A → Tx Db B) {db db' : Db} {b : B}
      → (query q >>= f) db ≡ (ok b, db')
      → ((a : A) → q db ≡ ok a → f a db ≡ (ok b, db') → C)
      → C
  query_inv q f {db} h k = lift_step (q db) f h k

  write_step :
      {A B C : Type 0} (db : Db) (r : Result (A × Db)) (f : A → Tx Db B) {db' : Db} {b : B}
      → continue f (written db r) ≡ (ok b, db')
      → ((a : A) (db1 : Db) → r ≡ ok (a, db1) → f a db1 ≡ (ok b, db') → C)
      → C
  write_step db (ok (a, db1)) f h k = k a db1 refl h
  write_step db (err e) f h k = absurd (cc)

  pub write_inv :
      {A B C : Type 0} (w : Db → Result (A × Db)) (f : A → Tx Db B) {db db' : Db} {b : B}
      → (write w >>= f) db ≡ (ok b, db')
      → ((a : A) (db1 : Db) → w db ≡ ok (a, db1) → f a db1 ≡ (ok b, db') → C)
      → C
  write_inv w f {db} h k = write_step db (w db) f h k

  bind_step :
      {A B C : Type 0} (r : Result A × Db) (f : A → Tx Db B) {db' : Db} {b : B}
      → continue f r ≡ (ok b, db')
      → ((a : A) (db1 : Db) → r ≡ (ok a, db1) → f a db1 ≡ (ok b, db') → C)
      → C
  bind_step (ok a, db1) f h k = k a db1 refl h
  bind_step (err e, db1) f h k = absurd (cc)

  pub tx_inv :
      {A B C : Type 0} (m : Tx Db A) (f : A → Tx Db B) {db db' : Db} {b : B}
      → (m >>= f) db ≡ (ok b, db')
      → ((a : A) (db1 : Db) → m db ≡ (ok a, db1) → f a db1 ≡ (ok b, db') → C)
      → C
  tx_inv m f {db} h k = bind_step (m db) f h k

  err_step :
      {A B C : Type 0} (r : Result A × Db) (f : A → Tx Db B) {db' : Db} {e : Exn}
      → continue f r ≡ (err e, db')
      → (r ≡ (err e, db') → C)
      → ((a : A) (db1 : Db) → r ≡ (ok a, db1) → f a db1 ≡ (err e, db') → C)
      → C
  err_step (ok a, db1) f h raised k = k a db1 refl h
  err_step (err x, db1) f h raised k =
      raised (ap (λ (p : Result _ × Db). (same_error (err x) p.0, p.1)) h)

  -- code that raised, in its first part or in what follows it
  pub tx_err :
      {A B C : Type 0} (m : Tx Db A) (f : A → Tx Db B) {db db' : Db} {e : Exn}
      → (m >>= f) db ≡ (err e, db')
      → (m db ≡ (err e, db') → C)
      → ((a : A) (db1 : Db) → m db ≡ (ok a, db1) → f a db1 ≡ (err e, db') → C)
      → C
  tx_err m f {db} h raised k = err_step (m db) f h raised k

  rollback_ok :
      {A : Type 0} (db : Db) (r : Result A × Db) {db' : Db} {a : A}
      → rollback db r ≡ (ok a, db')
      → r ≡ (ok a, db')
  rollback_ok db (ok b, db1) h = h
  rollback_ok db (err e, db1) h = absurd (cc)

  rollback_err :
      {A : Type 0} (r : Result A × Db) {db db' : Db} {e : Exn}
      → rollback db r ≡ (err e, db')
      → db' ≡ db
  rollback_err (ok b, db1) h = absurd (cc)
  rollback_err (err x, db1) h = sym (ap (λ (p : Result _ × Db). p.1) h)

  pub atomic_inv :
      {A : Type 0} (m : Tx Db A) {db db' : Db} {a : A}
      → atomic m db ≡ (ok a, db')
      → m db ≡ (ok a, db')
  unfolding atomic
  atomic_inv m {db} h = rollback_ok db (m db) h

  -- an atomic block that raises leaves the database as it was
  pub atomic-err :
      {A : Type 0} (m : Tx Db A) {db db' : Db} {e : Exn} → atomic m db ≡ (err e, db') → db' ≡ db
  unfolding atomic
  atomic-err m {db} h = rollback_err (m db) h

  replaced_ok :
      {A : Type 0} (g : Exn → Exn) (r : Result A × Db) {db' : Db} {a : A}
      → replaced g r ≡ (ok a, db')
      → r ≡ (ok a, db')
  replaced_ok g (ok b, db1) h = h
  replaced_ok g (err e, db1) h = absurd (cc)

  pub except_inv :
      {A : Type 0} (g : Exn → Exn) (m : Tx Db A) {db db' : Db} {a : A}
      → except g m db ≡ (ok a, db')
      → m db ≡ (ok a, db')
  unfolding except
  except_inv g m {db} h = replaced_ok g (m db) h

  replaced_err :
      {A : Type 0} (g : Exn → Exn) (r : Result A × Db) {db' : Db} {e : Exn}
      → replaced g r ≡ (err e, db')
      → (x : Exn) × (r ≡ (err x, db')) × (e ≡ g x)
  replaced_err g (ok b, db1) h = absurd (cc)
  replaced_err g (err x, db1) h = (x, cc, cc)

  pub except-err :
      {A : Type 0} (g : Exn → Exn) (m : Tx Db A) {db db' : Db} {e : Exn}
      → except g m db ≡ (err e, db')
      → (x : Exn) × (m db ≡ (err x, db')) × (e ≡ g x)
  unfolding except
  except-err g m {db} h = replaced_err g (m db) h

  pub pure_inv :
      {A : Type 0} {a b : A} {db db' : Db}
      → pure a db ≡ (ok b, db')
      → ◌≡◌ {A = A × Db} (a, db) (b, db')
  pure_inv {A} {a} h = ap (λ (p : Result A × Db). (value_or a p, p.1)) h

  pub write_ok :
      {A : Type 0} (db : Db) (r : Result (A × Db)) {a : A} {db' : Db}
      → written db r ≡ (ok a, db')
      → r ≡ ok (a, db')
  write_ok db (ok (b, db1)) h = ap ok (pure_inv h)
  write_ok db (err e) h = absurd (cc)
