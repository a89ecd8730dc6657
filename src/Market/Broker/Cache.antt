-- ===== src/Market/Broker/Cache.antt =====
-- What the cache of the broker's key and certificate can give.
use mathlib.Core.List.Memᴰ
use mathlib.Core.List.{Memᴰ}
use esdx_scion.Base.{
  ◌≡◌, refl, sym, ap, subst, ◌∙◌, Option, none, some, List, [], ◌∷◌, Result, ok, Result-cases, inl,
  inr,
}
use esdx_scion.Crypto.{Cryptography}
use esdx_scion.Market.Broker.{
  Row, State, load_broker_key, load_broker_certificate, get_broker_key, get_broker_certificate,
  clear_cached, Steps, start, key_step, certificate_step, signal_step, change_step,
}

abbrev value_or_err {ℓ} : {A : Type ℓ} → A → Option A → Result A
value_or_err a none = ok a
value_or_err a (some b) = ok b

module _ (crypto : Cryptography) (django_get : List Row → Result Row) where
  open crypto use {Key, Certificate}

  -- the result of loading from one of the tables
  abbrev pub Loaded : {A : Type 0} → (List Row → Result A) → List (List Row) → Result A → Type 0
  Loaded load seen r = (rows : List Row) × Memᴰ rows seen × (r ≡ load rows)

  later :
      {A : Type 0} (load : List Row → Result A) (seen : List (List Row)) (rows : List Row)
      (r : Result A)
      → Loaded load seen r
      → Loaded load (rows ∷ seen) r
  later load seen rows r (old, at, e) = (old, Memᴰ.tail at, e)

  -- The table is one of those seen, and what is cached was loaded from one of them.
  record IsSeen (seen : List (List Row)) (s : State crypto) : Type 0 where
    pub current : Memᴰ s.rows seen
    pub key_seen :
        (key : Key)
        → s.broker_key ≡ some key
        → Loaded (load_broker_key crypto django_get) seen (ok key)
    pub cert_seen :
        (cert : Certificate)
        → s.broker_cert ≡ some cert
        → Loaded (load_broker_certificate crypto django_get) seen (ok cert)

  get_broker_key-IsSeen :
      (seen : List (List Row)) (s : State crypto) (key : Option Key)
      → s.broker_key ≡ key
      → IsSeen seen s
      → Loaded (load_broker_key crypto django_get) seen (get_broker_key crypto django_get s).0
        × IsSeen seen (get_broker_key crypto django_get s).1
  unfolding get_broker_key
  get_broker_key-IsSeen seen s (some key) cached m =
      (rw (get_broker_key, cached) (m.key_seen key cached), rw (get_broker_key, cached) m)
  get_broker_key-IsSeen seen s none cached m =
      elim (Result-cases (load_broker_key crypto django_get s.rows)) [
        | inl (key, e) ↦ (
          (s.rows, m.current, rw (get_broker_key, cached, e) refl),
          rw (get_broker_key, cached, e)
              (record {
                current = m.current;
                key_seen = λ key' same. (s.rows, m.current, sym (e ∙ ap (value_or_err key) same));
                cert_seen = m.cert_seen;
              }),
        )
        | inr (x, e) ↦ (
          (s.rows, m.current, rw (get_broker_key, cached, e) refl),
          rw (get_broker_key, cached, e) m,
        )
      ]

  get_broker_certificate-IsSeen :
      (seen : List (List Row)) (s : State crypto) (cert : Option Certificate)
      → s.broker_cert ≡ cert
      → IsSeen seen s
      → Loaded
          (load_broker_certificate crypto django_get)
          seen
          (get_broker_certificate crypto django_get s).0
        × IsSeen seen (get_broker_certificate crypto django_get s).1
  unfolding get_broker_certificate
  get_broker_certificate-IsSeen seen s (some cert) cached m = (
    rw (get_broker_certificate, cached) (m.cert_seen cert cached),
    rw (get_broker_certificate, cached) m,
  )
  get_broker_certificate-IsSeen seen s none cached m =
      elim (Result-cases (load_broker_certificate crypto django_get s.rows)) [
        | inl (cert, e) ↦ (
          (s.rows, m.current, rw (get_broker_certificate, cached, e) refl),
          rw (get_broker_certificate, cached, e)
              (record {
                current = m.current;
                key_seen = m.key_seen;
                cert_seen =
                    λ cert' same. (s.rows, m.current, sym (e ∙ ap (value_or_err cert) same));
              }),
        )
        | inr (x, e) ↦ (
          (s.rows, m.current, rw (get_broker_certificate, cached, e) refl),
          rw (get_broker_certificate, cached, e) m,
        )
      ]

  Steps-IsSeen :
      {seen : List (List Row)} {t : State crypto} → Steps crypto django_get seen t → IsSeen seen t
  unfolding clear_cached
  Steps-IsSeen (start rows) = record {
    current = Memᴰ.head refl;
    key_seen = λ key same. absurd (cc);
    cert_seen = λ cert same. absurd (cc);
  }
  Steps-IsSeen (key_step seen s steps) =
      (get_broker_key-IsSeen seen s s.broker_key refl (Steps-IsSeen steps)).1
  Steps-IsSeen (certificate_step seen s steps) =
      (get_broker_certificate-IsSeen seen s s.broker_cert refl (Steps-IsSeen steps)).1
  Steps-IsSeen (signal_step seen s steps) = record {
    current = Memᴰ.head refl;
    key_seen = λ key same. absurd (cc);
    cert_seen = λ cert same. absurd (cc);
  }
  Steps-IsSeen (change_step seen s rows steps) =
      let m = Steps-IsSeen steps in
      record {
        current = Memᴰ.head refl;
        key_seen = λ key same. later _ seen rows _ (m.key_seen key same);
        cert_seen = λ cert same. later _ seen rows _ (m.cert_seen cert same);
      }

  only_seen :
      {A : Type 0} (load : List Row → Result A) (seen : List (List Row)) (rows : List Row)
      (r : Result A)
      → seen ≡ rows ∷ []
      → Loaded load seen r
      → r ≡ load rows
  only_seen load seen rows r one (old, at, e) =
      e ∙ ap load (Memᴰ.eq_of_singleton (subst (Memᴰ old) one at))

  -- What the manager gives, a key and a certificate or an exception, is what loading gives from one of
  -- the tables that stood since the cache of its process was last empty, however uses of the manager,
  -- signals and changes of the table follow one another. If only one table stood since then, it is the
  -- present one, and the manager gives what loading from it gives.
  pub get_broker_key-Steps :
      (seen : List (List Row)) (t : State crypto)
      → Steps crypto django_get seen t
      → Loaded (load_broker_key crypto django_get) seen (get_broker_key crypto django_get t).0
        × Loaded
            (load_broker_certificate crypto django_get)
            seen
            (get_broker_certificate crypto django_get t).0
        × ((rows : List Row)
            → seen ≡ rows ∷ []
            → (t.rows ≡ rows)
              × ((get_broker_key crypto django_get t).0 ≡ load_broker_key crypto django_get rows)
              × ((get_broker_certificate crypto django_get t).0
                  ≡ load_broker_certificate crypto django_get rows))
  get_broker_key-Steps seen t steps =
      let m = Steps-IsSeen steps in
      let (key, _) = get_broker_key-IsSeen seen t t.broker_key refl m in
      let (cert, _) = get_broker_certificate-IsSeen seen t t.broker_cert refl m in
      (
        key,
        cert,
        λ rows one. (
          Memᴰ.eq_of_singleton (subst (Memᴰ t.rows) one m.current),
          only_seen (load_broker_key crypto django_get) seen rows _ one key,
          only_seen (load_broker_certificate crypto django_get) seen rows _ one cert,
        ),
      )
