-- ===== src/Commands/Broker/Raised.antt =====
-- What the command for the broker leaves behind when it raises.
use esdx_scion.Base.{
  ◌≡◌, ◌⊎◌, refl, sym, ap, subst, ◌∙◌, Bool, true, false, not, none, [], ◌∷◌, Result, ok, err, Exn,
  system_exit, os_error, raise_if, inl, inr, length, ◌==◌,
}
use esdx_scion.Crypto.{Cryptography}
use esdx_scion.Crypto.Create.{Authority, IsStandard, certificate_to_pem, key_to_pem}
use esdx_scion.Transaction.{Tx, ◌>>=◌, lift, query, tx_err}
use esdx_scion.Market.Broker.{Row}
use esdx_scion.Commands.Broker.{
  Options, Site, Writing, written, not_opened, broken, left_by, outcome_of, restore_rows,
  atomic_rows, write_crt, broker_body, Failed, remove_broker, only, export_broker, broker_key,
  broker_cert, create_broker, Created,
}
use esdx_scion.Commands.Broker.Ended.{both_of, only-eq, create_broker-Creating}

restored_err :
    (s s' : Site) (r : Result (Unit {0}) × Site) (x : Exn)
    → restore_rows s r ≡ (err x, s')
    → (s1 : Site) × (r ≡ (err x, s1)) × (record s1 { rows = s.rows } ≡ s')
restored_err s s' (ok u, t) x e = absurd (cc)
restored_err s s' (err y, t) x e = (
  t,
  ap (λ (p : Result (Unit {0}) × Site). (p.0, t)) e,
  ap (λ (p : Result (Unit {0}) × Site). p.1) e,
)

pub atomic_rows_err :
    (m : Tx Site (Unit {0})) (s s' : Site) (x : Exn)
    → atomic_rows m s ≡ (err x, s')
    → (s1 : Site) × (m s ≡ (err x, s1)) × (record s1 { rows = s.rows } ≡ s')
unfolding atomic_rows
atomic_rows_err m s s' x e = restored_err s s' (m s) x e

lift_err :
    {A C : Type 0} (r : Result A) (f : A → Tx Site (Unit {0})) {s s' : Site} {e : Exn}
    → (lift r >>= f) s ≡ (err e, s')
    → (s ≡ s' → C)
    → ((a : A) → f a s ≡ (err e, s') → C)
    → C
lift_err (ok a) f h raised k = k a h
lift_err (err x) f h raised k = raised (ap (λ (p : Result (Unit {0}) × Site). p.1) h)

same_files : {s s' : Site} → s ≡ s' → (s'.crt ≡ s.crt) × (s'.key ≡ s.key)
same_files e = (ap (λ (t : Site). t.crt) (sym e), ap (λ (t : Site). t.key) (sym e))

query_raised :
    {A : Type 0} (q : Site → Result A) {s s' : Site} {e : Exn} → query q s ≡ (err e, s') → s ≡ s'
query_raised q h = ap (λ (p : Result _ × Site). p.1) h

-- a query that returned
query_both :
    {A : Type 0} (q : Site → Result A) {s s' : Site} {a : A}
    → query q s ≡ (ok a, s')
    → (q s ≡ ok a) × (s ≡ s')
query_both q e = (ap (λ (p : Result _ × Site). p.0) e, ap (λ (p : Result _ × Site). p.1) e)

is_written : (w : Writing) → outcome_of w ≡ ok tt → w ≡ written
is_written written e = refl
is_written not_opened e = absurd (cc)
is_written (broken part) e = absurd (cc)

an_os_error : (w : Writing) (e : Exn) → outcome_of w ≡ err e → outcome_of w ≡ err os_error
an_os_error written e h = absurd (cc)
an_os_error not_opened e h = refl
an_os_error (broken part) e h = refl

-- the files after an export that raised
Broken : Options → Site → Site → Type 0
Broken options s s' =
    ((s'.crt ≡ s.crt) × (s'.key ≡ s.key))
    ⊎ ((row : Row) × (s.rows ≡ row ∷ [])
        × (s'.crt ≡ left_by options.crt_writing row.certificate_pem s.crt)
        × (((outcome_of options.crt_writing ≡ err os_error) × (s'.key ≡ s.key))
            ⊎ ((options.crt_writing ≡ written)
                × (outcome_of options.key_writing ≡ err os_error)
                × (s'.key ≡ left_by options.key_writing row.key_pem s.key))))

export_broker-Broken :
    (export_files : Bool) (options : Options) (s s' : Site) (e : Exn)
    → export_broker export_files options s ≡ (err e, s')
    → (export_files ≡ true) × Broken options s s'
unfolding export_broker Broken
export_broker-Broken false options s s' e h = absurd (cc)
export_broker-Broken true options s s' e h = (
  refl,
  tx_err (query (λ (t : Site). only t.rows)) _ h
      (λ raised.
        let same = query_raised (λ (t : Site). only t.rows) raised in
        inl (ap (λ (t : Site). t.crt) (sym same), ap (λ (t : Site). t.key) (sym same)))
      (λ b s0 one e1.
        let (found, same) = query_both (λ (t : Site). only t.rows) one in
        let rows = only-eq s.rows b found in
        tx_err (write_crt options.crt_writing b.certificate_pem) _ e1
          (λ raised.
            let (failed, at_end) = both_of raised in
            inr (
              b,
              rows,
              ap (λ (t : Site). t.crt) (sym at_end)
                  ∙ ap (λ (t : Site). left_by options.crt_writing b.certificate_pem t.crt)
                      (sym same),
              inl (
                an_os_error options.crt_writing e failed,
                ap (λ (t : Site). t.key)
                    (sym at_end
                      ∙ ap
                          (λ (t : Site). record t {
                            crt = left_by options.crt_writing b.certificate_pem t.crt;
                          })
                          (sym same)),
              ),
            ))
          (λ u s1 crt e2.
            let (crt_ok, after_crt) = both_of crt in
            let (failed, at_end) = both_of e2 in
            let start : record s { crt = left_by options.crt_writing b.certificate_pem s.crt }
                ≡ s1 =
              ap
                (λ (t : Site). record t {
                  crt = left_by options.crt_writing b.certificate_pem t.crt;
                })
                same
              ∙ after_crt in
            inr (
              b,
              rows,
              ap (λ (t : Site). t.crt) (sym at_end) ∙ ap (λ (t : Site). t.crt) (sym start),
              inr (
                is_written options.crt_writing crt_ok,
                an_os_error options.key_writing e failed,
                ap (λ (t : Site). t.key) (sym at_end)
                    ∙ ap (λ (t : Site). left_by options.key_writing b.key_pem t.key) (sym start),
              ),
            ))),
)

module _ (crypto : Cryptography) (authority : Authority crypto)
    (standard : IsStandard crypto authority) where
  -- removing and creating touch no file, whether they raise or not
  remove_broker-files :
      (remove : Bool) (s s' : Site) (r : Result (Unit {0}))
      → remove_broker remove s ≡ (r, s')
      → (s'.crt ≡ s.crt) × (s'.key ≡ s.key)
  unfolding remove_broker
  remove_broker-files false s s' r e =
      let same = (both_of e).1 in
      (ap (λ (t : Site). t.crt) (sym same), ap (λ (t : Site). t.key) (sym same))
  remove_broker-files true s s' r e =
      let same = (both_of e).1 in
      (ap (λ (t : Site). t.crt) (sym same), ap (λ (t : Site). t.key) (sym same))

  create_broker-files :
      (create : Bool) (options : Options) (s s' : Site) (e : Exn)
      → create_broker crypto authority create options s ≡ (err e, s')
      → (s'.crt ≡ s.crt) × (s'.key ≡ s.key)
  unfolding create_broker
  create_broker-files false options s s' e h = absurd (cc)
  create_broker-files true options s s' e h =
      lift_err (raise_if (not (length s.rows == 0)) system_exit) _ h same_files λ u e1.
        lift_err (key_to_pem crypto authority (broker_key crypto authority options) none) _ e1
          same_files
          λ keybytes e2.
            lift_err (certificate_to_pem crypto authority (broker_cert crypto authority options)) _
              e2 same_files λ certbytes e3. absurd (cc)

  -- how the command that raised has left the files, before the rollback
  pub broker_body-Failed :
      (options : Options) (s s' : Site) (e : Exn)
      → broker_body crypto authority options s ≡ (err e, s')
      → Failed crypto authority options s (record s' { rows = s.rows })
  unfolding broker_body Broken
  broker_body-Failed options s s' e h =
      tx_err (remove_broker options.remove) _ h
        (λ raised. record {
          rows_kept = refl;
          files = inl (remove_broker-files options.remove s s' (err e) raised);
        })
        (λ u s1 removes e1.
          let (crt, key) = remove_broker-files options.remove s s1 (ok u) removes in
          tx_err (create_broker crypto authority options.create options) _ e1
            (λ raised.
              let (crt', key') = create_broker-files options.create options s1 s' e raised in
              record { rows_kept = refl; files = inl (crt' ∙ crt, key' ∙ key) })
            (λ v s2 creates e2.
              let c =
                create_broker-Creating crypto authority standard options.create options s1 s2
                  creates in
              let crt2 = c.files.0 ∙ crt in
              let key2 = c.files.1 ∙ key in
              let (asked, left) = export_broker-Broken options.export_files options s2 s' e e2 in
              record {
                rows_kept = refl;
                files = elim left [
                  | inl (crt3, key3) ↦ inl (crt3 ∙ crt2, key3 ∙ key2)
                  | inr (row, one, crt3, rest) ↦ inr (
                    asked,
                    row,
                    λ made. subst (Created crypto authority options) one (c.created made),
                    crt3 ∙ ap (left_by options.crt_writing row.certificate_pem) crt2,
                    elim rest [
                      | inl (failed, key3) ↦ inl (failed, key3 ∙ key2)
                      | inr (full_crt, failed, key3) ↦ inr (
                        full_crt,
                        failed,
                        key3 ∙ ap (left_by options.key_writing row.key_pem) key2,
                      )
                    ],
                  )
                ];
              }))
