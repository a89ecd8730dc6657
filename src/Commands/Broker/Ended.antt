-- ===== src/Commands/Broker/Ended.antt =====
-- What the parts of the command for the broker have done when they end.
use esdx_scion.Base.{
  ◌≡◌, refl, sym, ap, subst, ◌∙◌, Bool, true, false, not, Option, none, some, List, [], ◌∷◌, ◌++◌,
  Result, ok, system_exit, raise_if, ok-injective, length, ◌==◌, arith,
}
use esdx_scion.Crypto.{Cryptography}
use esdx_scion.Crypto.Create.{
  Authority, IsStandard, certificate_to_pem, key_to_pem, load_certificate-certificate_to_pem,
  load_key-key_to_pem, get_common_name-create_certificate, create_certificate-Certifies,
}
use esdx_scion.Text.{Text}
use esdx_scion.Transaction.{lift_inv, query_inv, tx_inv}
use esdx_scion.Market.Broker.{Row}
use esdx_scion.Commands.Broker.{
  Options, Site, Writing, written, not_opened, broken, left_by, outcome_of, write_crt,
  remove_broker, only, export_broker, broker_key, broker_cert, create_broker, Created,
}

state_of :
    {s s' : Site} {r r' : Result (Unit {0})}
    → ◌≡◌ {A = Result (Unit {0}) × Site} (r, s) (r', s')
    → s ≡ s'
state_of e = ap (λ (p : Result (Unit {0}) × Site). p.1) e

pub record Removing (remove : Bool) (s s' : Site) : Type 0 where
  pub files : (s'.crt ≡ s.crt) × (s'.key ≡ s.key)
  pub removed : remove ≡ true → s'.rows ≡ []
  pub kept : remove ≡ false → s'.rows ≡ s.rows

pub remove_broker-Removing :
    (remove : Bool) (s s' : Site) → remove_broker remove s ≡ (ok tt, s') → Removing remove s s'
unfolding remove_broker
remove_broker-Removing false s s' e =
    subst (λ (t : Site). Removing false s t) (state_of e)
      (record { files = (refl, refl); removed = λ h. absurd (cc); kept = λ h. refl })
remove_broker-Removing true s s' e =
    subst (λ (t : Site). Removing true s t) (state_of e)
      (record { files = (refl, refl); removed = λ h. refl; kept = λ h. absurd (cc) })

pub both_of :
    {s s' : Site} {r r' : Result (Unit {0})}
    → ◌≡◌ {A = Result (Unit {0}) × Site} (r, s) (r', s')
    → (r ≡ r') × (s ≡ s')
both_of e =
    (ap (λ (p : Result (Unit {0}) × Site). p.0) e, ap (λ (p : Result (Unit {0}) × Site). p.1) e)

-- a file whose writing did not raise holds what was written
full :
    (w : Writing) (content : Text) (old : Option Text)
    → outcome_of w ≡ ok tt
    → left_by w content old ≡ some content
full written content old e = refl
full not_opened content old e = absurd (cc)
full (broken part) content old e = absurd (cc)

pub record Exporting (export_files : Bool) (s s' : Site) : Type 0 where
  pub same : s'.rows ≡ s.rows
  pub exported :
      export_files ≡ true
      → (row : Row) × (s'.rows ≡ row ∷ [])
        × (s'.crt ≡ some row.certificate_pem)
        × (s'.key ≡ some row.key_pem)
  pub not_exported : export_files ≡ false → (s'.crt ≡ s.crt) × (s'.key ≡ s.key)

pub only-eq : (rows : List Row) (row : Row) → only rows ≡ ok row → rows ≡ row ∷ []
only-eq [] row e = absurd (cc)
only-eq (x ∷ []) row e = ap (λ (y : Row). y ∷ []) (ok-injective e)
only-eq (x ∷ y ∷ rest) row e = absurd (cc)

pub export_broker-Exporting :
    (export_files : Bool) (options : Options) (s s' : Site)
    → export_broker export_files options s ≡ (ok tt, s')
    → Exporting export_files s s'
unfolding export_broker
export_broker-Exporting false options s s' e =
    subst (λ (t : Site). Exporting false s t) (state_of e)
      (record { same = refl; exported = λ h. absurd (cc); not_exported = λ h. (refl, refl) })
export_broker-Exporting true options s s' e =
    query_inv (λ (t : Site). only t.rows) _ e
      λ b one e1. tx_inv (write_crt options.crt_writing b.certificate_pem) _ e1 λ u s1 crt e2.
        let (crt_ok, crt_left) = both_of crt in
        let (key_ok, key_left) = both_of e2 in
        let at_end : record s { crt = some b.certificate_pem; key = some b.key_pem } ≡ s' =
          subst (λ (t : Site). record t { key = some b.key_pem } ≡ s')
            (sym crt_left
              ∙ ap (λ (c : Option Text). record s { crt = c })
                  (full options.crt_writing b.certificate_pem s.crt crt_ok))
            (ap (λ (c : Option Text). record s1 { key = c })
                (sym (full options.key_writing b.key_pem s1.key key_ok))
              ∙ key_left) in
        subst (λ (t : Site). Exporting true s t) at_end
          (record {
            same = refl;
            exported = λ h. (b, only-eq s.rows b one, refl, refl);
            not_exported = λ h. absurd (cc);
          })

no_rows : (rows : List Row) → raise_if (not (length rows == 0)) system_exit ≡ ok tt → rows ≡ []
no_rows [] e = refl
no_rows (row ∷ rows) e =
    let some_row : (length (row ∷ rows) == 0) ≡ false = ground arith in
    absurd (cc (rw some_row at e))

module _ (crypto : Cryptography) (authority : Authority crypto)
    (standard : IsStandard crypto authority) where
  pub record Creating (create : Bool) (options : Options) (s s' : Site) : Type 0 where
    pub files : (s'.crt ≡ s.crt) × (s'.key ≡ s.key)
    pub created : create ≡ true → Created crypto authority options s'.rows
    pub kept : create ≡ false → s'.rows ≡ s.rows

  pub create_broker-Creating :
      (create : Bool) (options : Options) (s s' : Site)
      → create_broker crypto authority create options s ≡ (ok tt, s')
      → Creating create options s s'
  unfolding create_broker
  create_broker-Creating false options s s' e =
      subst (λ (t : Site). Creating false options s t) (state_of e)
        (record { files = (refl, refl); created = λ h. absurd (cc); kept = λ h. refl })
  create_broker-Creating true options s s' e =
      query_inv (λ (t : Site). raise_if (not (length t.rows == 0)) system_exit) _ e
        λ u none_yet e1.
          lift_inv (key_to_pem crypto authority (broker_key crypto authority options) none) _ e1
            λ keybytes key_printed e2.
              lift_inv (certificate_to_pem crypto authority (broker_cert crypto authority options))
                _ e2
                λ certbytes cert_printed e3.
                  subst (λ (t : Site). Creating true options s t) (state_of e3)
                    (record {
                      files = (refl, refl);
                      created = λ h. record {
                        row = record { certificate_pem = certbytes; key_pem = keybytes };
                        one =
                            ap
                              (λ (rows : List Row).
                                rows
                                ++ (record { certificate_pem = certbytes; key_pem = keybytes }
                                    ∷ []))
                              (no_rows s.rows none_yet);
                        key_loads =
                            load_key-key_to_pem crypto authority standard _ keybytes key_printed;
                        cert_loads =
                            load_certificate-certificate_to_pem crypto authority standard _
                              certbytes cert_printed;
                        named =
                            get_common_name-create_certificate crypto authority standard _ _ _ _ _ _
                              _ _ _;
                        pair = create_certificate-Certifies crypto authority standard _ _ _ _ _ _;
                      };
                      kept = λ h. absurd (cc);
                    })
