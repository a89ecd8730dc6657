-- ===== src/Market/Service/Authorized.antt =====
-- Who gets a contract from `GetContract`.
use esdx_scion.Base.{
  ℕ, none, true, value_error, raise_if_inv, ◌↔◌, ◌≡◌, refl, sym, ap, ◌⊎◌, inl, inr, Result, ok, err,
  bind_inv, ok-injective, Bool-cases,
}
use esdx_scion.Base.Int.{ℤ}
use esdx_scion.Text.{Text, Bytes, text_eq, text_eq→eq, text_eq_refl}
use esdx_scion.Serialize.{Floats, get_contract_request_serialize}
use esdx_scion.Messages.{ContractMessage, GetContractRequest}
use esdx_scion.Crypto.{Cryptography, load_certificate, signature_validate}
use esdx_scion.Market.Offer.{Offer}
use esdx_scion.Market.Order.{As, Contract, check_requester, check_party}
use esdx_scion.Client.{MarketClient, get_contract}
use esdx_scion.Client.Accepted.{check_requester-get_contract}
use esdx_scion.Market.Service.{
  Queries, contract_message, or_service_error, find_contract, handle_get_contract,
}

check_party-party :
    (requester buyer seller : Text)
    → check_party requester buyer seller ≡ ok tt
    → (buyer ≡ requester) ⊎ (seller ≡ requester)
unfolding check_party
check_party-party requester buyer seller e = elim (Bool-cases (text_eq buyer requester)) [
  | inl h ↦ inl (text_eq→eq buyer requester h)
  | inr h ↦ elim (Bool-cases (text_eq seller requester)) [
    | inl k ↦ inr (text_eq→eq seller requester k)
    | inr k ↦ absurd (cc (rw (h, k) at e))
  ]
]

party-check_party :
    (requester buyer seller : Text)
    → (buyer ≡ requester) ⊎ (seller ≡ requester)
    → check_party requester buyer seller ≡ ok tt
unfolding check_party
party-check_party requester buyer seller (inl h) = rw (h, text_eq_refl requester) refl
party-check_party requester buyer seller (inr h) = elim (Bool-cases (text_eq buyer requester)) [
  | inl k ↦ rw k refl
  | inr k ↦ rw (h, text_eq_refl requester, k) refl
]

from_service {ℓ} : {A : Type ℓ} (r : Result A) (a : A) → or_service_error r ≡ ok a → r ≡ ok a
from_service (ok b) a e = e
from_service (err x) a e = cc

module _ (floats : Floats) (crypto : Cryptography) where
  open floats use {Float}
  open crypto use {Certificate, Certifies}

  -- The certificate of the AS that the request names verifies its signature on the two values that it
  -- asks with, that AS is the buyer or the seller of the contract, and the message holds the contract.
  pub record Authorized (rendering : Result (Unit {0})) (db : Queries floats)
      (request : GetContractRequest) (message : ContractMessage floats) : Type 0 where
    pub requester : As
    pub contract : Contract
    pub offer : Offer Float
    pub known : db.get_as request.requester_iaid ≡ ok requester
    pub cert : Certificate
    pub loads : load_certificate crypto requester.certificate_pem ≡ ok cert
    pub content : Bytes
    pub asked :
        get_contract_request_serialize request.contract_id request.requester_iaid none ≡ ok content
    pub verified : crypto.verify cert request.requester_signature content ≡ true
    pub found : db.contract_by_id request.contract_id ≡ ok (contract, offer)
    pub party :
        (contract.purchase_order.buyer.iaid ≡ request.requester_iaid)
        ⊎ (offer.iaid ≡ request.requester_iaid)
    pub rendered : rendering ≡ ok tt
    pub exact : message ≡ contract_message floats request.contract_id contract offer

  check_requester-verify :
      (requester : As) (request : GetContractRequest)
      → check_requester crypto requester request ≡ ok tt
      → (cert : Certificate) × (content : Bytes) × (load_certificate crypto
            requester.certificate_pem
          ≡ ok cert)
        × (get_contract_request_serialize request.contract_id request.requester_iaid none
            ≡ ok content)
        × (crypto.verify cert request.requester_signature content ≡ true)
  unfolding check_requester signature_validate
  check_requester-verify requester request e =
      bind_inv (load_certificate crypto requester.certificate_pem) _ e λ cert loads e1.
        bind_inv (get_contract_request_serialize request.contract_id request.requester_iaid none) _
          e1 λ content asked e2. (cert, content, loads, asked, raise_if_inv _ value_error e2)

  verify-check_requester :
      (requester : As) (request : GetContractRequest) (cert : Certificate) (content : Bytes)
      → load_certificate crypto requester.certificate_pem ≡ ok cert
      → get_contract_request_serialize request.contract_id request.requester_iaid none ≡ ok content
      → crypto.verify cert request.requester_signature content ≡ true
      → check_requester crypto requester request ≡ ok tt
  unfolding check_requester signature_validate
  verify-check_requester requester request cert content loads asked verified =
      rw (loads, asked, verified) refl

  find_contract_sound :
      (rendering : Result (Unit {0})) (db : Queries floats) (request : GetContractRequest)
      (message : ContractMessage floats)
      → find_contract floats crypto rendering db request ≡ ok message
      → Authorized rendering db request message
  unfolding find_contract
  find_contract_sound rendering db request message e =
      bind_inv (db.get_as request.requester_iaid) _ e λ requester known e1.
        bind_inv (check_requester crypto requester request) _ e1 λ u signed e2.
          bind_inv (db.contract_by_id request.contract_id) _ e2 λ (contract, offer) found e3.
            bind_inv
              (check_party request.requester_iaid contract.purchase_order.buyer.iaid offer.iaid) _
              e3
              λ v party e4. bind_inv rendering _ e4 λ w rendered e5.
                let (cert, content, loads, asked, verified) =
                  check_requester-verify requester request signed in
                record {
                  requester = requester;
                  contract = contract;
                  offer = offer;
                  known = known;
                  cert = cert;
                  loads = loads;
                  content = content;
                  asked = asked;
                  verified = verified;
                  found = found;
                  party = check_party-party _ _ _ party;
                  rendered = rendered;
                  exact = sym (ok-injective e5);
                }

  find_contract_complete :
      (rendering : Result (Unit {0})) (db : Queries floats) (request : GetContractRequest)
      (message : ContractMessage floats)
      → Authorized rendering db request message
      → find_contract floats crypto rendering db request ≡ ok message
  unfolding find_contract
  find_contract_complete rendering db request message a =
      let signed =
        verify-check_requester a.requester request a.cert a.content a.loads a.asked a.verified in
      rw (a.known, signed, a.found, party-check_party _ _ _ a.party, a.rendered)
        (ap ok (sym a.exact))

  pub handle_get_contract_iff :
      (rendering : Result (Unit {0})) (db : Queries floats) (request : GetContractRequest)
      (message : ContractMessage floats)
      → (handle_get_contract floats crypto rendering db request ≡ ok message)
        ↔ Authorized rendering db request message
  unfolding handle_get_contract
  handle_get_contract_iff rendering db request message = (
    λ e. find_contract_sound rendering db request message (from_service _ message e),
    λ a. rw (find_contract_complete rendering db request message a) refl,
  )

  -- A client that asks for a contract of which its AS is the buyer or the seller gets it, if the
  -- service knows the AS with a certificate of the client's key.
  pub handle_get_contract-get_contract :
      (db : Queries floats) (self : MarketClient crypto) (cert : Certificate) (salt : ℕ)
      (requester : As) (id : ℤ) (request : GetContractRequest) (contract : Contract)
      (offer : Offer Float)
      → Certifies cert self.key
      → load_certificate crypto requester.certificate_pem ≡ ok cert
      → get_contract crypto self salt id ≡ ok request
      → db.get_as self.ia ≡ ok requester
      → db.contract_by_id id ≡ ok (contract, offer)
      → (contract.purchase_order.buyer.iaid ≡ self.ia) ⊎ (offer.iaid ≡ self.ia)
      → handle_get_contract floats crypto (ok tt) db request
        ≡ ok (contract_message floats id contract offer)
  unfolding get_contract
  handle_get_contract-get_contract db self cert salt requester id request contract offer pair loads
        asks known found party =
      let signed =
        check_requester-get_contract floats crypto self cert salt requester id request pair loads
          asks in
      bind_inv (get_contract_request_serialize id self.ia none) _ asks λ content _ e.
        let ia : request.requester_iaid ≡ self.ia =
          ap (λ (r : GetContractRequest). r.requester_iaid) (sym (ok-injective e)) in
        let key : request.contract_id ≡ id =
          ap (λ (r : GetContractRequest). r.contract_id) (sym (ok-injective e)) in
        let (cert', content', loads', asked, verified) =
          check_requester-verify requester request signed in
        (handle_get_contract_iff (ok tt) db request (contract_message floats id contract offer)).1
          (record {
            requester = requester;
            contract = contract;
            offer = offer;
            known = rw ia known;
            cert = cert';
            loads = loads';
            content = content';
            asked = asked;
            verified = verified;
            found = rw key found;
            party = rw ia party;
            rendered = refl;
            exact = rw key refl;
          })
