-- ===== src/Market/Trade/Ports.antt =====
-- The border router addresses of the contracts that `_purchase` makes, one sale after the other.
use esdx_scion.Base.{
  ℕ, ◌+◌, ◌≤◌, ◌≡◌, refl, sym, ap, subst, ◌∙◌, Bool, true, false, some, ok, err, runtime_error,
  ok-injective, some-injective, ltb, if◌then◌else◌, Bool-cases, inl, inr, arith,
}
use esdx_scion.Base.Int.{pos, pos-injective}
use esdx_scion.Text.{Text}
use esdx_scion.Conversion.Ip.{Ip, Ipv6}
use esdx_scion.Conversion.Address.{ip_port_range_from_str, ip_port_to_str}
use esdx_scion.Conversion.Address.RoundTrip.{IsAddress}
use esdx_scion.Serialize.{Floats}
use esdx_scion.Messages.{PurchaseRequest, ContractMessage}
use esdx_scion.Crypto.{Cryptography}
use esdx_scion.Market.Offer.{Offer}
use esdx_scion.Market.Order.{PurchaseOrder, Contract}
use esdx_scion.Market.BrAddress.{find_available_br_address, found_port, find_next}
use esdx_scion.Market.Service.{contract_message}
use esdx_scion.Market.Storage.{Storage, IsLawful, is_key}
use esdx_scion.Market.Manager.{purchase_getter, purchase_getter_inv}
use esdx_scion.Market.Purchase.{Around, used_address, ordered}
use esdx_scion.Market.Trade.{Wire, purchase_in, handle_purchase}
use esdx_scion.Market.Trade.Growth.{Growth-offer, Growth-sold}
use esdx_scion.Market.Trade.Sale.{Purchased-sold}
use esdx_scion.Market.Trade.Calls.{purchase_with-Bargain}
use esdx_scion.Market.Trade.Serve.{Reach, Reach-Growth}

contract_message-br_address :
    (floats : Floats) (id : ℕ) (c : Contract) (o : Offer floats.Float)
    → (contract_message floats (pos id) c o).br_address ≡ c.br_address
unfolding contract_message
contract_message-br_address floats id c o = refl

within :
    (hi port : ℕ) (a b : Text)
    → (if ltb hi port then err runtime_error else ok a) ≡ ok b
    → (b ≡ a) × (port ≤ hi)
within hi port a b e = elim (Bool-cases (ltb hi port)) [
  | inl h ↦ absurd (cc (rw h at e))
  | inr h ↦ (sym (ok-injective (rw h at e)), ground arith)
]

-- an order is there, whichever it is
some_order :
    (b : Bool) (new po : PurchaseOrder)
    → (p : PurchaseOrder) × ((if b then some new else some po) ≡ some p)
some_order true new po = (new, refl)
some_order false new po = (po, refl)

module _ (floats : Floats) (crypto : Cryptography) (S : Storage floats.Float) (ipv6 : Ipv6)
    (wire : Wire floats) (full_clean : S.Db → Offer floats.Float → Bool) (laws : IsLawful S) where
  open ipv6 use {Address}

  used_address-some :
      (o : Offer floats.Float) (db : S.Db) (sold : ℕ) (po : PurchaseOrder) (c : Contract)
      → o.deprecates ≡ some sold
      → S.order_of db sold ≡ some po
      → S.contract_of db sold ≡ some c
      → used_address floats crypto ipv6 S o db ≡ ok (some c.br_address)
  unfolding used_address
  used_address-some o db sold po c link order contract =
      rw (used_address, link, order, contract) refl

  -- Two sales in a row get successive ports of the border router: if a `Purchase` of an offer returned,
  -- any calls followed, and a `Purchase` of the offer with the rest of it returned, then the address in
  -- the first contract has the address of the template of the offer and a port, that in the second one
  -- the next port, and this is at most the largest of the template. The template has an address that is
  -- read back from its print, and its largest port is at most 65534.
  pub consecutive_ports :
      (around around' : Around crypto) (request request' : PurchaseRequest floats)
      (db db1 db2 db3 : S.Db) (reply reply' : ContractMessage floats) (n next : ℕ)
      (offer : Offer floats.Float) (ip : Ip Address) (lo hi : ℕ)
      → handle_purchase floats crypto ipv6 S wire full_clean around request db ≡ (ok reply, db1)
      → Reach floats crypto S ipv6 wire full_clean db1 db2
      → handle_purchase floats crypto ipv6 S wire full_clean around' request' db2 ≡ (ok reply', db3)
      → request.offer.id ≡ pos n
      → S.deprecated_by db1 n ≡ some next
      → request'.offer.id ≡ pos next
      → S.by_id db n ≡ some offer
      → ip_port_range_from_str ipv6 offer.br_address_template ≡ ok (ip, pos lo, pos hi)
      → IsAddress ipv6 ip
      → hi ≤ 65534
      → (port : ℕ) × (reply.br_address ≡ ip_port_to_str ipv6 ip (pos port))
        × (reply'.br_address ≡ ip_port_to_str ipv6 ip (pos (port + 1)))
        × (port + 1 ≤ hi)
  unfolding handle_purchase
  consecutive_ports around around' request request' db db1 db2 db3 reply reply' n next offer ip lo
        hi e r e' asks link asks' at reads printed bound =
      let (b, replied) =
        purchase_with-Bargain floats crypto ipv6 S wire full_clean around
          (purchase_getter S request.offer.id) request db db1 reply e in
      let (n0, asked, _, available) =
        purchase_getter_inv S request.offer.id db b.requested b.available b.found in
      let same : n0 ≡ n = pos-injective (sym asked ∙ asks) in
      let found_at : S.by_id db n ≡ some b.available =
        subst (λ (j : ℕ). S.by_id db j ≡ some b.available) same available.0 in
      let exact : b.available ≡ offer = some-injective (sym found_at ∙ at) in
      let (deprecated, order, contract, rest_at) =
        Purchased-sold floats crypto ipv6 S laws full_clean b.requested b.available
          (purchase_in floats crypto ipv6 S wire request) db db1 b.key b.contract b.rest b.done n
          found_at in
      let later = Reach-Growth floats crypto S ipv6 wire full_clean laws r in
      let rest_key : b.done.rest_key ≡ next = some-injective (sym deprecated ∙ link) in
      let (b', replied') =
        purchase_with-Bargain floats crypto ipv6 S wire full_clean around'
          (purchase_getter S request'.offer.id) request' db2 db3 reply' e' in
      let (n1, asked', _, available') =
        purchase_getter_inv S request'.offer.id db2 b'.requested b'.available b'.found in
      let same' : n1 ≡ b.done.rest_key = pos-injective (sym asked' ∙ asks') ∙ sym rest_key in
      let rest : b'.available ≡ b.rest = some-injective (
        sym available'.0
        ∙ (ap (S.by_id db2) same' ∙ Growth-offer ipv6 S b.done.rest_key b.rest rest_at later)) in
      let linked : b'.available.deprecates ≡ some n =
        ap (λ (o : Offer floats.Float). o.deprecates) (rest ∙ b.done.rest_lem)
        ∙ laws.own_id db n b.available found_at in
      let template : b'.available.br_address_template ≡ offer.br_address_template =
        ap (λ (o : Offer floats.Float). o.br_address_template) (rest ∙ b.done.rest_lem)
        ∙ ap (λ (o : Offer floats.Float). o.br_address_template) exact in
      let (order2, contract2) = Growth-sold ipv6 S n next link later in
      let i =
        laws.insert_order_lem
          (ordered b'.available (purchase_in floats crypto ipv6 S wire request') b'.done.buyer) db2
          b'.done.db1 b'.done.order_key b'.done.ordered_lem in
      let (po, has_order) =
        some_order (is_key b'.available.id n)
          (ordered b'.available (purchase_in floats crypto ipv6 S wire request') b'.done.buyer)
          (ordered b.available (purchase_in floats crypto ipv6 S wire request) b.done.buyer) in
      let ordered_at : S.order_of b'.done.db1 n ≡ some po =
        i.orders n ∙ (rw (order2 ∙ order) has_order) in
      let contract_at = i.same_contracts n ∙ (contract2 ∙ contract) in
      let used = ok-injective (
        sym b'.done.contracted.uses
        ∙ used_address-some b'.available b'.done.db1 n po b.contract linked ordered_at
            contract_at) in
      let (port, first, small) =
        found_port ipv6 b.available b.done.contracted.used b.contract.br_address ip lo hi
          (rw exact reads) b.done.contracted.address in
      let next_found =
        sym (find_next ipv6 b'.available ip lo hi port (rw template reads) printed (omega arith))
        ∙ (ap (λ (t : Text). find_available_br_address ipv6 b'.available (some t)) (sym first)
            ∙ (ap (find_available_br_address ipv6 b'.available) (sym used)
                ∙ b'.done.contracted.address)) in
      let (second, bounded) = within hi (port + 1) _ _ next_found in
      (
        port,
        ap (λ (m : ContractMessage floats). m.br_address) replied
            ∙ (contract_message-br_address floats b.key b.contract b.available ∙ first),
        ap (λ (m : ContractMessage floats). m.br_address) replied'
            ∙ (contract_message-br_address floats b'.key b'.contract b'.available ∙ second),
        bounded,
      )
