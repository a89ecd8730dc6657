-- ===== src/Market/Trade/Safety.antt =====
-- The service over time: what no sequence of calls can do.
use esdx_scion.Base.{
  List, [], ℕ, ◌≡◌, ◌⊎◌, refl, sym, ap, subst, ◌∙◌, Bool, none, some, Result, ok, err, Exn,
  service_error, inl, inr, false, Option-cases, ok-injective,
}
use esdx_scion.Base.Int.{◌+ℤ◌, ◌≤ℤ◌, ℤ, pos, pos-injective}
use esdx_scion.Conversion.Ip.{Ipv6}
use esdx_scion.Serialize.{Floats}
use esdx_scion.Messages.{PurchaseRequest, ContractMessage, GetContractRequest}
use esdx_scion.Crypto.{Cryptography, load_certificate}
use esdx_scion.Client.{MarketClient, get_contract}
use esdx_scion.Market.Offer.{Offer}
use esdx_scion.Market.Order.{As, PurchaseOrder, Contract}
use esdx_scion.Market.Derived.{EndsAt, IsAscending, get_derived-EndsAt}
use esdx_scion.Market.Service.{contract_message}
use esdx_scion.Market.Service.Authorized.{handle_get_contract-get_contract}
use esdx_scion.Market.Storage.{Storage, IsLawful}
use esdx_scion.Market.Manager.{
  IsAvailable, is_some, rows_of, EndsAt-none, queries_of, equivalent_getter, purchase_getter_inv,
}
use esdx_scion.Market.Purchase.{Around}
use esdx_scion.Market.Trade.{Wire, handle_purchase}
use esdx_scion.Market.Trade.Invariant.{IsMarket}
use esdx_scion.Market.Trade.Growth.{
  Growth, Growth-IsMarket, Growth-link, Growth-offer, Growth-contract, Growth-ases,
}
use esdx_scion.Conversion.Csv.{csv_to_intlist}
use esdx_scion.Market.Profile.Chain.{Sale, taken_at}
use esdx_scion.Market.Profile.Reference.{bw_at}
use esdx_scion.Market.Trade.Sales.{History, History-EndsAt, History-taken}
use esdx_scion.Market.Trade.Deal.{handle_purchase-Deal}
use esdx_scion.Market.Trade.Serve.{buy, fetch, serve, serve-err, Reach, Reach-Growth, serve-Growth}

result-cases :
    {A Db : Type 0} (r : Result A × Db)
    → ((a : A) × (db : Db) × (r ≡ (ok a, db))) ⊎ ((e : Exn) × (db : Db) × (r ≡ (err e, db)))
result-cases (ok a, db) = inl (a, db, refl)
result-cases (err e, db) = inr (e, db, refl)

both : {A B : Type 0} {a a' : A} {b b' : B} → a ≡ a' → b ≡ b' → ◌≡◌ {A = A × B} (a, b) (a', b')
both e f = cc (e, f)

contract_message-contract_id :
    (floats : Floats) (id : ℤ) (c : Contract) (o : Offer floats.Float)
    → (contract_message floats id c o).contract_id ≡ id
unfolding contract_message
contract_message-contract_id floats id c o = refl

module _ (floats : Floats) (S : Storage floats.Float) (laws : IsLawful S) (ipv6 : Ipv6) where
  IsMarket-IsAscending :
      (db : S.Db) → IsMarket ipv6 S db → IsAscending (S.deprecated_by db) (S.size db)
  IsMarket-IsAscending db m i k e =
      let l = m.linked i k e in (l.up, laws.below_size db k l.new l.new_at)

  unsold_end :
      (db : S.Db) (n : ℕ)
      → IsMarket ipv6 S db
      → S.deprecated_by db n ≡ none
      → is_some (S.order_of db n) ≡ false
  unsold_end db n m e = elim (Option-cases (S.order_of db n)) [
    | inl unsold ↦ rw unsold refl
    | inr (po, sold) ↦ let (k, link) = m.sold_deprecated n po sold in absurd (cc (sym link ∙ e))
  ]

  end_stored :
      (db : S.Db) {last id : ℕ} (o : Offer floats.Float)
      → IsMarket ipv6 S db
      → S.by_id db id ≡ some o
      → EndsAt (S.deprecated_by db) last id
      → (a : Offer floats.Float) × (S.by_id db last ≡ some a)
  end_stored db o m at (EndsAt.at_end e) = (o, at)
  end_stored db o m at (EndsAt.later id k link ends) =
      let l = m.linked id k link in end_stored db l.new m l.new_at ends

  -- In tables that have the invariant, `get_derived` finds an offer for every stored one: its walk ends at
  -- the end of the chain of deprecations, and the offer there is stored, available and not sold.
  pub equivalent_getter-IsAvailable :
      (db : S.Db) (id : ℕ) (o : Offer floats.Float)
      → IsMarket ipv6 S db
      → S.by_id db id ≡ some o
      → (n : ℕ) × (a : Offer floats.Float) × EndsAt (S.deprecated_by db) n id
        × IsAvailable S db n a
        × (equivalent_getter S (pos id) db ≡ ok (o, a))
  unfolding equivalent_getter
  equivalent_getter-IsAvailable db id o m at =
      let (last, ends, walked) =
        get_derived-EndsAt (rows_of S db) (S.size db) id o (IsMarket-IsAscending db m)
          (laws.below_size db id o at) at in
      let (a, a_at) = end_stored db o m at ends in
      let unsold = unsold_end db last m (EndsAt-none S ends) in
      (last, a, ends, (a_at, EndsAt-none S ends), rw (walked, unsold, at, a_at) refl)

module _ (floats : Floats) (crypto : Cryptography) (S : Storage floats.Float) (ipv6 : Ipv6)
    (wire : Wire floats) (full_clean : S.Db → Offer floats.Float → Bool) (laws : IsLawful S) where
  -- In every state that calls reach from one with the invariant, the invariant holds: a deprecated offer
  -- is linked to a later copy that lacks at most what was sold, a sold offer is deprecated and has a
  -- contract, no other offer has one, and every offer is valid.
  pub Reach-IsMarket :
      (db db' : S.Db)
      → IsMarket ipv6 S db
      → Reach floats crypto S ipv6 wire full_clean db db'
      → IsMarket ipv6 S db'
  Reach-IsMarket db db' m r =
      Growth-IsMarket ipv6 S m (Reach-Growth floats crypto S ipv6 wire full_clean laws r)

  -- An offer is sold once: after a `Purchase` that returned and any calls that follow it, a `Purchase` of
  -- the same offer raises a MarketServiceError and leaves the tables as they were.
  pub sold_once :
      (around around' : Around crypto) (request request' : PurchaseRequest floats)
      (db db1 db2 : S.Db) (reply : ContractMessage floats)
      → handle_purchase floats crypto ipv6 S wire full_clean around request db ≡ (ok reply, db1)
      → Reach floats crypto S ipv6 wire full_clean db1 db2
      → request'.offer.id ≡ request.offer.id
      → handle_purchase floats crypto ipv6 S wire full_clean around' request' db2
        ≡ (err service_error, db2)
  unfolding handle_purchase
  sold_once around around' request request' db db1 db2 reply e r same =
      let d =
        handle_purchase-Deal floats crypto ipv6 S wire laws full_clean around request db db1 reply
          e in
      let link =
        Growth-link ipv6 S d.n d.next d.deprecated
          (Reach-Growth floats crypto S ipv6 wire full_clean laws r) in
      elim (result-cases
        (handle_purchase floats crypto ipv6 S wire full_clean around' request' db2)) [
          | inl (reply', db3, e') ↦
              let d' =
                handle_purchase-Deal floats crypto ipv6 S wire laws full_clean around' request' db2
                  db3 reply' e' in
              let key : d'.n ≡ d.n = pos-injective (sym d'.asked ∙ (same ∙ d.asked)) in
              absurd (cc (sym d'.available.1 ∙ (ap (S.deprecated_by db2) key ∙ link)))
          | inr (x, db3, e') ↦
              let (exact, left) =
                serve-err floats crypto S ipv6 wire full_clean (buy around' request') db2 db3 x
                  e' in
              elim left [
                | inl unchanged ↦
                    subst
                      (λ (p : Exn × S.Db).
                        handle_purchase floats crypto ipv6 S wire full_clean around' request' db2
                        ≡ (err p.0, p.1))
                      (both exact unchanged) e'
                | inr (_, b) ↦
                    let (n, asked, _, available) =
                      purchase_getter_inv S request'.offer.id db2 b.requested b.available b.found in
                    let key : n ≡ d.n = pos-injective (sym asked ∙ (same ∙ d.asked)) in
                    absurd (cc (sym available.1 ∙ (ap (S.deprecated_by db2) key ∙ link)))
              ]
        ]

  -- What a buyer has bought it can fetch: after a `Purchase` that returned and any calls that follow it,
  -- `GetContract` returns the same message to the buyer's client, if the client's identifier is the one
  -- in the request and, letter by letter, in the stored row of the buyer, the certificate in that row can
  -- be loaded and belongs to the client's key, the request can be built, and the message can be made.
  pub fetch_bought :
      (around : Around crypto) (request : PurchaseRequest floats) (db db1 db2 : S.Db)
      (reply : ContractMessage floats) (self : MarketClient crypto) (cert : crypto.Certificate)
      (salt : ℕ) (buyer : As) (fetching : GetContractRequest)
      → handle_purchase floats crypto ipv6 S wire full_clean around request db ≡ (ok reply, db1)
      → Reach floats crypto S ipv6 wire full_clean db1 db2
      → self.ia ≡ request.buyer_iaid
      → S.get_as db self.ia ≡ ok buyer
      → buyer.iaid ≡ self.ia
      → load_certificate crypto buyer.certificate_pem ≡ ok cert
      → crypto.Certifies cert self.key
      → get_contract crypto self salt reply.contract_id ≡ ok fetching
      → serve floats crypto S ipv6 wire full_clean (fetch (ok tt) fetching) db2 ≡ (ok reply, db2)
  fetch_bought around request db db1 db2 reply self cert salt buyer fetching e r ia known spelt
        loads pair asks =
      let d =
        handle_purchase-Deal floats crypto ipv6 S wire laws full_clean around request db db1 reply
          e in
      let bought : Growth ipv6 S db db1 =
        serve-Growth floats crypto S ipv6 wire full_clean laws (buy around request) db db db1
          (ok reply) Growth.same e in
      let later = Reach-Growth floats crypto S ipv6 wire full_clean laws r in
      let own = laws.own_id db d.n d.offer d.available.0 in
      let keyed : d.contract.purchase_order.offer_id ≡ some d.n =
        ap (λ (po : PurchaseOrder). po.offer_id) d.contracted ∙ own in
      let number : reply.contract_id ≡ pos d.key =
        ap (λ (m : ContractMessage floats). m.contract_id) d.replied
        ∙ contract_message-contract_id floats (pos d.key) d.contract d.offer in
      let contract_at = Growth-contract ipv6 S d.key d.contract d.contract_stored later in
      let offer_at =
        Growth-offer ipv6 S d.n d.offer (Growth-offer ipv6 S d.n d.offer d.available.0 bought)
          later in
      let found : (queries_of floats S db2).contract_by_id reply.contract_id
          ≡ ok (d.contract, d.offer) =
        ap (queries_of floats S db2).contract_by_id number
        ∙ rw (contract_at, keyed, offer_at) refl in
      let party : d.contract.purchase_order.buyer.iaid ≡ self.ia =
        ap (λ (po : PurchaseOrder). po.buyer.iaid) d.contracted
        ∙ (ap (λ (a : As). a.iaid)
              (ok-injective (sym d.known ∙ (ap (S.get_as db) (sym ia) ∙ known)))
            ∙ spelt) in
      let same_as = Growth-ases ipv6 S self.ia later ∙ Growth-ases ipv6 S self.ia bought in
      let answer =
        handle_get_contract-get_contract floats crypto (queries_of floats S db2) self cert salt
          buyer reply.contract_id fetching d.contract d.offer pair loads asks (same_as ∙ known)
          found (inl party) in
      both
        (answer
          ∙ (ap (λ (i : ℤ). ok (contract_message floats i d.contract d.offer)) number
              ∙ ap ok (sym d.replied)))
        refl

  -- However often an offer is sold, no period is sold beyond what was offered. In every state that calls
  -- reach from one with the invariant, the profile of each stored offer can be read, and from each offer at
  -- the end of its chain of deprecations the orders back to it can be read as sales. Along the chain, in
  -- each period that was offered with no negative bandwidth, the sales took at most what was offered, and
  -- the rest of it is in the profile of the offer that they lead to.
  pub never_oversold :
      (db0 db : S.Db) (first : Offer floats.Float) (id : ℕ)
      → IsMarket ipv6 S db0
      → Reach floats crypto S ipv6 wire full_clean db0 db
      → S.by_id db id ≡ some first
      → (orig : List ℤ) × (csv_to_intlist first.bw_profile ≡ ok orig)
        × ((last : ℕ)
            → EndsAt (S.deprecated_by db) last id
            → (sales : List Sale) × History ipv6 S db first id last sales)
        × ((k : ℕ) (sales : List Sale) (i : ℕ)
            → History ipv6 S db first id k sales
            → pos 0 ≤ℤ bw_at orig i
            → (o : Offer floats.Float) × (prof : List ℤ) × (S.by_id db k ≡ some o)
              × (csv_to_intlist o.bw_profile ≡ ok prof)
              × (bw_at prof i +ℤ taken_at sales i ≡ bw_at orig i)
              × (taken_at sales i ≤ℤ bw_at orig i))
  never_oversold db0 db first id start r at =
      let m = Reach-IsMarket db0 db start r in
      let v = m.valid id first at in
      (
        v.profile,
        v.reads,
        λ last ends.
            History-EndsAt ipv6 S db m first id v.profile at v.reads [] History.original ends,
        λ k sales i h offered.
            History-taken ipv6 S db m first id v.profile at v.reads k sales i h offered,
      )
