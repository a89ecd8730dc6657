-- ===== src/Market/Trade/Serve.antt =====
-- `MarketService` of services.py: its calls, one after the other, and the states that they reach.
use esdx_scion.Base.{
  ◌≡◌, refl, sym, ap, subst, Bool, none, List, Result, ok, err, Exn, service_error, ◌⊎◌, inl, inr,
}
use esdx_scion.Conversion.Ip.{Ipv6}
use esdx_scion.Serialize.{Floats, OfferSpecification, OfferMessage}
use esdx_scion.Messages.{PurchaseRequest, ContractMessage, GetContractRequest}
use esdx_scion.Crypto.{Cryptography}
use esdx_scion.Transaction.{
  Tx, ◌>>=◌, except, lift_inv, query, atomic_inv, atomic-err, except_inv, except-err, lift, atomic,
}
use esdx_scion.Market.Offer.{Offer}
use esdx_scion.Market.Service.{handle_get_contract, find_contract, or_service_error}
use esdx_scion.Market.Storage.{Storage, IsLawful}
use esdx_scion.Market.Manager.{
  queries_of, purchase_getter, purchase_getter_inv, equivalent_getter, equivalent_getter_inv,
}
use esdx_scion.Market.Purchase.{Around}
use esdx_scion.Market.Trade.{
  Wire, create, add_offer, handle_purchase, handle_purchase_equivalent, list_offers,
  to_service_error,
}
use esdx_scion.Market.Trade.Growth.{Growth}
use esdx_scion.Market.Trade.Calls.{
  Bargain, purchase_with-Bargain, purchase_with-err, Bargain-Growth, store_offer-Growth,
}

module _ (floats : Floats) (crypto : Cryptography) (S : Storage floats.Float) where
  open floats use {Float}

  -- the calls of the service, with what they find around them; the result in `fetch` is that of the
  -- libraries when they make the message
  pub data Call : Type 0 where
    list : Call
    add : Around crypto → OfferSpecification floats → Call
    buy : Around crypto → PurchaseRequest floats → Call
    buy_equivalent : Around crypto → PurchaseRequest floats → Call
    fetch : Result (Unit {0}) → GetContractRequest → Call

  abbrev pub Reply : Call → Type 0
  Reply list = List (OfferMessage floats)
  Reply (add around request) = OfferMessage floats
  Reply (buy around request) = ContractMessage floats
  Reply (buy_equivalent around request) = ContractMessage floats
  Reply (fetch rendering request) = ContractMessage floats

  module _ (ipv6 : Ipv6) (wire : Wire floats) (full_clean : S.Db → Offer Float → Bool) where
    abbrev pub serve : (c : Call) → Tx S.Db (Reply c)
    serve list = list_offers floats crypto ipv6 S wire
    serve (add around request) = add_offer floats crypto ipv6 S wire full_clean around request
    serve (buy around request) = handle_purchase floats crypto ipv6 S wire full_clean around request
    serve (buy_equivalent around request) =
        handle_purchase_equivalent floats crypto ipv6 S wire full_clean around request
    serve (fetch rendering request) =
        query (λ db. handle_get_contract floats crypto rendering (queries_of floats S db) request)

    -- A purchase that was made though its call raised: only when its reply could not be rendered.
    abbrev pub Unanswered : Call → S.Db → S.Db → Type 0
    Unanswered list db db' = ⊥
    Unanswered (add around request) db db' = ⊥
    Unanswered (buy around request) db db' =
        ((x : Exn) × (around.rendering ≡ err x))
        × Bargain floats crypto ipv6 S wire full_clean (purchase_getter S request.offer.id) request
            db db'
    Unanswered (buy_equivalent around request) db db' =
        ((x : Exn) × (around.rendering ≡ err x))
        × Bargain floats crypto ipv6 S wire full_clean (equivalent_getter S request.offer.id)
            request db db'
    Unanswered (fetch rendering request) db db' = ⊥

    -- the states after any calls, whether they return or raise
    pub data Reach (db : S.Db) : S.Db → Type 0 where
      start : Reach db db
      served :
          (db1 db2 : S.Db) (c : Call) (result : Result (Reply c))
          → Reach db db1
          → serve c db1 ≡ (result, db2)
          → Reach db db2

    service_err :
        {A : Type 0} (r : Result A) {e : Exn} → or_service_error r ≡ err e → e ≡ service_error
    service_err (ok a) h = absurd (cc)
    service_err (err x) h = cc

    -- code that only reads, or whose writes are rolled back
    Restores : {A : Type 0} → Tx S.Db A → Type 0
    Restores m = (db db' : S.Db) (e : Exn) → m db ≡ (err e, db') → db' ≡ db

    Restores-query : {A : Type 0} (q : S.Db → Result A) → Restores (query q)
    unfolding Restores
    Restores-query q db db' e h = sym (ap (λ (p : Result _ × S.Db). p.1) h)

    Restores-atomic : {A : Type 0} (m : Tx S.Db A) → Restores (atomic m)
    unfolding Restores
    Restores-atomic m db db' e h = atomic-err m h

    Restores-lift :
        {A B : Type 0} (r : Result A) (f : A → Tx S.Db B)
        → ((a : A) → Restores (f a))
        → Restores (lift r >>= f)
    unfolding Restores
    Restores-lift (ok a) f restores db db' e h = restores a db db' e h
    Restores-lift (err x) f restores db db' e h = sym (ap (λ (p : Result _ × S.Db). p.1) h)

    unchanged :
        {e : Exn} {db db' : S.Db} {B : Type 0}
        → (e ≡ service_error) × (db' ≡ db)
        → (e ≡ service_error) × ((db' ≡ db) ⊎ B)
    unchanged (exact, same) = (exact, inl same)

    raised :
        {A : Type 0} (m : Tx S.Db A) {db db' : S.Db} {e : Exn}
        → Restores m
        → except to_service_error m db ≡ (err e, db')
        → (e ≡ service_error) × (db' ≡ db)
    unfolding Restores
    raised m restores h =
        let (x, inner, exact) = except-err to_service_error m h in (exact, restores _ _ x inner)

    -- Every call that raises, raises a MarketServiceError and leaves the tables as they were before it,
    -- except for a purchase whose reply the libraries could not make after the transaction: this one was
    -- made, as the tables show.
    pub serve-err :
        (c : Call) (db db' : S.Db) (e : Exn)
        → serve c db ≡ (err e, db')
        → (e ≡ service_error) × ((db' ≡ db) ⊎ Unanswered c db db')
    unfolding list_offers add_offer handle_purchase handle_purchase_equivalent handle_get_contract
        Restores
    serve-err list db db' e h = unchanged (raised (query _) (Restores-query _) h)
    serve-err (add around request) db db' e h =
        unchanged (raised _ (Restores-lift (wire.validated request) _ λ a. Restores-atomic _) h)
    serve-err (buy around request) db db' e h =
        purchase_with-err floats crypto ipv6 S wire full_clean around _ request db db' e h
    serve-err (buy_equivalent around request) db db' e h =
        purchase_with-err floats crypto ipv6 S wire full_clean around _ request db db' e h
    serve-err (fetch rendering request) db db' e h = (
      service_err (find_contract floats crypto rendering (queries_of floats S db) request)
          (ap (λ (p : Result _ × S.Db). p.0) h),
      inl (
          Restores-query
            (λ d. handle_get_contract floats crypto rendering (queries_of floats S d) request) db
            db' e h),
    )

    module _ (laws : IsLawful S) where
      same_tables :
          {A : Type 0} {db0 db db' : S.Db} {r r' : Result A}
          → ◌≡◌ {A = Result A × S.Db} (r, db) (r', db')
          → Growth ipv6 S db0 db
          → Growth ipv6 S db0 db'
      same_tables {db0} h = subst (λ (p : Result _ × S.Db). Growth ipv6 S db0 p.1) h

      bought-Growth :
          (request : PurchaseRequest floats) (db0 db db' : S.Db)
          → Growth ipv6 S db0 db
          → Bargain floats crypto ipv6 S wire full_clean
              (purchase_getter S request.offer.id)
              request
              db
              db'
          → Growth ipv6 S db0 db'
      bought-Growth request db0 db db' before b =
          Bargain-Growth floats crypto ipv6 S wire laws full_clean
            (purchase_getter S request.offer.id) request db0 db db'
            (λ r a found.
              let (n, _, _, available) = purchase_getter_inv S request.offer.id db r a found in
              (n, available))
            before b

      bought_equivalent-Growth :
          (request : PurchaseRequest floats) (db0 db db' : S.Db)
          → Growth ipv6 S db0 db
          → Bargain floats crypto ipv6 S wire full_clean
              (equivalent_getter S request.offer.id)
              request
              db
              db'
          → Growth ipv6 S db0 db'
      bought_equivalent-Growth request db0 db db' before b =
          Bargain-Growth floats crypto ipv6 S wire laws full_clean
            (equivalent_getter S request.offer.id) request db0 db db'
            (λ r a found.
              let (i, n, _, _, available, _) =
                equivalent_getter_inv S request.offer.id db r a found in
              (n, available))
            before b

      Unanswered-Growth :
          (c : Call) (db0 db db' : S.Db)
          → Growth ipv6 S db0 db
          → Unanswered c db db'
          → Growth ipv6 S db0 db'
      Unanswered-Growth (buy around request) db0 db db' before (_, b) =
          bought-Growth request db0 db db' before b
      Unanswered-Growth (buy_equivalent around request) db0 db db' before (_, b) =
          bought_equivalent-Growth request db0 db db' before b
      Unanswered-Growth list db0 db db' before h = elim h [ ]
      Unanswered-Growth (add around request) db0 db db' before h = elim h [ ]
      Unanswered-Growth (fetch rendering request) db0 db db' before h = elim h [ ]

      -- a call that returned has only let the tables grow
      serve-ok :
          (c : Call) (db0 db db' : S.Db) (reply : Reply c)
          → Growth ipv6 S db0 db
          → serve c db ≡ (ok reply, db')
          → Growth ipv6 S db0 db'
      unfolding list_offers add_offer handle_purchase handle_purchase_equivalent
      serve-ok list db0 db db' reply before h =
          same_tables (except_inv to_service_error (query _) h) before
      serve-ok (add around request) db0 db db' reply before h =
          lift_inv (wire.validated request) _ (except_inv to_service_error _ h) λ values _ h1.
            store_offer-Growth floats crypto ipv6 S wire laws full_clean around
              (record (create floats values) { id = none }) db0 db db' reply refl before
              (atomic_inv _ h1)
      serve-ok (buy around request) db0 db db' reply before h =
          let (b, _) =
            purchase_with-Bargain floats crypto ipv6 S wire full_clean around
              (purchase_getter S request.offer.id) request db db' reply h in
          bought-Growth request db0 db db' before b
      serve-ok (buy_equivalent around request) db0 db db' reply before h =
          let (b, _) =
            purchase_with-Bargain floats crypto ipv6 S wire full_clean around
              (equivalent_getter S request.offer.id) request db db' reply h in
          bought_equivalent-Growth request db0 db db' before b
      serve-ok (fetch rendering request) db0 db db' reply before h = same_tables h before

      -- Every call, returned or raised, lets the tables only grow by valid offers.
      pub serve-Growth :
          (c : Call) (db0 db db' : S.Db) (result : Result (Reply c))
          → Growth ipv6 S db0 db
          → serve c db ≡ (result, db')
          → Growth ipv6 S db0 db'
      serve-Growth c db0 db db' (ok reply) before h = serve-ok c db0 db db' reply before h
      serve-Growth c db0 db db' (err e) before h = elim (serve-err c db db' e h).1 [
        | inl same ↦ subst (λ (d : S.Db). Growth ipv6 S db0 d) (sym same) before
        | inr made ↦ Unanswered-Growth c db0 db db' before made
      ]

      -- The calls implement the growth of the tables: whatever calls are served, returned or raised, the
      -- tables have only grown, by valid offers, each of which deprecates at most one offer that nothing
      -- had deprecated, and takes over its profile, or what a sale of that one left of it.
      pub Reach-Growth : {db db' : S.Db} → Reach db db' → Growth ipv6 S db db'
      Reach-Growth Reach.start = Growth.same
      Reach-Growth (Reach.served db1 db2 c result before h) =
          serve-Growth c _ db1 db2 result (Reach-Growth before) h
