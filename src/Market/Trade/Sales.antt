-- ===== src/Market/Trade/Sales.antt =====
-- What was sold of an offer: the orders along the chain of the offers that deprecate one another.
use esdx_scion.Base.{
  ℕ, ◌*◌, ◌≡◌, refl, sym, ap, subst, ◌∙◌, Option, none, some, List, [], ◌∷◌, ok, ok-injective,
  some-injective, Option-cases, inl, inr, arith,
}
use esdx_scion.Base.Int.{pos-injective, ℤ, pos, ◌+ℤ◌, ◌≤ℤ◌}
use esdx_scion.Conversion.Csv.{csv_to_intlist}
use esdx_scion.Conversion.Ip.{Ipv6}
use esdx_scion.Market.Time.{DateTime, elapsed, period_micros}
use esdx_scion.Market.Profile.{buy}
use esdx_scion.Market.Profile.Reference.{bw_at, subtract_at}
use esdx_scion.Market.Profile.Purchase.{buy-eq-some}
use esdx_scion.Market.Profile.Chain.{Sale, Sold, unsold, sold, taken_at, Sold-never_oversold}
use esdx_scion.Market.Offer.{Offer, purchase}
use esdx_scion.Market.Offer.Bought.{purchase_iff}
use esdx_scion.Market.Offer.Renewal.{reads_rest}
use esdx_scion.Market.Order.{PurchaseOrder}
use esdx_scion.Market.Derived.{EndsAt}
use esdx_scion.Market.Storage.{Storage}
use esdx_scion.Market.Trade.Invariant.{Change, IsMarket}

module _ (ipv6 : Ipv6) {F : Type 0} (S : Storage F) where
  -- The sales between an offer and one that came of it, the last of which stands first: the order of
  -- each offer that was sold, with its periods counted from the beginning of the first offer.
  pub data History (db : S.Db) (first : Offer F) (id : ℕ) : ℕ → List Sale → Type 0 where
    original : History db first id id []
    renewed :
        {l : ℕ} {sales : List Sale} (k : ℕ)
        → History db first id k sales
        → S.deprecated_by db k ≡ some l
        → S.order_of db k ≡ none
        → History db first id l sales
    ordered :
        {l : ℕ} (k : ℕ) (sales : List Sale) (po : PurchaseOrder) (n : ℕ) (that : List ℤ)
        → History db first id k sales
        → S.deprecated_by db k ≡ some l
        → S.order_of db k ≡ some po
        → csv_to_intlist po.bw_profile ≡ ok that
        → elapsed po.starting_on first.notbefore ≡ ok (pos (n * period_micros))
        → History db first id l ((n, that) ∷ sales)

  -- What an offer at the end of a history is: it begins when the first one does, and its profile is
  -- what the sales left.
  pub record Left (db : S.Db) (first : Offer F) (orig : List ℤ) (k : ℕ) (sales : List Sale)
      : Type 0 where
    pub offer : Offer F
    pub stored : S.by_id db k ≡ some offer
    pub begins : offer.notbefore ≡ first.notbefore
    pub prof : List ℤ
    pub reads : csv_to_intlist offer.bw_profile ≡ ok prof
    pub chain : Sold orig sales prof

  -- the sale of an order, as the profile before it and after it have it
  record SaleStep (o p : Offer F) (po : PurchaseOrder) (prof : List ℤ) : Type 0 where
    pub n : ℕ
    pub that : List ℤ
    pub new : List ℤ
    pub reads_that : csv_to_intlist po.bw_profile ≡ ok that
    pub starts : elapsed po.starting_on o.notbefore ≡ ok (pos (n * period_micros))
    pub bought : buy n that prof ≡ some new
    pub reads_new : csv_to_intlist p.bw_profile ≡ ok new

  purchase-SaleStep :
      (o p : Offer F) (po : PurchaseOrder) (prof : List ℤ)
      → csv_to_intlist o.bw_profile ≡ ok prof
      → purchase o po.bw_profile po.starting_on ≡ ok (some p.bw_profile)
      → SaleStep o p po prof
  purchase-SaleStep o p po prof reads e =
      let b = (purchase_iff o po.bw_profile po.starting_on p.bw_profile).0 e in
      let same : b.orig ≡ prof = ok-injective (sym b.reads_orig ∙ reads) in
      record {
        n = b.starts.offset;
        that = b.that;
        new = subtract_at b.starts.offset b.that b.orig;
        reads_that = b.reads_that;
        starts = b.elapses ∙ ap ok b.starts.on_time;
        bought = rw (sym same) (
            (buy-eq-some b.starts.offset b.that b.orig _).1
              (b.starts.covers, b.starts.some_bought, refl));
        reads_new = reads_rest o po.bw_profile po.starting_on p.bw_profile b;
      }

  same_offset : (m n : ℕ) → pos (m * period_micros) ≡ pos (n * period_micros) → m ≡ n
  same_offset m n e =
      let same : m * period_micros ≡ n * period_micros = pos-injective e in omega arith

  module _ (db : S.Db) (m : IsMarket ipv6 S db) (first : Offer F) (id : ℕ) where
    -- where a link leads from an offer that is known
    linked_offer :
        (k l : ℕ) (o : Offer F)
        → S.by_id db k ≡ some o
        → S.deprecated_by db k ≡ some l
        → (p : Offer F) × (S.by_id db l ≡ some p)
          × (p.notbefore ≡ o.notbefore)
          × Change (S.order_of db k) o p
    linked_offer k l o at e =
        let link = m.linked k l e in
        let same : link.old ≡ o = some-injective (sym link.old_at ∙ at) in
        (
          link.new,
          link.new_at,
          ap (λ (q : Offer F). q.notbefore) link.copy ∙ ap (λ (q : Offer F). q.notbefore) same,
          subst (λ (q : Offer F). Change (S.order_of db k) q link.new) same link.change,
        )

    Change-order :
        (order order' : Option PurchaseOrder) (o p : Offer F)
        → order ≡ order'
        → Change order o p
        → Change order' o p
    Change-order order order' o p e = subst (λ (x : Option PurchaseOrder). Change x o p) e

    module _ (orig : List ℤ) (at : S.by_id db id ≡ some first)
        (reads : csv_to_intlist first.bw_profile ≡ ok orig) where
      Left-renewed :
          (k l : ℕ) (sales : List Sale)
          → Left db first orig k sales
          → S.deprecated_by db k ≡ some l
          → S.order_of db k ≡ none
          → Left db first orig l sales
      Left-renewed k l sales h link unordered =
          let (p, p_at, begins, change) = linked_offer k l h.offer h.stored link in
          let same : p.bw_profile ≡ h.offer.bw_profile =
            Change-order _ none h.offer p unordered change in
          record {
            offer = p;
            stored = p_at;
            begins = begins ∙ h.begins;
            prof = h.prof;
            reads = rw same h.reads;
            chain = h.chain;
          }

      sale_of :
          (k l : ℕ) (sales : List Sale) (po : PurchaseOrder)
          → (h : Left db first orig k sales) → S.deprecated_by db k ≡ some l
          → S.order_of db k ≡ some po
          → (p : Offer F) × (S.by_id db l ≡ some p)
            × (p.notbefore ≡ first.notbefore)
            × SaleStep h.offer p po h.prof
      sale_of k l sales po h link order =
          let (p, p_at, begins, change) = linked_offer k l h.offer h.stored link in
          (
            p,
            p_at,
            begins ∙ h.begins,
            purchase-SaleStep h.offer p po h.prof h.reads
                (Change-order _ (some po) h.offer p order change),
          )

      pub History-Left :
          (k : ℕ) (sales : List Sale) → History db first id k sales → Left db first orig k sales
      History-Left k sales History.original = record {
        offer = first;
        stored = at;
        begins = refl;
        prof = orig;
        reads = reads;
        chain = unsold;
      }
      History-Left l sales (History.renewed k before link unordered) =
          Left-renewed k l sales (History-Left k sales before) link unordered
      History-Left l all (History.ordered k sales po n that before link order reads_that starts) =
          let h = History-Left k sales before in
          let (p, p_at, begins, s) = sale_of k l sales po h link order in
          let same_that : that ≡ s.that = ok-injective (sym reads_that ∙ s.reads_that) in
          let start : elapsed po.starting_on h.offer.notbefore ≡ ok (pos (n * period_micros)) =
            rw h.begins starts in
          let same_n : n ≡ s.n = same_offset n s.n (ok-injective (sym start ∙ s.starts)) in
          record {
            offer = p;
            stored = p_at;
            begins = begins;
            prof = s.new;
            reads = s.reads_new;
            chain = sold n that h.chain (rw (same_that, same_n) s.bought);
          }

      -- a deprecated offer adds its order, if it has one
      History-next :
          (k l : ℕ) (sales : List Sale)
          → History db first id k sales
          → S.deprecated_by db k ≡ some l
          → (more : List Sale) × History db first id l more
      History-next k l sales before link = elim (Option-cases (S.order_of db k)) [
        | inl unordered ↦ (sales, History.renewed k before link unordered)
        | inr (po, order) ↦
            let h = History-Left k sales before in
            let (p, _, _, s) = sale_of k l sales po h link order in
            (
              (s.n, s.that) ∷ sales,
              History.ordered k sales po s.n s.that before link order s.reads_that (
                  subst
                    (λ (t : DateTime). elapsed po.starting_on t ≡ ok (pos (s.n * period_micros)))
                    h.begins s.starts),
            )
      ]

      pub History-EndsAt :
          {last k : ℕ} (sales : List Sale)
          → History db first id k sales
          → EndsAt (S.deprecated_by db) last k
          → (all : List Sale) × History db first id last all
      History-EndsAt sales before (EndsAt.at_end e) = (sales, before)
      History-EndsAt sales before (EndsAt.later k l link ends) =
          let (more, next) = History-next k l sales before link in History-EndsAt more next ends

      -- what the sales of a history took of a period, and what they left of it
      pub History-taken :
          (k : ℕ) (sales : List Sale) (i : ℕ)
          → History db first id k sales
          → pos 0 ≤ℤ bw_at orig i
          → (o : Offer F) × (prof : List ℤ) × (S.by_id db k ≡ some o)
            × (csv_to_intlist o.bw_profile ≡ ok prof)
            × (bw_at prof i +ℤ taken_at sales i ≡ bw_at orig i)
            × (taken_at sales i ≤ℤ bw_at orig i)
      History-taken k sales i h offered =
          let l = History-Left k sales h in
          let (total, _, _, within) = Sold-never_oversold orig l.prof sales i l.chain offered in
          (l.offer, l.prof, l.stored, l.reads, total, within)
