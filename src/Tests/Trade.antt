-- ===== src/Tests/Trade.antt =====
-- The theorems on the market service, at a sale from tables in memory.
use esdx_scion.Base.{
  ℕ, ◌≡◌, refl, subst, none, some, List, [], ◌∷◌, ok, err, service_error, ltb, Bool-cases, inl, inr,
  ◌⊎◌, some-injective,
}
use esdx_scion.Base.Int.{ℤ, pos, ◌+ℤ◌, ◌≤ℤ◌}
use esdx_scion.Market.Offer.{Offer}
use esdx_scion.Market.Offer.Valid.{IsValid, pre_save_iff}
use esdx_scion.Market.Storage.Memory.{memory, memory-IsLawful}
use esdx_scion.Market.Trade.{create, handle_purchase}
use esdx_scion.Market.Trade.Invariant.{IsMarket, accept}
use esdx_scion.Market.Trade.Kept.{IsValid-id}
use esdx_scion.Market.Trade.Serve.{buy, fetch, serve, Reach, Unanswered, serve-err, Reach-Growth}
use esdx_scion.Market.Trade.Growth.{Growth, Growth-offer}
use esdx_scion.Market.Trade.Safety.{
  never_oversold, equivalent_getter-IsAvailable, sold_once, fetch_bought, Reach-IsMarket,
}
use esdx_scion.Market.Trade.Deal.{Deal, handle_purchase-Deal}
use esdx_scion.Market.Trade.Sales.{History}
use esdx_scion.Market.Trade.Listing.{list_offers-IsAvailable}
use esdx_scion.Market.Trade.Offered.{Offered, add_offer-Offered}
use esdx_scion.Market.Derived.{EndsAt}
use esdx_scion.Market.Manager.{IsAvailable, equivalent_getter}
use esdx_scion.Market.Profile.Chain.{Sale, taken_at}
use esdx_scion.Market.Profile.Reference.{bw_at}
use esdx_scion.Conversion.Csv.{csv_to_intlist}
use esdx_scion.Serialize.{OfferMessage}
use mathlib.Core.List.{Memᴰ}
use esdx_scion.Tests.Order.{loads}
use esdx_scion.Tests.Data.{loopback_only, digit_floats, three_periods, plain_crypto, buyer}
use esdx_scion.Tests.Sale.{
  plain_wire, one_offer, around, stored, request, any_clean, outcome, reply, ran, linked, bought,
  valid, amount_read, starts, client, fetching, asks, known, printed,
}
use esdx_scion.Tests.Offering.{lists, specs, offering, offered, adds}

row_lem :
    (i : ℕ) (o : Offer ℕ)
    → (memory ℕ).by_id one_offer i ≡ some o
    → record three_periods { id = some i } ≡ o
row_lem i o e = elim (Bool-cases (ltb i 1)) [
  | inl h ↦ some-injective (rw h at e)
  | inr h ↦ absurd (cc (rw h at e))
]

pub one_offer-IsMarket : IsMarket loopback_only (memory ℕ) one_offer
one_offer-IsMarket = record {
  linked = λ i k e. absurd (cc);
  sold_deprecated = λ i po e. absurd (cc);
  sold_contract = λ i po e. absurd (cc);
  unsold_contract = λ i e. refl;
  valid = λ i o e.
      subst (λ (p : Offer ℕ). IsValid loopback_only accept p) (row_lem i o e)
        (IsValid-id loopback_only three_periods i
          ((pre_save_iff loopback_only accept three_periods).0 valid));
}

sold_once_example :
    handle_purchase digit_floats plain_crypto loopback_only
      (memory ℕ)
      plain_wire
      any_clean
      around
      request
      outcome.1
    ≡ (err service_error, outcome.1)
sold_once_example =
    sold_once digit_floats plain_crypto (memory ℕ) loopback_only plain_wire any_clean
      memory-IsLawful around around request request one_offer outcome.1 outcome.1 reply ran
      Reach.start refl

after_sale :
    Reach digit_floats plain_crypto
      (memory ℕ)
      loopback_only
      plain_wire
      any_clean
      one_offer
      outcome.1
after_sale = Reach.served one_offer outcome.1 (buy around request) (ok reply) Reach.start ran

Reach-IsMarket_example : IsMarket loopback_only (memory ℕ) outcome.1
Reach-IsMarket_example =
    Reach-IsMarket digit_floats plain_crypto (memory ℕ) loopback_only plain_wire any_clean
      memory-IsLawful one_offer outcome.1 one_offer-IsMarket after_sale

Reach-Growth_example : Growth loopback_only (memory ℕ) one_offer outcome.1
Reach-Growth_example =
    Reach-Growth digit_floats plain_crypto (memory ℕ) loopback_only plain_wire any_clean
      memory-IsLawful after_sale

serve-err_example :
    (service_error ≡ service_error)
    × ((outcome.1 ≡ outcome.1)
        ⊎ Unanswered digit_floats plain_crypto
            (memory ℕ)
            loopback_only
            plain_wire
            any_clean
            (buy around request)
            outcome.1
            outcome.1)
serve-err_example =
    serve-err digit_floats plain_crypto (memory ℕ) loopback_only plain_wire any_clean
      (buy around request) outcome.1 outcome.1 service_error sold_once_example

equivalent_getter-IsAvailable_example :
    (n : ℕ) × (a : Offer ℕ) × EndsAt ((memory ℕ).deprecated_by outcome.1) n 0
    × IsAvailable (memory ℕ) outcome.1 n a
    × (equivalent_getter (memory ℕ) (pos 0) outcome.1 ≡ ok (stored, a))
equivalent_getter-IsAvailable_example =
    equivalent_getter-IsAvailable digit_floats (memory ℕ) memory-IsLawful loopback_only outcome.1 0
      stored
      (Reach-IsMarket digit_floats plain_crypto (memory ℕ) loopback_only plain_wire any_clean
        memory-IsLawful one_offer outcome.1 one_offer-IsMarket after_sale)
      (Growth-offer loopback_only (memory ℕ) 0 stored refl (
        Reach-Growth digit_floats plain_crypto (memory ℕ) loopback_only plain_wire any_clean
          memory-IsLawful after_sale))

handle_purchase-Deal_example :
    Deal digit_floats plain_crypto loopback_only
      (memory ℕ)
      plain_wire
      request
      one_offer
      reply
      outcome.1
handle_purchase-Deal_example =
    handle_purchase-Deal digit_floats plain_crypto loopback_only (memory ℕ) plain_wire
      memory-IsLawful any_clean around request one_offer outcome.1 reply ran

fetch_bought_example :
    serve digit_floats plain_crypto
      (memory ℕ)
      loopback_only
      plain_wire
      any_clean
      (fetch (ok tt) fetching)
      outcome.1
    ≡ (ok reply, outcome.1)
fetch_bought_example =
    fetch_bought digit_floats plain_crypto (memory ℕ) loopback_only plain_wire any_clean
      memory-IsLawful around request one_offer outcome.1 outcome.1 reply client tt 0 buyer fetching
      ran Reach.start refl known refl loads tt asks

one_sale : History loopback_only (memory ℕ) outcome.1 stored 0 1 ((1, pos 1 ∷ pos 2 ∷ []) ∷ [])
one_sale =
    History.ordered 0 [] _ 1 (pos 1 ∷ pos 2 ∷ []) History.original linked bought amount_read starts

never_oversold_example :
    (orig : List ℤ) × (csv_to_intlist stored.bw_profile ≡ ok orig)
    × ((last : ℕ)
        → EndsAt ((memory ℕ).deprecated_by outcome.1) last 0
        → (sales : List Sale) × History loopback_only (memory ℕ) outcome.1 stored 0 last sales)
    × ((k : ℕ) (sales : List Sale) (i : ℕ)
        → History loopback_only (memory ℕ) outcome.1 stored 0 k sales
        → pos 0 ≤ℤ bw_at orig i
        → (o : Offer ℕ) × (prof : List ℤ) × ((memory ℕ).by_id outcome.1 k ≡ some o)
          × (csv_to_intlist o.bw_profile ≡ ok prof)
          × (bw_at prof i +ℤ taken_at sales i ≡ bw_at orig i)
          × (taken_at sales i ≤ℤ bw_at orig i))
never_oversold_example =
    never_oversold digit_floats plain_crypto (memory ℕ) loopback_only plain_wire any_clean
      memory-IsLawful one_offer outcome.1 stored 0 one_offer-IsMarket after_sale
      (Growth-offer loopback_only (memory ℕ) 0 stored refl (
        Reach-Growth digit_floats plain_crypto (memory ℕ) loopback_only plain_wire any_clean
          memory-IsLawful after_sale))

list_offers-IsAvailable_example :
    (one_offer ≡ one_offer)
    × ((m : OfferMessage digit_floats)
        → Memᴰ m (printed stored ∷ [])
        → (o : Offer ℕ) × ((n : ℕ) × IsAvailable (memory ℕ) one_offer n o)
          × (plain_wire.offer_message o ≡ ok m))
    × ((n : ℕ) (o : Offer ℕ)
        → IsAvailable (memory ℕ) one_offer n o
        → (m : OfferMessage digit_floats) × (plain_wire.offer_message o ≡ ok m)
          × Memᴰ m (printed stored ∷ []))
list_offers-IsAvailable_example =
    list_offers-IsAvailable digit_floats plain_crypto loopback_only (memory ℕ) plain_wire
      memory-IsLawful one_offer one_offer (printed stored ∷ []) lists

add_offer-Offered_example :
    (values : Offer ℕ) × (plain_wire.validated specs ≡ ok values)
    × Offered digit_floats plain_crypto loopback_only
        (memory ℕ)
        plain_wire
        around
        (record (create digit_floats values) { id = none })
        one_offer
        offered
        offering.1
add_offer-Offered_example =
    add_offer-Offered digit_floats plain_crypto loopback_only (memory ℕ) plain_wire memory-IsLawful
      any_clean around specs one_offer offering.1 offered one_offer-IsMarket adds
