-- ===== src/Market/Trade/Listing.antt =====
-- What `ListOffers` lists.
use esdx_scion.Base.{
  ℕ, zero, suc, ◌<◌, ◌≡◌, refl, sym, subst, ap, ◌∙◌, ◌⊎◌, inl, inr, some, List, [], ◌∷◌, Result, ok,
  map_result, bind_inv, ok-injective, Option-cases, arith,
}
use mathlib.Core.List.Memᴰ
use mathlib.Core.List.{Memᴰ}
use esdx_scion.Base.Int.{pos}
use esdx_scion.Conversion.Ip.{Ipv6}
use esdx_scion.Serialize.{Floats, OfferMessage}
use esdx_scion.Crypto.{Cryptography}
use esdx_scion.Transaction.{except_inv, query}
use esdx_scion.Market.Offer.{Offer}
use esdx_scion.Market.Storage.{Storage, IsLawful}
use esdx_scion.Market.Manager.{IsAvailable, available_with, available_below}
use esdx_scion.Market.Trade.{Wire, list_offers, to_service_error}

module _ {A B : Type 0} (f : A → Result B) where
  map_result-mem :
      (l : List A) (all : List B) (b : B)
      → map_result f l ≡ ok all
      → Memᴰ b all
      → (a : A) × Memᴰ a l × (f a ≡ ok b)
  map_result-mem [] all b e m = absurd (Memᴰ.not-nil (subst (Memᴰ b) (sym (ok-injective e)) m))
  map_result-mem (a ∷ l) all b e m = bind_inv (f a) _ e λ c fa e1.
      bind_inv (map_result f l) _ e1 λ rest fl e2.
        elim (Memᴰ.cases_cons (subst (Memᴰ b) (sym (ok-injective e2)) m)) [
          | inl same ↦ (a, Memᴰ.head refl, rw same fa)
          | inr later ↦ let (x, at, fx) = map_result-mem l rest b fl later in (x, Memᴰ.tail at, fx)
        ]

  mem-map_result :
      (l : List A) (all : List B) (a : A)
      → map_result f l ≡ ok all
      → Memᴰ a l
      → (b : B) × (f a ≡ ok b) × Memᴰ b all
  mem-map_result [] all a e m = elim m [ ]
  mem-map_result (x ∷ l) all a e (Memᴰ.head same) = bind_inv (f x) _ e λ c fx e1.
      bind_inv (map_result f l) _ e1
        λ rest fl e2. (c, rw same fx, subst (Memᴰ c) (ok-injective e2) (Memᴰ.head refl))
  mem-map_result (x ∷ l) all a e (Memᴰ.tail m) = bind_inv (f x) _ e λ c fx e1.
      bind_inv (map_result f l) _ e1 λ rest fl e2.
        let (b, fa, at) = mem-map_result l rest a fl m in
        (b, fa, subst (Memᴰ b) (ok-injective e2) (Memᴰ.tail at))

earlier_or_last : (i n : ℕ) → i < suc n → (i < n) ⊎ (i ≡ n)
earlier_or_last i n h = ground arith

module _ {F : Type 0} (S : Storage F) where
  available_with-mem :
      (db : S.Db) (n : ℕ) (o : Offer F)
      → Memᴰ o (available_with S db (pos n))
      → IsAvailable S db n o
  unfolding available_with
  available_with-mem db n o m = elim (Option-cases (S.by_id db n)) [
    | inl h ↦ absurd (Memᴰ.not-nil (rw (available_with, h) at m))
    | inr (p, h) ↦ elim (Option-cases (S.deprecated_by db n)) [
      | inl l ↦ (h ∙ ap some (sym (Memᴰ.eq_of_singleton (rw (available_with, h, l) at m))), l)
      | inr (k, l) ↦ absurd (Memᴰ.not-nil (rw (available_with, h, l) at m))
    ]
  ]

  mem-available_with :
      (db : S.Db) (n : ℕ) (o : Offer F)
      → IsAvailable S db n o
      → Memᴰ o (available_with S db (pos n))
  unfolding available_with
  mem-available_with db n o (at, unlinked) = rw (available_with, at, unlinked) (Memᴰ.head refl)

  available_below-mem :
      (db : S.Db) (n : ℕ) (o : Offer F)
      → Memᴰ o (available_below S db n)
      → (i : ℕ) × IsAvailable S db i o
  unfolding available_below
  available_below-mem db zero o m = absurd (Memᴰ.not-nil m)
  available_below-mem db (suc n) o m = elim (Memᴰ.append_cases (available_below S db n) m) [
    | inl before ↦ available_below-mem db n o before
    | inr last ↦ (n, available_with-mem db n o last)
  ]

  mem-available_below :
      (db : S.Db) (n i : ℕ) (o : Offer F)
      → i < n
      → IsAvailable S db i o
      → Memᴰ o (available_below S db n)
  unfolding available_below
  mem-available_below db zero i o h a = absurd (omega arith)
  mem-available_below db (suc n) i o h a = elim (earlier_or_last i n h) [
    | inl earlier ↦
        Memᴰ.append_left (available_with S db (pos n)) (mem-available_below db n i o earlier a)
    | inr last ↦
        Memᴰ.append_right (available_below S db n)
          (mem-available_with db n o (subst (λ (j : ℕ). IsAvailable S db j o) last a))
  ]

module _ (floats : Floats) (crypto : Cryptography) (ipv6 : Ipv6) (S : Storage floats.Float)
    (wire : Wire floats) (laws : IsLawful S) where
  -- `ListOffers` lists the available offers and no others: if it returns, the tables are as they were,
  -- each message is that of an available offer, and each available offer has its message in the list.
  pub list_offers-IsAvailable :
      (db db' : S.Db) (messages : List (OfferMessage floats))
      → list_offers floats crypto ipv6 S wire db ≡ (ok messages, db')
      → (db' ≡ db)
        × ((m : OfferMessage floats)
            → Memᴰ m messages
            → (o : Offer floats.Float) × ((n : ℕ) × IsAvailable S db n o)
              × (wire.offer_message o ≡ ok m))
        × ((n : ℕ) (o : Offer floats.Float)
            → IsAvailable S db n o
            → (m : OfferMessage floats) × (wire.offer_message o ≡ ok m) × Memᴰ m messages)
  unfolding list_offers
  list_offers-IsAvailable db db' messages e =
      let h =
        except_inv to_service_error
          (query λ d. map_result wire.offer_message (available_below S d (S.size d))) e in
      let listed : map_result wire.offer_message (available_below S db (S.size db)) ≡ ok messages =
        ap (λ (p : Result (List (OfferMessage floats)) × S.Db). p.0) h in
      (
        sym (ap (λ (p : Result (List (OfferMessage floats)) × S.Db). p.1) h),
        λ m at.
            let (o, stored, says) = map_result-mem wire.offer_message _ messages m listed at in
            (o, available_below-mem S db (S.size db) o stored, says),
        λ n o a.
            mem-map_result wire.offer_message _ messages o listed
              (mem-available_below S db (S.size db) n o (laws.below_size db n o a.0) a),
      )
