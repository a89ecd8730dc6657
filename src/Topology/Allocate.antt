-- ===== src/Topology/Allocate.antt =====
-- `_find_lowest_free_value`.
use esdx_scion.Base.{
  ◌≡◌, ◌≢◌, refl, true, false, List, [], ◌∷◌, arith, Bool-cases, inl, inr, sym, subst, le→ltb, All,
  All-map, Lacks,
}
use esdx_scion.Base.Int.{ℤ, pos, ◌+ℤ◌, ◌≤ℤ◌, ◌<ℤ◌, ltb_ℤ, leb_ℤ, int_laws, parts_of_eq}
use esdx_scion.Topology.{insert, sorted, lowest_from, find_lowest_free_value}

abbrev IsSorted : List ℤ → Type 0
IsSorted [] = Unit
IsSorted (x ∷ xs) = All (λ y. x ≤ℤ y) xs × IsSorted xs

module _ (P : ℤ → Type 0) where
  insert-All : (x : ℤ) (xs : List ℤ) → P x → All P xs → All P (insert x xs)
  insert-All x [] p h = (p, tt)
  insert-All x (y ∷ ys) p h = elim (Bool-cases (leb_ℤ x y)) [
    | inl e ↦ rw e (p, h)
    | inr e ↦ rw e (h.0, insert-All x ys p h.1)
  ]

  sorted-All : (xs : List ℤ) → All P xs → All P (sorted xs)
  sorted-All [] h = tt
  sorted-All (x ∷ xs) h = insert-All x (sorted xs) h.0 (sorted-All xs h.1)

  All-insert : (x : ℤ) (xs : List ℤ) → All P (insert x xs) → P x × All P xs
  All-insert x [] h = (h.0, tt)
  All-insert x (y ∷ ys) h = elim (Bool-cases (leb_ℤ x y)) [
    | inl e ↦ let h' = rw e at h in (h'.0, h'.1)
    | inr e ↦ let h' = rw e at h in let (px, hs) = All-insert x ys h'.1 in (px, (h'.0, hs))
  ]

  All-sorted : (xs : List ℤ) → All P (sorted xs) → All P xs
  All-sorted [] h = tt
  All-sorted (x ∷ xs) h = let (px, hs) = All-insert x (sorted xs) h in (px, All-sorted xs hs)

≤ℤ_trans : (a b c : ℤ) → a ≤ℤ b → b ≤ℤ c → a ≤ℤ c
≤ℤ_trans a b c h k = omega arith

leb_ℤ→le : (a b : ℤ) → leb_ℤ a b ≡ true → a ≤ℤ b
leb_ℤ→le a b h = ground arith

leb_ℤ→ge : (a b : ℤ) → leb_ℤ a b ≡ false → b ≤ℤ a
leb_ℤ→ge a b h = ground arith

insert-IsSorted : (x : ℤ) (xs : List ℤ) → IsSorted xs → IsSorted (insert x xs)
insert-IsSorted x [] h = (tt, tt)
insert-IsSorted x (y ∷ ys) h = elim (Bool-cases (leb_ℤ x y)) [
  | inl e ↦
      let below = leb_ℤ→le x y e in
      rw e ((below, All-map (λ z. y ≤ℤ z) (λ z. x ≤ℤ z) (λ z. ≤ℤ_trans x y z below) ys h.0), h)
  | inr e ↦ rw e (insert-All (λ z. y ≤ℤ z) x ys (leb_ℤ→ge x y e) h.0, insert-IsSorted x ys h.1)
]

sorted-IsSorted : (xs : List ℤ) → IsSorted (sorted xs)
sorted-IsSorted [] = tt
sorted-IsSorted (x ∷ xs) = insert-IsSorted x (sorted xs) (sorted-IsSorted xs)

-- The loop never goes down, if no value lies more than one below its start.
lowest_from-ge :
    (ret : ℤ) (vs : List ℤ)
    → All (λ v. ret ≤ℤ v +ℤ pos 1) vs
    → IsSorted vs
    → ret ≤ℤ lowest_from ret vs
lowest_from-ge ret [] h s = omega arith
lowest_from-ge ret (v ∷ vs) h s = elim (Bool-cases (ltb_ℤ ret v)) [
  | inl e ↦ rw e (omega arith)
  | inr e ↦ rw e (
      ≤ℤ_trans ret (v +ℤ pos 1) _ h.0 (
        lowest_from-ge (v +ℤ pos 1) vs
          (All-map (λ z. v ≤ℤ z) (λ z. v +ℤ pos 1 ≤ℤ z +ℤ pos 1) (λ z k. omega int_laws) vs s.0)
          s.1))
]

pub ltb_ℤ→ge : (a b : ℤ) → ltb_ℤ a b ≡ false → b ≤ℤ a
ltb_ℤ→ge a b h = ground arith

succ_le : (a b : ℤ) → a <ℤ b → a +ℤ pos 1 ≤ℤ b
succ_le a b h = omega int_laws

≤ℤ_antisymm : (a b : ℤ) → a ≤ℤ b → b ≤ℤ a → a ≡ b
≤ℤ_antisymm a b h k = omega int_laws

lt→ne : (r v : ℤ) → r <ℤ v → v ≢ r
lt→ne r v h e = omega (arith, parts_of_eq _ _ e)

gt→ne : (r v : ℤ) → v +ℤ pos 1 ≤ℤ r → v ≢ r
gt→ne r v h e = omega (int_laws, parts_of_eq _ _ e)

ltb_ℤ→lt : (a b : ℤ) → ltb_ℤ a b ≡ true → a <ℤ b
ltb_ℤ→lt a b h = ground arith

lowest_from_stop : (ret v : ℤ) (vs : List ℤ) → ltb_ℤ ret v ≡ true → lowest_from ret (v ∷ vs) ≡ ret
lowest_from_stop ret v vs e = rw e

lowest_from_next :
    (ret v : ℤ) (vs : List ℤ)
    → ltb_ℤ ret v ≡ false
    → lowest_from ret (v ∷ vs) ≡ lowest_from (v +ℤ pos 1) vs
lowest_from_next ret v vs e = rw e

-- the values behind `v` in a sorted list, as the loop needs them
succ_below : (v : ℤ) (vs : List ℤ) → All (λ z. v ≤ℤ z) vs → All (λ z. v +ℤ pos 1 ≤ℤ z +ℤ pos 1) vs
succ_below v = All-map (λ z. v ≤ℤ z) (λ z. v +ℤ pos 1 ≤ℤ z +ℤ pos 1) (λ z k. omega int_laws)

lowest_from-Lacks : (ret : ℤ) (vs : List ℤ) → IsSorted vs → Lacks (lowest_from ret vs) vs
lowest_from-Lacks ret [] s = tt
lowest_from-Lacks ret (v ∷ vs) s = elim (Bool-cases (ltb_ℤ ret v)) [
  | inl e ↦
      let below = ltb_ℤ→lt ret v e in
      subst (λ r. Lacks r (v ∷ vs)) (sym (lowest_from_stop ret v vs e))
        (
          lt→ne ret v below,
          All-map (λ z. v ≤ℤ z) (λ z. z ≢ ret) (λ z k. lt→ne ret z (omega arith)) vs s.0,
        )
  | inr e ↦
      subst (λ r. Lacks r (v ∷ vs)) (sym (lowest_from_next ret v vs e))
        (
          gt→ne _ v (lowest_from-ge (v +ℤ pos 1) vs (succ_below v vs s.0) s.1),
          lowest_from-Lacks (v +ℤ pos 1) vs s.1,
        )
]

-- The value that is found is not in use, whatever the values are.
pub find_lowest_free_value-Lacks :
    (values : List ℤ) (min_value : ℤ) → Lacks (find_lowest_free_value values min_value) values
unfolding find_lowest_free_value
find_lowest_free_value-Lacks values min_value =
    All-sorted (λ v. v ≢ lowest_from min_value (sorted values)) values
      (lowest_from-Lacks min_value (sorted values) (sorted-IsSorted values))

below_start : (ret k : ℤ) → ret ≤ℤ k → ¬ (k <ℤ ret)
below_start ret k h lt = omega arith

above_next : (ret v k : ℤ) → ret ≤ℤ k → ltb_ℤ ret v ≡ false → v ≢ k → v +ℤ pos 1 ≤ℤ k
above_next ret v k h e ne =
    let low : v ≤ℤ k = ≤ℤ_trans v ret k (ltb_ℤ→ge ret v e) h in
    elim (Bool-cases (ltb_ℤ v k)) [
      | inl lt ↦ succ_le v k (ltb_ℤ→lt v k lt)
      | inr ge ↦ absurd (ne (≤ℤ_antisymm v k low (ltb_ℤ→ge v k ge)))
    ]

-- every value from `low` on that is below the result is in use
lowest_from-lowest :
    (ret : ℤ) (vs : List ℤ) (k : ℤ) → ret ≤ℤ k → k <ℤ lowest_from ret vs → ¬ (Lacks k vs)
lowest_from-lowest ret [] k h lt free = omega arith
lowest_from-lowest ret (v ∷ vs) k h lt free = elim (Bool-cases (ltb_ℤ ret v)) [
  | inl e ↦ below_start ret k h (subst (λ r. k <ℤ r) (lowest_from_stop ret v vs e) lt)
  | inr e ↦
      lowest_from-lowest (v +ℤ pos 1) vs k (above_next ret v k h e free.0)
        (subst (λ r. k <ℤ r) (lowest_from_next ret v vs e) lt) free.1
]

le_of_not_lt : (k x : ℤ) → ¬ (k <ℤ x) → x ≤ℤ k
le_of_not_lt k x h = elim (Bool-cases (ltb_ℤ k x)) [
  | inl e ↦ absurd (h (ltb_ℤ→lt k x e))
  | inr e ↦ ltb_ℤ→ge k x e
]

-- If no value in use lies below the smallest one allowed, then the result is the lowest value from
-- there on that is free: it is not below the smallest, and not above any free value that is not.
pub find_lowest_free_value-lowest :
    (values : List ℤ) (min_value k : ℤ)
    → All (λ v. min_value ≤ℤ v) values
    → min_value ≤ℤ k
    → Lacks k values
    → (min_value ≤ℤ find_lowest_free_value values min_value)
      × (find_lowest_free_value values min_value ≤ℤ k)
unfolding find_lowest_free_value
find_lowest_free_value-lowest values min_value k h low free = (
  lowest_from-ge min_value (sorted values)
      (sorted-All (λ v. min_value ≤ℤ v +ℤ pos 1) values
        (All-map (λ v. min_value ≤ℤ v) (λ v. min_value ≤ℤ v +ℤ pos 1) (λ v k. omega int_laws) values
          h))
      (sorted-IsSorted values),
  le_of_not_lt k (lowest_from min_value (sorted values)) (λ high.
      lowest_from-lowest min_value (sorted values) k low high
        (sorted-All (λ v. v ≢ k) values free)),
)

not_below : (limit v : ℤ) → v +ℤ pos 1 <ℤ limit → ltb_ℤ limit v ≡ false
not_below limit v h = le→ltb _ _ (omega int_laws)

lowest_from-below :
    (limit ret : ℤ) (vs : List ℤ)
    → ret <ℤ limit
    → All (λ x. x +ℤ pos 1 <ℤ limit) vs
    → lowest_from ret vs <ℤ limit
lowest_from-below limit ret [] h k = h
lowest_from-below limit ret (v ∷ vs) h k = elim (Bool-cases (ltb_ℤ ret v)) [
  | inl e ↦ subst (λ r. r <ℤ limit) (sym (lowest_from_stop ret v vs e)) h
  | inr e ↦
      subst (λ r. r <ℤ limit) (sym (lowest_from_next ret v vs e))
        (lowest_from-below limit (v +ℤ pos 1) vs k.0 k.1)
]

lowest_from_limit :
    (limit : ℤ) (vs : List ℤ)
    → vs ≢ []
    → All (λ x. x +ℤ pos 1 <ℤ limit) vs
    → lowest_from limit vs <ℤ limit
lowest_from_limit limit [] ne k = absurd (ne refl)
lowest_from_limit limit (v ∷ vs) ne k =
    subst (λ r. r <ℤ limit) (sym (lowest_from_next limit v vs (not_below limit v k.0)))
      (lowest_from-below limit (v +ℤ pos 1) vs k.0 k.1)

insert-ne-nil : (x : ℤ) (xs : List ℤ) → insert x xs ≢ []
insert-ne-nil x [] e = cc
insert-ne-nil x (y ∷ ys) e = ground arith

-- If values are in use and each lies more than one below the smallest value allowed, the result lies
-- below it as well.
pub find_lowest_free_value_too_low :
    (v : ℤ) (values : List ℤ) (min_value : ℤ)
    → All (λ x. x +ℤ pos 1 <ℤ min_value) (v ∷ values)
    → find_lowest_free_value (v ∷ values) min_value <ℤ min_value
unfolding find_lowest_free_value
find_lowest_free_value_too_low v values min_value h =
    lowest_from_limit min_value (sorted (v ∷ values)) (insert-ne-nil v (sorted values))
      (sorted-All (λ x. x +ℤ pos 1 <ℤ min_value) (v ∷ values) h)
