-- ===== src/Market/Profile/Reference.antt =====
-- What a purchase means: period by period the bought bandwidth is taken off the offered one.
use esdx_scion.Base.{ℕ, zero, suc, ◌≡◌, refl, ap, List, [], ◌∷◌, length, arith}
use esdx_scion.Base.Int.{ℤ, pos, ◌+ℤ◌, ◌-ℤ◌, ◌≤ℤ◌, int_laws, parts_of_eq}

abbrev pub sum : List ℤ → ℤ
sum [] = pos 0
sum (x ∷ xs) = x +ℤ sum xs

-- The bought bandwidth lies within the offer: it ends no later, and in each period it is neither
-- negative nor more than what is offered.
abbrev pub Covers : ℕ → List ℤ → List ℤ → Type 0
Covers zero [] orig = Unit
Covers zero (o ∷ that) [] = ⊥
Covers zero (o ∷ that) (b ∷ orig) = (pos 0 ≤ℤ o) × (o ≤ℤ b) × Covers zero that orig
Covers (suc n) [] [] = Unit
Covers (suc n) (o ∷ that) [] = ⊥
Covers (suc n) that (b ∷ orig) = Covers n that orig

-- what is left of the offer
abbrev pub subtract_at : ℕ → List ℤ → List ℤ → List ℤ
subtract_at zero [] orig = orig
subtract_at zero (o ∷ that) [] = []
subtract_at zero (o ∷ that) (b ∷ orig) = (b -ℤ o) ∷ subtract_at zero that orig
subtract_at (suc n) that [] = []
subtract_at (suc n) that (b ∷ orig) = b ∷ subtract_at n that orig

-- the bandwidth of period `i`, nothing behind the end
abbrev pub bw_at : List ℤ → ℕ → ℤ
bw_at [] i = pos 0
bw_at (b ∷ prof) zero = b
bw_at (b ∷ prof) (suc i) = bw_at prof i

-- the bandwidth of period `i` of a purchase that begins at `offset`
abbrev pub bought_at : ℕ → List ℤ → ℕ → ℤ
bought_at zero that i = bw_at that i
bought_at (suc n) that zero = pos 0
bought_at (suc n) that (suc i) = bought_at n that i

pub length-subtract_at :
    (n : ℕ) (that orig : List ℤ) → length (subtract_at n that orig) ≡ length orig
length-subtract_at zero [] orig = refl
length-subtract_at zero (o ∷ that) [] = refl
length-subtract_at zero (o ∷ that) (b ∷ orig) = ap suc (length-subtract_at zero that orig)
length-subtract_at (suc n) that [] = refl
length-subtract_at (suc n) that (b ∷ orig) = ap suc (length-subtract_at n that orig)

-- No bandwidth is made or lost.
pub sum-subtract_at :
    (n : ℕ) (that orig : List ℤ)
    → Covers n that orig
    → sum (subtract_at n that orig) +ℤ sum that ≡ sum orig
sum-subtract_at zero [] orig h = omega int_laws
sum-subtract_at zero (o ∷ that) [] h = absurd h
sum-subtract_at zero (o ∷ that) (b ∷ orig) h =
    omega (int_laws, parts_of_eq _ _ (sum-subtract_at zero that orig h.2))
sum-subtract_at (suc n) [] [] h = omega int_laws
sum-subtract_at (suc n) (o ∷ that) [] h = absurd h
sum-subtract_at (suc n) that (b ∷ orig) h =
    omega (int_laws, parts_of_eq _ _ (sum-subtract_at n that orig h))

bought_at_nil : (n i : ℕ) → bought_at n [] i ≡ pos 0
bought_at_nil zero i = refl
bought_at_nil (suc n) zero = refl
bought_at_nil (suc n) (suc i) = bought_at_nil n i

-- Period by period: what is left and what is bought make up the offer, nothing negative is bought,
-- and what is left is not negative where the offer was not.
pub bw_at-subtract_at :
    (n : ℕ) (that orig : List ℤ) (i : ℕ)
    → Covers n that orig
    → (bw_at (subtract_at n that orig) i +ℤ bought_at n that i ≡ bw_at orig i)
      × (pos 0 ≤ℤ bought_at n that i)
      × (pos 0 ≤ℤ bw_at orig i → pos 0 ≤ℤ bw_at (subtract_at n that orig) i)
bw_at-subtract_at zero [] orig i h = (omega int_laws, (omega arith), λ p. p)
bw_at-subtract_at zero (o ∷ that) [] i h = absurd h
bw_at-subtract_at zero (o ∷ that) (b ∷ orig) zero h = (omega int_laws, h.0, λ p. omega int_laws)
bw_at-subtract_at zero (o ∷ that) (b ∷ orig) (suc i) h = bw_at-subtract_at zero that orig i h.2
bw_at-subtract_at (suc n) [] [] zero h = (omega int_laws, omega arith, λ p. p)
bw_at-subtract_at (suc n) [] [] (suc i) h =
    rw (bought_at_nil n i) (omega int_laws, omega arith, λ p. p)
bw_at-subtract_at (suc n) (o ∷ that) [] i h = absurd h
bw_at-subtract_at (suc n) that (b ∷ orig) zero h = (omega int_laws, omega arith, λ p. p)
bw_at-subtract_at (suc n) that (b ∷ orig) (suc i) h = bw_at-subtract_at n that orig i h
