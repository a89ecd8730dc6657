-- ===== src/Market/Profile/Chain.antt =====
-- Sales one after the other: each buys from what the sale before it has left.
use esdx_scion.Base.{ℕ, ◌≡◌, some, List, [], ◌∷◌, arith}
use esdx_scion.Base.Int.{ℤ, pos, ◌+ℤ◌, ◌≤ℤ◌, int_laws, parts_of_eq}
use esdx_scion.Market.Profile.{buy}
use esdx_scion.Market.Profile.Reference.{Covers, subtract_at, bw_at, bought_at, bw_at-subtract_at}
use esdx_scion.Market.Profile.Purchase.{buy-eq-some}

-- the offset and the bandwidth of a sale
abbrev pub Sale : Type 0
Sale = ℕ × List ℤ

-- The profile that is left after the sales, the last of which stands first.
pub data Sold (orig : List ℤ) : List Sale → List ℤ → Type 0 where
  unsold : Sold orig [] orig
  sold :
      {sales : List Sale} {prof new : List ℤ} (n : ℕ) (that : List ℤ)
      → Sold orig sales prof
      → buy n that prof ≡ some new
      → Sold orig ((n, that) ∷ sales) new

-- what all the sales have taken of period `i`
abbrev pub taken_at : List Sale → ℕ → ℤ
taken_at [] i = pos 0
taken_at ((n, that) ∷ sales) i = bought_at n that i +ℤ taken_at sales i

-- What is left of a period and what was taken of it make up the original offer, nothing negative was
-- taken, and what is left is not negative if the offer was not.
abbrev pub IsShared : List ℤ → List Sale → List ℤ → ℕ → Type 0
IsShared orig sales prof i =
    (bw_at prof i +ℤ taken_at sales i ≡ bw_at orig i)
    × (pos 0 ≤ℤ taken_at sales i)
    × (pos 0 ≤ℤ bw_at orig i → (pos 0 ≤ℤ bw_at prof i) × (taken_at sales i ≤ℤ bw_at orig i))

IsShared-sale :
    (orig prof : List ℤ) (sales : List Sale) (n : ℕ) (that : List ℤ) (i : ℕ)
    → Covers n that prof
    → IsShared orig sales prof i
    → IsShared orig ((n, that) ∷ sales) (subtract_at n that prof) i
IsShared-sale orig prof sales n that i covers (total, nonneg, within) =
    let (part, bought, left) = bw_at-subtract_at n that prof i covers in
    (
      omega (int_laws, parts_of_eq _ _ part, parts_of_eq _ _ total),
      omega (int_laws, bought, nonneg),
      λ h.
          let (rest, bound) = within h in
          (left rest, omega (int_laws, parts_of_eq _ _ part, parts_of_eq _ _ total, left rest)),
    )

Sold-IsShared :
    {orig prof : List ℤ} {sales : List Sale}
    → Sold orig sales prof
    → (i : ℕ) → IsShared orig sales prof i
Sold-IsShared {orig} unsold i = (omega int_laws, omega arith, λ h. (h, h))
Sold-IsShared {orig} (sold {sales} {prof} {new} n that s e) i =
    let (covers, _, exact) = (buy-eq-some n that prof new).0 e in
    rw exact (IsShared-sale orig prof sales n that i covers (Sold-IsShared s i))

-- However many sales follow one another, no period is ever sold beyond what was offered: in each
-- period that was offered with no negative bandwidth, what is left and what the sales took add up to
-- the original bandwidth, neither is negative, and the sales took at most the original bandwidth.
pub Sold-never_oversold :
    (orig prof : List ℤ) (sales : List Sale) (i : ℕ)
    → Sold orig sales prof
    → pos 0 ≤ℤ bw_at orig i
    → (bw_at prof i +ℤ taken_at sales i ≡ bw_at orig i)
      × (pos 0 ≤ℤ taken_at sales i)
      × (pos 0 ≤ℤ bw_at prof i)
      × (taken_at sales i ≤ℤ bw_at orig i)
Sold-never_oversold orig prof sales i s h =
    let (total, nonneg, within) = Sold-IsShared s i in
    let (rest, bound) = within h in (total, nonneg, rest, bound)
