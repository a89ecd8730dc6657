-- ===== src/Market/Profile/Purchase.antt =====
-- `buy` against the reference.
use native.Mathlib.Nat.{zero-add, suc-add}
use esdx_scion.Base.{
  ℕ, zero, suc, ◌≤◌, ◌≡◌, ◌≢◌, ◌↔◌, refl, ap, Bool, true, false, ◌||◌, none, some, List, [], ◌∷◌,
  ◌++◌, append_assoc, append-nil, length, drop, arith, ltb, le→ltb, ltb→le, if◌then◌else◌,
  Bool-cases, inl, inr,
}
use esdx_scion.Base.Int.{ℤ, pos, ◌+ℤ◌, ◌-ℤ◌, ltb_ℤ, eqb_ℤ, eqb_ℤ→eq, int_laws}
use esdx_scion.Market.Profile.{buy_loop, replace_slice, store_bought, buy}
use esdx_scion.Market.Profile.Reference.{sum, Covers, subtract_at}

-- the test of the loop, and the differences that it collects
abbrev fits : List ℤ → List ℤ → Bool
fits (b ∷ this) (o ∷ that) = if ltb_ℤ b o || ltb_ℤ o (pos 0) then false else fits this that
fits [] that = true
fits (b ∷ this) [] = true

abbrev differences : List ℤ → List ℤ → List ℤ
differences (b ∷ this) (o ∷ that) = (b -ℤ o) ∷ differences this that
differences [] that = []
differences (b ∷ this) [] = []

abbrev bought : List ℤ → List ℤ → ℤ
bought (b ∷ this) (o ∷ that) = o +ℤ bought this that
bought [] that = pos 0
bought (b ∷ this) [] = pos 0

+ℤ_zero : (a : ℤ) → a +ℤ pos 0 ≡ a
+ℤ_zero a = omega int_laws

+ℤ_assoc : (a b c : ℤ) → a +ℤ b +ℤ c ≡ a +ℤ (b +ℤ c)
+ℤ_assoc a b c = omega int_laws

buy_loop-lem :
    (this that new : List ℤ) (total : ℤ)
    → buy_loop this that new total ≡ (
        if fits this that
        then some (new ++ differences this that, total +ℤ bought this that)
        else none)
unfolding buy_loop
buy_loop-lem [] that new total = rw (append-nil new, +ℤ_zero total)
buy_loop-lem (b ∷ this) [] new total = rw (append-nil new, +ℤ_zero total)
buy_loop-lem (b ∷ this) (o ∷ that) new total = ground (
  arith,
  buy_loop-lem this that (new ++ ((b -ℤ o) ∷ [])) (total +ℤ o),
  append_assoc new ((b -ℤ o) ∷ []) (differences this that),
  +ℤ_assoc total o (bought this that),
)

fits→Covers :
    (this that : List ℤ) → length that ≤ length this → fits this that ≡ true → Covers 0 that this
fits→Covers this [] h e = tt
fits→Covers [] (o ∷ that) h e = absurd (omega arith)
fits→Covers (b ∷ this) (o ∷ that) h e = ground (arith, fits→Covers this that (omega arith))

Covers→fits : (this that : List ℤ) → Covers 0 that this → fits this that ≡ true
Covers→fits [] [] h = refl
Covers→fits (b ∷ this) [] h = refl
Covers→fits [] (o ∷ that) h = absurd h
Covers→fits (b ∷ this) (o ∷ that) h = ground (arith, Covers→fits this that h.2)

Covers-length : (this that : List ℤ) → Covers 0 that this → length that ≤ length this
Covers-length this [] h = omega arith
Covers-length [] (o ∷ that) h = absurd h
Covers-length (b ∷ this) (o ∷ that) h = omega (arith, Covers-length this that h.2)

bought-sum : (this that : List ℤ) → length that ≤ length this → bought this that ≡ sum that
bought-sum [] [] h = refl
bought-sum (b ∷ this) [] h = refl
bought-sum [] (o ∷ that) h = absurd (omega arith)
bought-sum (b ∷ this) (o ∷ that) h = ap (◌+ℤ◌ o) (bought-sum this that (omega arith))

length-differences :
    (this that : List ℤ) → length that ≤ length this → length (differences this that) ≡ length that
length-differences [] [] h = refl
length-differences (b ∷ this) [] h = refl
length-differences [] (o ∷ that) h = absurd (omega arith)
length-differences (b ∷ this) (o ∷ that) h = ap suc (length-differences this that (omega arith))

differences-subtract_at :
    (this that : List ℤ)
    → length that ≤ length this
    → differences this that ++ drop (length that) this ≡ subtract_at 0 that this
differences-subtract_at [] [] h = refl
differences-subtract_at (b ∷ this) [] h = refl
differences-subtract_at [] (o ∷ that) h = absurd (omega arith)
differences-subtract_at (b ∷ this) (o ∷ that) h =
    ap (◌∷◌ (b -ℤ o)) (differences-subtract_at this that (omega arith))

Covers-drop : (n : ℕ) (that orig : List ℤ) → Covers n that orig ↔ Covers 0 that (drop n orig)
Covers-drop zero that orig = (λ h. h, λ h. h)
Covers-drop (suc n) [] [] = (λ h. h, λ h. h)
Covers-drop (suc n) (o ∷ that) [] = (λ h. h, λ h. h)
Covers-drop (suc n) that (b ∷ orig) = Covers-drop n that orig

drop_nil : (n : ℕ) → drop n (let l : List ℤ = [] in l) ≡ []
drop_nil zero = refl
drop_nil (suc n) = refl

replace_slice-subtract_at :
    (n : ℕ) (that orig : List ℤ)
    → length that ≤ length (drop n orig)
    → replace_slice n (differences (drop n orig) that) orig ≡ subtract_at n that orig
replace_slice-subtract_at zero that orig h =
    rw (zero-add, length-differences orig that h) (differences-subtract_at orig that h)
replace_slice-subtract_at (suc n) that [] h = rw drop_nil
replace_slice-subtract_at (suc n) that (b ∷ orig) h =
    rw suc-add (ap (◌∷◌ b) (replace_slice-subtract_at n that orig h))

zero_+ℤ : (a : ℤ) → pos 0 +ℤ a ≡ a
zero_+ℤ a = omega int_laws

buy_fitting :
    (n : ℕ) (that orig : List ℤ)
    → length that ≤ length (drop n orig)
    → store_bought n orig (
        if fits (drop n orig) that
        then some (differences (drop n orig) that, pos 0 +ℤ bought (drop n orig) that)
        else none)
      ≡ (if fits (drop n orig) that
          then (if eqb_ℤ (sum that) (pos 0) then none else some (subtract_at n that orig))
          else none)
buy_fitting n that orig h = elim (Bool-cases (fits (drop n orig) that)) [
  | inr e ↦ rw e
  | inl e ↦
      rw (e, zero_+ℤ, bought-sum (drop n orig) that h, replace_slice-subtract_at n that orig h)
]

-- the whole of `buy`, with its tests in order
buy_lem :
    (n : ℕ) (that orig : List ℤ)
    → buy n that orig ≡ (
        if ltb (length (drop n orig)) (length that)
        then none
        else if fits (drop n orig) that
        then (if eqb_ℤ (sum that) (pos 0) then none else some (subtract_at n that orig))
        else none)
unfolding buy
buy_lem n that orig = elim (Bool-cases (ltb (length (drop n orig)) (length that))) [
  | inl short ↦ rw short
  | inr long ↦
      rw long (
        rw (buy_loop-lem (drop n orig) that [] (pos 0)) (buy_fitting n that orig (ltb→le _ _ long)))
]

ladder_passed :
    (a b c : Bool) (x new : List ℤ)
    → (if a then none else if b then (if c then none else some x) else none) ≡ some new
    → (a ≡ false) × (b ≡ true) × (c ≡ false) × (new ≡ x)
ladder_passed a b c x new e = ground arith

eqb_ℤ-false : (a : ℤ) → eqb_ℤ a (pos 0) ≡ false → a ≢ pos 0
eqb_ℤ-false a h e = ground arith

eqb_ℤ-ne : (a : ℤ) → a ≢ pos 0 → eqb_ℤ a (pos 0) ≡ false
eqb_ℤ-ne a h = ground (arith, eqb_ℤ→eq a (pos 0))

buy_sound :
    (n : ℕ) (that orig new : List ℤ)
    → (if ltb (length (drop n orig)) (length that)
        then none
        else if fits (drop n orig) that
        then (if eqb_ℤ (sum that) (pos 0) then none else some (subtract_at n that orig))
        else none)
      ≡ some new
    → Covers n that orig × (sum that ≢ pos 0) × (new ≡ subtract_at n that orig)
buy_sound n that orig new e =
    let (long, fit, some_bought, exact) = ladder_passed _ _ _ (subtract_at n that orig) new e in
    (
      (Covers-drop n that orig).1 (fits→Covers (drop n orig) that (ltb→le _ _ long) fit),
      eqb_ℤ-false (sum that) some_bought,
      exact,
    )

buy_complete :
    (n : ℕ) (that orig new : List ℤ)
    → Covers n that orig × (sum that ≢ pos 0) × (new ≡ subtract_at n that orig)
    → buy n that orig ≡ some new
buy_complete n that orig new (covers, ne, exact) =
    let within = (Covers-drop n that orig).0 covers in
    rw (
      buy_lem n that orig,
      le→ltb _ _ (Covers-length (drop n orig) that within),
      Covers→fits (drop n orig) that within,
      eqb_ℤ-ne (sum that) ne,
      exact,
    )

-- `buy` succeeds exactly on a purchase that lies within the offer and is not of zero bandwidth in
-- total, and then returns what is left by the reference.
pub buy-eq-some :
    (n : ℕ) (that orig new : List ℤ)
    → (buy n that orig ≡ some new)
      ↔ (Covers n that orig × (sum that ≢ pos 0) × (new ≡ subtract_at n that orig))
buy-eq-some n that orig new = (
  λ e. buy_sound n that orig new (rw (buy_lem n that orig) at e),
  λ h. buy_complete n that orig new h,
)
