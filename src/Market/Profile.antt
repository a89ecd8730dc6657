-- ===== src/Market/Profile.antt =====
-- The part of `Offer.purchase` (models/offer.py) that works on the parsed bandwidth profiles.
pub mod Reference
pub mod Purchase
pub mod Chain
use esdx_scion.Base.{
  ℕ, ◌+◌, ◌≡◌, refl, Bool, true, false, ◌||◌, Option, none, some, List, [], ◌∷◌, ◌++◌, length, take,
  drop, ltb, ◌==◌, if◌then◌else◌,
}
use esdx_scion.Base.Int.{ℤ, pos, negsuc, ◌+ℤ◌, ◌-ℤ◌, ltb_ℤ, eqb_ℤ}

-- the loop over `zip(this_prof, that_prof)`, with `new_prof` and `total_bought`
unfoldable pub buy_loop : List ℤ → List ℤ → List ℤ → ℤ → Option (List ℤ × ℤ)
buy_loop (bw ∷ this_prof) (other ∷ that_prof) new_prof total_bought =
    let rest =
      buy_loop this_prof that_prof (new_prof ++ ((bw -ℤ other) ∷ [])) (total_bought +ℤ other) in
    if ltb_ℤ bw other || ltb_ℤ other (pos 0) then none else rest
buy_loop [] that_prof new_prof total_bought = some (new_prof, total_bought)
buy_loop (bw ∷ this_prof) [] new_prof total_bought = some (new_prof, total_bought)

-- `orig_prof[offset:offset+len(new_prof)] = new_prof`
abbrev pub replace_slice : ℕ → List ℤ → List ℤ → List ℤ
replace_slice offset new_prof orig_prof =
    take offset orig_prof ++ (new_prof ++ drop (offset + length new_prof) orig_prof)

abbrev pub store_bought : ℕ → List ℤ → Option (List ℤ × ℤ) → Option (List ℤ)
store_bought offset orig_prof none = none
store_bought offset orig_prof (some (new_prof, total_bought)) =
    if eqb_ℤ total_bought (pos 0) then none else some (replace_slice offset new_prof orig_prof)

unfoldable pub buy : ℕ → List ℤ → List ℤ → Option (List ℤ)
unfolding buy_loop
buy offset that_prof orig_prof =
    let this_prof = drop offset orig_prof in
    if ltb (length this_prof) (length that_prof)
    then none
    else store_bought offset orig_prof (buy_loop this_prof that_prof [] (pos 0))

buy_tests :
    (buy 1 (pos 1 ∷ pos 2 ∷ []) (pos 5 ∷ pos 4 ∷ pos 2 ∷ pos 7 ∷ [])
      ≡ some (pos 5 ∷ pos 3 ∷ pos 0 ∷ pos 7 ∷ []))
    × (buy 0 (pos 0 ∷ []) (pos 5 ∷ []) ≡ none)
    × (buy 1 (pos 1 ∷ []) (pos 5 ∷ []) ≡ none)
    × (buy 0 (negsuc 0 ∷ pos 3 ∷ []) (pos 5 ∷ pos 5 ∷ []) ≡ none)
unfolding buy ◌+ℤ◌ ◌-ℤ◌
buy_tests = (refl, refl, refl, refl)
