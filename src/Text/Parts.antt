-- ===== src/Text/Parts.antt =====
-- `split` and `join`.
use esdx_scion.Base.{
  ℕ, ◌≡◌, ◌≢◌, refl, List, [], ◌∷◌, ◌++◌, arith, ◌==◌, ==_refl, ==_ne, All, Lacks, inl, inr,
  Bool-cases,
}
use esdx_scion.Text.Defs.{Text, push, split, join}

pub split-ne-nil : (sep : ℕ) (s : Text) → split sep s ≢ []
unfolding split
split-ne-nil sep [] h = cc
split-ne-nil sep (c ∷ s) h = ground arith

-- A text without the separator is one part.
pub split_whole : (sep : ℕ) (p : Text) → Lacks sep p → split sep p ≡ p ∷ []
unfolding split
split_whole sep [] h = refl
split_whole sep (c ∷ p) h = rw (==_ne c sep h.0, split_whole sep p h.1)

-- The first separator ends the first part.
pub split_first :
    (sep : ℕ) (p rest : Text) → Lacks sep p → split sep (p ++ (sep ∷ rest)) ≡ p ∷ split sep rest
unfolding split
split_first sep [] rest h = rw (==_refl sep)
split_first sep (c ∷ p) rest h = rw (==_ne c sep h.0, split_first sep p rest h.1)

-- Splitting a join gives the parts back, if there is a part and none holds the separator.
pub split-join :
    (sep : ℕ) (ps : List Text) → ps ≢ [] → All (Lacks sep) ps → split sep (join sep ps) ≡ ps
unfolding join
split-join sep [] ne h = absurd (ne refl)
split-join sep (p ∷ []) ne h = split_whole sep p h.0
split-join sep (p ∷ q ∷ ps) ne h =
    rw (split_first sep p (join sep (q ∷ ps)) h.0, split-join sep (q ∷ ps) (cc) h.1)

-- The parts of a text lack what the text lacks.
push-Lacks : (c d : ℕ) (ps : List Text) → d ≢ c → All (Lacks c) ps → All (Lacks c) (push d ps)
unfolding push
push-Lacks c d [] ne h = ((ne, tt), tt)
push-Lacks c d (p ∷ ps) ne h = ((ne, h.0), h.1)

pub split-Lacks : (sep c : ℕ) (s : Text) → Lacks c s → All (Lacks c) (split sep s)
unfolding split
split-Lacks sep c [] h = (tt, tt)
split-Lacks sep c (d ∷ s) h = elim (Bool-cases (d == sep)) [
  | inl e ↦ rw e (tt, split-Lacks sep c s h.1)
  | inr e ↦ rw e (push-Lacks c d (split sep s) h.0 (split-Lacks sep c s h.1))
]

-- No part holds the separator.
pub split-Lacks_sep : (sep : ℕ) (s : Text) → All (Lacks sep) (split sep s)
unfolding split
split-Lacks_sep sep [] = (tt, tt)
split-Lacks_sep sep (d ∷ s) = elim (Bool-cases (d == sep)) [
  | inl e ↦ rw e (tt, split-Lacks_sep sep s)
  | inr e ↦ rw e (push-Lacks sep d (split sep s) (ground arith) (split-Lacks_sep sep s))
]
