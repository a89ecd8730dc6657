-- ===== src/Text/Strip.antt =====
-- `strip` and comparison.
use esdx_scion.Base.{
  ℕ, ◌≡◌, ◌↔◌, refl, Bool, true, false, [], ◌∷◌, reverse, reverse-reverse, arith, ==_refl, All,
  All-reverse, Lacks,
}
use esdx_scion.Text.Defs.{Text, text_eq, strip_by, drop_while, contains}

-- No character of the text is to be stripped.
abbrev pub Keeps : (ℕ → Bool) → Text → Type 0
Keeps p = All (λ c. p c ≡ false)

pub drop_while-Keeps : (p : ℕ → Bool) (s : Text) → Keeps p s → drop_while p s ≡ s
unfolding drop_while
drop_while-Keeps p [] h = refl
drop_while-Keeps p (c ∷ s) h = rw h.0

pub strip_by-Keeps : (p : ℕ → Bool) (s : Text) → Keeps p s → strip_by p s ≡ s
unfolding strip_by
strip_by-Keeps p s h =
    rw (drop_while-Keeps p s h, drop_while-Keeps p (reverse s) (All-reverse _ s h))
      (reverse-reverse s)

pub text_eq_refl : (s : Text) → text_eq s s ≡ true
text_eq_refl [] = refl
text_eq_refl (c ∷ s) = rw (==_refl c) (text_eq_refl s)

pub text_eq→eq : (s t : Text) → text_eq s t ≡ true → s ≡ t
text_eq→eq [] [] h = refl
text_eq→eq [] (d ∷ t) h = cc
text_eq→eq (c ∷ s) [] h = cc
text_eq→eq (c ∷ s) (d ∷ t) h = ground (arith, text_eq→eq s t)

pub text_eq_iff : (s t : Text) → (text_eq s t ≡ true) ↔ (s ≡ t)
text_eq_iff s t = (text_eq→eq s t, λ e. rw e (text_eq_refl t))

pub contains-Lacks : (c : ℕ) (s : Text) → contains c s ≡ false → Lacks c s
contains-Lacks c [] h = tt
contains-Lacks c (d ∷ s) h = ground (arith, contains-Lacks c s)
