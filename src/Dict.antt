-- ===== src/Dict.antt =====
-- Python's `dict` with text keys, in insertion order.
use esdx_scion.Base.{
  ◌≡◌, refl, false, Option, none, some, List, [], ◌∷◌, ◌++◌, if◌then◌else◌, All, Bool-cases, inl,
  inr,
}
use esdx_scion.Text.{Text, text_eq, text_eq→eq, text_eq_refl}

abbrev pub Dict {ℓ} : Type ℓ → Type ℓ
Dict V = List (Text × V)

module _ {ℓ} {V : Type ℓ} where
  -- `d[k]`, `none` for a `KeyError`
  abbrev pub get : Text → Dict V → Option V
  get k [] = none
  get k ((j, v) ∷ d) = if text_eq j k then some v else get k d

  -- `d[k] = v`
  abbrev pub put : Text → V → Dict V → Dict V
  put k v [] = (k, v) ∷ []
  put k v ((j, w) ∷ d) = if text_eq j k then (j, v) ∷ d else (j, w) ∷ put k v d

  -- `del d[k]`
  abbrev pub del : Text → Dict V → Dict V
  del k [] = []
  del k ((j, w) ∷ d) = if text_eq j k then d else (j, w) ∷ del k d

  abbrev pub HasNoKey : Text → Dict V → Type 0
  HasNoKey k = All (λ e. text_eq e.0 k ≡ false)

  pub get-none : (k : Text) (d : Dict V) → get k d ≡ none → HasNoKey k d
  get-none k [] h = tt
  get-none k ((j, w) ∷ d) h = elim (Bool-cases (text_eq j k)) [
    | inl e ↦ absurd (cc (rw e at h))
    | inr e ↦ (e, get-none k d (rw e at h))
  ]

  pub put-HasNoKey : (k : Text) (v : V) (d : Dict V) → HasNoKey k d → put k v d ≡ d ++ ((k, v) ∷ [])
  put-HasNoKey k v [] h = refl
  put-HasNoKey k v ((j, w) ∷ d) h = rw (h.0, put-HasNoKey k v d h.1)

  pub del-append : (k : Text) (v : V) (d : Dict V) → HasNoKey k d → del k (d ++ ((k, v) ∷ [])) ≡ d
  del-append k v [] h = rw (text_eq_refl k)
  del-append k v ((j, w) ∷ d) h = rw (h.0, del-append k v d h.1)

  pub get-append :
      (k : Text) (v : V) (d : Dict V) → HasNoKey k d → get k (d ++ ((k, v) ∷ [])) ≡ some v
  get-append k v [] h = rw (text_eq_refl k)
  get-append k v ((j, w) ∷ d) h = rw h.0 (get-append k v d h.1)

  pub get-put : (k : Text) (v : V) (d : Dict V) → get k (put k v d) ≡ some v
  get-put k v [] = rw (text_eq_refl k)
  get-put k v ((j, w) ∷ d) = elim (Bool-cases (text_eq j k)) [
    | inl e ↦ rw (e, e) refl
    | inr e ↦ rw (e, e) (get-put k v d)
  ]

  pub get-put_other :
      (k i : Text) (v : V) (d : Dict V) → text_eq k i ≡ false → get i (put k v d) ≡ get i d
  get-put_other k i v [] h = rw h refl
  get-put_other k i v ((j, w) ∷ d) h = elim (Bool-cases (text_eq j k)) [
    | inl e ↦ let other : text_eq j i ≡ false = rw (text_eq→eq j k e) h in rw (e, other) refl
    | inr e ↦ elim (Bool-cases (text_eq j i)) [
      | inl f ↦ rw (e, f) refl
      | inr f ↦ rw (e, f) (get-put_other k i v d h)
    ]
  ]
