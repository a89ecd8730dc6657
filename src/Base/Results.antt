-- ===== src/Base/Results.antt =====
-- Python calls that return or raise. The text of an exception is not modelled.
use mathlib.Core.Path.{◌≡◌, refl, ap}
use mathlib.Core.Bool.{Bool, true, false, not}
use mathlib.Core.Logic.{◌⊎◌, inl, inr}
use mathlib.Core.List.{List, [], ◌∷◌}
use mathlib.Core.Option.{Option, none, some}

pub data Exn : Type 0 where
  value_error validation_error runtime_error key_error name_error type_error : Exn
  does_not_exist multiple_objects integrity_error service_error system_exit os_error : Exn

pub data Result {ℓ} (A : Type ℓ) : Type ℓ where
  ok : A → Result A
  err : Exn → Result A

infixl 5 ◌>>=◌ ◌>>◌
-- a call, and what the code does with the value that it returns
abbrev pub ◌>>=◌ {ℓ κ} :
    {A : Type ℓ} {B : Type κ} (call : Result A) (next : A → Result B) → Result B
err exn >>= next = err exn
ok value >>= next = next value

abbrev pub ◌>>◌ {ℓ} : {B : Type ℓ} (call : Result (Unit {0})) (next : Result B) → Result B
call >> next = call >>= λ done. next

-- `if c: raise e`
abbrev pub raise_if : Bool → Exn → Result (Unit {0})
raise_if true e = err e
raise_if false e = ok tt

abbrev pub or_raise {ℓ} : {A : Type ℓ} → Option A → Exn → Result A
or_raise none e = err e
or_raise (some a) e = ok a

-- `list(map(f, l))`
abbrev pub map_result {ℓ κ} : {A : Type ℓ} {B : Type κ} → (A → Result B) → List A → Result (List B)
map_result f [] = ok []
map_result f (x ∷ xs) = do y ← f x; ys ← map_result f xs; ok (y ∷ ys)

pub Result-cases {ℓ} :
    {A : Type ℓ} (r : Result A) → ((a : A) × (r ≡ ok a)) ⊎ ((e : Exn) × (r ≡ err e))
Result-cases (ok a) = inl (a, refl)
Result-cases (err e) = inr (e, refl)

pub >>=-eq-ok {ℓ κ} :
    {A : Type ℓ} {B : Type κ} (call : Result A) (next : A → Result B) {y : B}
    → (call >>= next) ≡ ok y
    → (x : A) × (call ≡ ok x) × (next x ≡ ok y)
>>=-eq-ok (err exn) next e = cc
>>=-eq-ok (ok value) next e = (value, refl, e)

pub raise_if-eq-ok : (c : Bool) (e : Exn) → raise_if c e ≡ ok tt → c ≡ false
raise_if-eq-ok true e h = cc
raise_if-eq-ok false e h = refl

-- The same inversions in continuation form, which keeps what they return opaque.
pub bind_inv {ℓ κ μ} :
    {A : Type ℓ} {B : Type κ} {C : Type μ} (m : Result A) (f : A → Result B) {b : B}
    → (m >>= f) ≡ ok b
    → ((a : A) → m ≡ ok a → f a ≡ ok b → C)
    → C
bind_inv (ok a) f h k = k a refl h
bind_inv (err e) f h k = absurd (cc)

pub guard_inv {κ μ} :
    {B : Type κ} {C : Type μ} (c : Bool) (e : Exn) (n : Result B) {b : B}
    → (raise_if c e >> n) ≡ ok b
    → (c ≡ false → n ≡ ok b → C)
    → C
guard_inv true e n h k = absurd (cc)
guard_inv false e n h k = k refl h

abbrev value_or {ℓ} : {A : Type ℓ} → A → Result A → A
value_or d (ok a) = a
value_or d (err e) = d

pub ok-injective {ℓ} : {A : Type ℓ} {x y : A} → ok x ≡ ok y → x ≡ y
ok-injective {x} e = ap (value_or x) e

pub or_raise_inv {ℓ} :
    {A : Type ℓ} (r : Option A) (e : Exn) {a : A} → or_raise r e ≡ ok a → r ≡ some a
or_raise_inv none e h = absurd (cc)
or_raise_inv (some b) e h = ap some (ok-injective h)

or_default {ℓ} : {A : Type ℓ} → A → Option A → A
or_default a none = a
or_default a (some b) = b

pub some-injective {ℓ} : {A : Type ℓ} {a b : A} → some a ≡ some b → a ≡ b
unfolding or_default
some-injective {a} e = ap (or_default a) e

-- a test that did not raise held
pub raise_if_inv : (b : Bool) (e : Exn) → raise_if (not b) e ≡ ok tt → b ≡ true
raise_if_inv true e h = refl
raise_if_inv false e h = absurd (cc)
