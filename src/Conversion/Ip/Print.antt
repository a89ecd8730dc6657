-- ===== src/Conversion/Ip/Print.antt =====
-- Printed IPv4 addresses are read back.
use esdx_scion.Base.{
  ℕ, zero, suc, ◌≤◌, ◌<◌, ◌≡◌, ◌≢◌, refl, Bool, true, false, ◌&&◌, Option, none, some, List, [],
  ◌∷◌, map, arith, ◌==◌, All, All-map, All-append, Lacks,
}
use esdx_scion.Text.{Text, IsDigit, show_ℕ, show_ℕ-All, split, push, join, split-join, read_digits}
use esdx_scion.Conversion.Ip.{v4, parse_octet, octets, parse_v4, print_v4}

all_below : ℕ → (ℕ → Bool) → Bool
all_below zero p = true
all_below (suc n) p = p n && all_below n p

all_below-true : (n : ℕ) (p : ℕ → Bool) (x : ℕ) → all_below n p ≡ true → x < n → p x ≡ true
unfolding all_below
all_below-true zero p x h lt = absurd (omega arith)
all_below-true (suc n) p x h lt = ground (arith, all_below-true n p x)

abbrev reads_as : ℕ → Option ℕ → Bool
reads_as n none = false
reads_as n (some m) = m == n

octet_table : all_below 256 (λ n. reads_as n (parse_octet (show_ℕ 10 n))) ≡ true
unfolding all_below parse_octet show_ℕ read_digits
octet_table = refl

reads_as-eq : (n : ℕ) (o : Option ℕ) → reads_as n o ≡ true → o ≡ some n
reads_as-eq n none h = cc
reads_as-eq n (some m) h = ground arith

parse_octet-show : (n : ℕ) → n ≤ 255 → parse_octet (show_ℕ 10 n) ≡ some n
parse_octet-show n h = reads_as-eq n _ (all_below-true 256 _ n octet_table (omega arith))

octets-map : (ns : List ℕ) → All (λ n. n ≤ 255) ns → octets (map (show_ℕ 10) ns) ≡ some ns
unfolding octets
octets-map [] h = refl
octets-map (n ∷ ns) h = rw (octets, parse_octet-show n h.0, octets-map ns h.1)

-- the characters of a printed IPv4 address
abbrev pub IsV4Char : ℕ → Type 0
IsV4Char c = (c ≢ b'\n') × (c ≢ b':')

digit-IsV4Char : (c : ℕ) → IsDigit c → IsV4Char c
digit-IsV4Char c h = ground arith

digit-ne-dot : (c : ℕ) → IsDigit c → c ≢ b'.'
digit-ne-dot c h = ground arith

decimal-All : (n : ℕ) → All IsDigit (show_ℕ 10 n)
decimal-All n = show_ℕ-All 10 (omega arith) (omega arith) n

decimal-Lacks_dot : (n : ℕ) → Lacks b'.' (show_ℕ 10 n)
decimal-Lacks_dot n = All-map IsDigit (λ c. c ≢ b'.') digit-ne-dot _ (decimal-All n)

map-Lacks_dot : (ns : List ℕ) → All (Lacks b'.') (map (show_ℕ 10) ns)
map-Lacks_dot [] = tt
map-Lacks_dot (n ∷ ns) = (decimal-Lacks_dot n, map-Lacks_dot ns)

pub parse_v4-print_v4 :
    {A : Type 0} (a b c d : ℕ)
    → All (λ n. n ≤ 255) (a ∷ b ∷ c ∷ d ∷ [])
    → parse_v4 {A = A} (print_v4 a b c d) ≡ some (v4 a b c d)
unfolding parse_v4 print_v4
parse_v4-print_v4 a b c d h = rw (
  split-join b'.' (map (show_ℕ 10) (a ∷ b ∷ c ∷ d ∷ [])) (cc) (map-Lacks_dot (a ∷ b ∷ c ∷ d ∷ [])),
  octets-map (a ∷ b ∷ c ∷ d ∷ []) h,
)

join_dots-All : (ns : List ℕ) → All IsV4Char (join b'.' (map (show_ℕ 10) ns))
unfolding join
join_dots-All [] = tt
join_dots-All (n ∷ []) = All-map IsDigit IsV4Char digit-IsV4Char _ (decimal-All n)
join_dots-All (n ∷ m ∷ ns) =
    All-append IsV4Char (show_ℕ 10 n) _ (All-map IsDigit IsV4Char digit-IsV4Char _ (decimal-All n))
      ((omega arith, omega arith), join_dots-All (m ∷ ns))

pub print_v4-All : (a b c d : ℕ) → All IsV4Char (print_v4 a b c d)
unfolding print_v4
print_v4-All a b c d = join_dots-All (a ∷ b ∷ c ∷ d ∷ [])

push-cons : (c : ℕ) (ps : List Text) → (p : Text) × (qs : List Text) × (push c ps ≡ (c ∷ p) ∷ qs)
unfolding push
push-cons c [] = ([], [], refl)
push-cons c (p ∷ ps) = (p, ps, refl)

octets_bracket : (p : Text) (qs : List Text) → octets ((b'[' ∷ p) ∷ qs) ≡ none
unfolding octets
octets_bracket p qs = refl

-- A text that begins with a bracket is no IPv4 address.
pub parse_v4_bracket : {A : Type 0} (s : Text) → parse_v4 {A = A} (b'[' ∷ s) ≡ none
unfolding parse_v4 split
parse_v4_bracket {A} s =
    let (p, qs, e) = push-cons b'[' (split b'.' s) in rw (e, octets_bracket p qs)
