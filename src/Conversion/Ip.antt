-- ===== src/Conversion/Ip.antt =====
-- Addresses of Python's module `ipaddress`, as conversion.py uses them. An IPv4 address is its four
-- octets, read and printed as `IPv4Address` does. Reading and printing an IPv6 address is a
-- parameter: an interface with the one law that the program relies on.
pub mod Print
use esdx_scion.Base.{
  ℕ, ◌≤◌, ◌≡◌, ◌↔◌, refl, ap, arith, Bool, true, false, ◌&&◌, ◌||◌, Option, none, some, List, [],
  ◌∷◌, ltb, leb, ◌==◌, if◌then◌else◌, length, map,
}
use esdx_scion.Text.{Text, codes, split, join, read_digits, show_ℕ}

pub record Ipv6 : Type 1 where
  pub Address : Type 0
  -- `IPv6Address(s)`, `none` for an `AddressValueError`
  pub parse : Text → Option Address
  -- `str(a)`
  pub print : Address → Text
  -- `a == b`
  pub beq : Address → Address → Bool
  pub parse-print : (a : Address) → parse (print a) ≡ some a
  pub beq_iff : (a b : Address) → (beq a b ≡ true) ↔ (a ≡ b)

-- `octet.isascii() and octet.isdigit()`
abbrev pub all_digits : Text → Bool
all_digits [] = true
all_digits (c ∷ s) = leb b'0' c && leb c b'9' && all_digits s

abbrev leading_zero : Text → Bool
leading_zero [] = false
leading_zero (c ∷ []) = false
leading_zero (c ∷ d ∷ s) = c == b'0'

abbrev small : Option ℕ → Option ℕ
small none = none
small (some n) = if ltb 255 n then none else some n

unfoldable pub parse_octet : Text → Option ℕ
parse_octet s =
    if all_digits s && leb (length s) 3 && (if leading_zero s then false else true)
    then small (read_digits 10 s 0 false)
    else none

pub data Ip (A : Type 0) : Type 0 where
  v4 : ℕ → ℕ → ℕ → ℕ → Ip A
  v6 : A → Ip A

-- `IPv4Address(s)`, `none` for an `AddressValueError`
unfoldable pub octets : List Text → Option (List ℕ)
unfolding parse_octet
octets [] = some []
octets (p ∷ ps) = elim (parse_octet p) [
  | none ↦ none
  | some n ↦ elim (octets ps) [ none ↦ none | some ns ↦ some (n ∷ ns) ]
]

abbrev four : {A : Type 0} → Option (List ℕ) → Option (Ip A)
four (some (a ∷ b ∷ c ∷ d ∷ [])) = some (v4 a b c d)
four _ = none

unfoldable pub parse_v4 : {A : Type 0} → Text → Option (Ip A)
parse_v4 s = four (octets (split b'.' s))

-- `str(ip)`
unfoldable pub print_v4 : ℕ → ℕ → ℕ → ℕ → Text
print_v4 a b c d = join b'.' (map (show_ℕ 10) (a ∷ b ∷ c ∷ d ∷ []))

-- `ip == other`
abbrev pub ip_eq : (ipv6 : Ipv6) → Ip ipv6.Address → Ip ipv6.Address → Bool
ip_eq ipv6 (v4 a b c d) (v4 a' b' c' d') = a == a' && b == b' && c == c' && d == d'
ip_eq ipv6 (v4 a b c d) (v6 y) = false
ip_eq ipv6 (v6 x) (v4 a b c d) = false
ip_eq ipv6 (v6 x) (v6 y) = ipv6.beq x y

pub ip_eq→eq : (ipv6 : Ipv6) (x y : Ip ipv6.Address) → ip_eq ipv6 x y ≡ true → x ≡ y
ip_eq→eq ipv6 (v4 a b c d) (v4 a' b' c' d') h = ground arith
ip_eq→eq ipv6 (v4 a b c d) (v6 y) h = cc
ip_eq→eq ipv6 (v6 x) (v4 a b c d) h = cc
ip_eq→eq ipv6 (v6 x) (v6 y) h = ap v6 ((ipv6.beq_iff x y).0 h)

pub ip_eq_refl : (ipv6 : Ipv6) (x : Ip ipv6.Address) → ip_eq ipv6 x x ≡ true
ip_eq_refl ipv6 (v4 a b c d) = ground arith
ip_eq_refl ipv6 (v6 x) = (ipv6.beq_iff x x).1 refl
