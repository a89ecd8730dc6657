-- ===== src/Conversion/Address/RoundTrip.antt =====
-- Printed addresses and port ranges are read back.
use Prim.Native.Nat.{min, max}
use esdx_scion.Base.{
  ℕ, ◌≤◌, ◌≡◌, ◌≢◌, refl, ap, true, false, ◌||◌, none, some, [], ◌∷◌, ◌++◌, reverse, reverse-append,
  reverse-reverse, arith, ok, err, value_error, ltb, if◌then◌else◌, Bool-cases, inl, inr, All,
  All-map, All-append, All-reverse, Lacks, length, length-append, ==_ne,
}
use esdx_scion.Base.Int.{pos}
use esdx_scion.Text.{
  Text, text_eq, text_eq→eq, strip_by, drop_while, split, split_whole, split-join, join, Keeps,
  drop_while-Keeps, int_of_text, show_ℕ, show_ℕ-All, IsDigit, text_of_int, int_of_text-show,
}
use esdx_scion.Conversion.Ip.{Ip, v4, v6, Ipv6}
use esdx_scion.Conversion.Ip.Print.{parse_v4-print_v4, print_v4-All, parse_v4_bracket, IsV4Char}
use esdx_scion.Conversion.Address.{
  last_colon, first_match, is_bracket, ip_from_str, ip_and_string_from_str, ip_port_from_str,
  range_of_parts, ip_port_range_from_str, print_ip, ip_port_to_str,
}

last_colon-Lacks : (s : Text) → Lacks b':' s → last_colon s ≡ none
unfolding last_colon
last_colon-Lacks [] h = refl
last_colon-Lacks (c ∷ s) h = rw (last_colon-Lacks s h.1, ==_ne c b':' h.0)

pub last_colon-append : (p q : Text) → Lacks b':' q → last_colon (p ++ (b':' ∷ q)) ≡ some (p, q)
unfolding last_colon
last_colon-append [] q h = rw (last_colon-Lacks q h)
last_colon-append (c ∷ p) q h = rw (last_colon-append p q h)

-- Both ends lose their bracket, and the text between them has none to lose.
drop_while-bracket :
    (s : Text) (t : Text) → Keeps is_bracket s → (s ≢ []) → drop_while is_bracket (s ++ t) ≡ s ++ t
unfolding drop_while
drop_while-bracket [] t h ne = absurd (ne refl)
drop_while-bracket (c ∷ s) t h ne = rw h.0

drop_bracket :
    (c : ℕ) (s : Text)
    → is_bracket c ≡ true
    → drop_while is_bracket (c ∷ s) ≡ drop_while is_bracket s
unfolding drop_while
drop_bracket c s h = rw h

open_bracket : is_bracket b'[' ≡ true
unfolding is_bracket
open_bracket = refl

close_bracket : is_bracket b']' ≡ true
unfolding is_bracket
close_bracket = refl

strip_brackets :
    (s : Text) → Keeps is_bracket s → strip_by is_bracket (b'[' ∷ (s ++ (b']' ∷ []))) ≡ s
unfolding strip_by
strip_brackets [] h = unfold is_bracket drop_while in refl
strip_brackets (c ∷ s) h =
    rw
      (
        drop_bracket b'[' ((c ∷ s) ++ (b']' ∷ [])) open_bracket,
        drop_while-bracket (c ∷ s) (b']' ∷ []) h (cc),
        reverse-append (c ∷ s) (b']' ∷ []),
        drop_bracket b']' (reverse (c ∷ s)) close_bracket,
        drop_while-Keeps is_bracket (reverse (c ∷ s)) (All-reverse _ (c ∷ s) h),
      )
      (reverse-reverse (c ∷ s))

text_eq-shorter : (s : Text) → text_eq s (b'[' ∷ (s ++ (b']' ∷ []))) ≡ false
text_eq-shorter s = elim (Bool-cases (text_eq s (b'[' ∷ (s ++ (b']' ∷ []))))) [
  | inr h ↦ h
  | inl h ↦ absurd (
      omega (
        arith,
        ap length (text_eq→eq s (b'[' ∷ (s ++ (b']' ∷ []))) h),
        length-append s (b']' ∷ []),
      ))
]

module _ (ipv6 : Ipv6) where
  open ipv6 use {Address}

  -- The octets of an IPv4 address are bytes; the print of an IPv6 address is on one line and has no
  -- brackets of its own.
  abbrev pub IsAddress : Ip Address → Type 0
  IsAddress (v4 a b c d) = All (λ n. n ≤ 255) (a ∷ b ∷ c ∷ d ∷ [])
  IsAddress (v6 a) = Keeps is_bracket (ipv6.print a) × Lacks b'\n' (ipv6.print a)

  ip_from_str-print_ip :
      (ip : Ip Address) → IsAddress ip → ip_from_str ipv6 (print_ip ipv6 ip) ≡ ok ip
  unfolding ip_from_str print_ip
  ip_from_str-print_ip (v4 a b c d) h = rw (ip_from_str, parse_v4-print_v4 {A = Address} a b c d h)
  ip_from_str-print_ip (v6 a) h = rw (
    ip_from_str,
    parse_v4_bracket {A = Address} (ipv6.print a ++ (b']' ∷ [])),
    strip_brackets (ipv6.print a) h.0,
    text_eq-shorter (ipv6.print a),
    ipv6.parse-print a,
  )

  print_ip-Lacks : (ip : Ip Address) → IsAddress ip → Lacks b'\n' (print_ip ipv6 ip)
  unfolding print_ip
  print_ip-Lacks (v4 a b c d) h =
      All-map IsV4Char (λ c'. c' ≢ b'\n') (λ c' k. k.0) _ (print_v4-All a b c d)
  print_ip-Lacks (v6 a) h =
      (omega arith, All-append (λ c. c ≢ b'\n') (ipv6.print a) (b']' ∷ []) h.1 (omega arith, tt))

  -- A printed address with any one-line text without a colon behind it is taken apart again.
  pub ip_and_string-print_ip :
      (ip : Ip Address) (tail : Text)
      → IsAddress ip
      → Lacks b'\n' tail
      → Lacks b':' tail
      → ip_and_string_from_str ipv6 (print_ip ipv6 ip ++ (b':' ∷ tail)) ≡ ok (ip, tail)
  unfolding ip_and_string_from_str first_match
  ip_and_string-print_ip ip tail h nl nc = rw (
    split_whole b'\n' (print_ip ipv6 ip ++ (b':' ∷ tail))
        (All-append (λ c. c ≢ b'\n') (print_ip ipv6 ip) _ (print_ip-Lacks ip h) (omega arith, nl)),
    first_match,
    last_colon-append (print_ip ipv6 ip) tail nc,
    ip_from_str-print_ip ip h,
  )

digit_not_break : (c : ℕ) → IsDigit c → c ≢ b'\n'
digit_not_break c h = ground arith

digit_not_colon : (c : ℕ) → IsDigit c → c ≢ b':'
digit_not_colon c h = ground arith

digit_not_hyphen : (c : ℕ) → IsDigit c → c ≢ b'-'
digit_not_hyphen c h = ground arith

abbrev decimal : ℕ → Text
decimal n = show_ℕ 10 n

decimal-All : (n : ℕ) → All IsDigit (decimal n)
decimal-All n = show_ℕ-All 10 (omega arith) (omega arith) n

decimal-Lacks : (b n : ℕ) → ((c : ℕ) → IsDigit c → c ≢ b) → Lacks b (decimal n)
decimal-Lacks b n k = All-map IsDigit (λ c. c ≢ b) k _ (decimal-All n)

-- a port range, as it stands in a template
abbrev pub ports : ℕ → ℕ → Text
ports a b = join b'-' (decimal a ∷ decimal b ∷ [])

ports-Lacks : (b m n : ℕ) → ((c : ℕ) → IsDigit c → c ≢ b) → b'-' ≢ b → Lacks b (ports m n)
unfolding join
ports-Lacks b m n k ne =
    All-append (λ c. c ≢ b) (decimal m) (b'-' ∷ decimal n) (decimal-Lacks b m k)
      (ne, decimal-Lacks b n k)

split-ports : (m n : ℕ) → split b'-' (ports m n) ≡ decimal m ∷ decimal n ∷ []
split-ports m n =
    split-join b'-' (decimal m ∷ decimal n ∷ []) (cc)
      (decimal-Lacks b'-' m digit_not_hyphen, (decimal-Lacks b'-' n digit_not_hyphen, tt))

int_of_text-decimal : (n : ℕ) → int_of_text 10 (decimal n) ≡ ok (pos n)
int_of_text-decimal n = int_of_text-show 10 (omega arith) (omega arith) n

module _ (ipv6 : Ipv6) where
  open ipv6 use {Address}

  -- An address that `ip_port_to_str` prints with a port is read back by `ip_port_from_str` if the port
  -- is at most 65534, and refused otherwise.
  pub ip_port_from_str-ip_port_to_str :
      (ip : Ip Address) (port : ℕ)
      → IsAddress ipv6 ip
      → ip_port_from_str ipv6 (ip_port_to_str ipv6 ip (pos port))
        ≡ (if ltb 65534 port then err value_error else ok (ip, port))
  unfolding ip_port_from_str ip_port_to_str text_of_int
  ip_port_from_str-ip_port_to_str ip port h =
      rw
        (
          ip_and_string-print_ip ipv6 ip (decimal port) h (decimal-Lacks b'\n' port digit_not_break)
              (decimal-Lacks b':' port digit_not_colon),
          int_of_text-decimal port,
        )
        (ground arith)

  -- A template with an address and two ports is read as the address with the smaller and the larger
  -- port, in whichever order they stand, if none is above 65534, and refused otherwise.
  pub ip_port_range_from_str-ports :
      (ip : Ip Address) (a b : ℕ)
      → IsAddress ipv6 ip
      → ip_port_range_from_str ipv6 (print_ip ipv6 ip ++ (b':' ∷ ports a b)) ≡ (
          if ltb 65534 a || ltb 65534 b
          then err value_error
          else ok (ip, pos (min a b), pos (max a b)))
  unfolding ip_port_range_from_str range_of_parts
  ip_port_range_from_str-ports ip a b h =
      rw
        (
          ip_and_string-print_ip ipv6 ip (ports a b) h
              (ports-Lacks b'\n' a b digit_not_break (omega arith))
              (ports-Lacks b':' a b digit_not_colon (omega arith)),
          split-ports a b,
          int_of_text-decimal a,
          int_of_text-decimal b,
        )
        (ground arith)
