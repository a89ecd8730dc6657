-- ===== src/Conversion/Address.antt =====
-- `ip_port_from_str`, `ip_port_range_from_str` and `ip_port_to_str`.
pub mod RoundTrip
pub mod Range
use esdx_scion.Base.{
  ℕ, ◌≡◌, refl, Bool, true, false, ◌||◌, Option, none, some, List, [], ◌∷◌, ◌++◌, Result, ok, err,
  value_error, raise_if, or_raise, ◌>>=◌, ◌>>◌, ltb, ◌==◌, if◌then◌else◌,
}
use esdx_scion.Base.Int.{ℤ, pos, pos_part, ltb_ℤ}
use esdx_scion.Text.{Text, text_eq, strip_by, split, int_of_text, show_ℕ, text_of_int}
use esdx_scion.Conversion.Ip.{Ip, v4, v6, Ipv6, parse_v4, print_v4}

-- a line at its last colon
unfoldable pub last_colon : Text → Option (Text × Text)
last_colon [] = none
last_colon (c ∷ s) = elim (last_colon s) [
  | some (p, q) ↦ some (c ∷ p, q)
  | none ↦ if c == b':' then some ([], s) else none
]

-- `re.search("(.*):(.*)", s).groups()`: the dot matches no newline, so the match lies in the first
-- line that has a colon, and the first group is greedy.
unfoldable pub first_match : List Text → Option (Text × Text)
unfolding last_colon
first_match [] = none
first_match (l ∷ ls) = elim (last_colon l) [ some m ↦ some m | none ↦ first_match ls ]

unfoldable pub is_bracket : ℕ → Bool
is_bracket c = c == b'[' || c == b']'

-- `sorted([a, b])`
abbrev pub sorted_pair : ℤ → ℤ → ℤ × ℤ
sorted_pair a b = if ltb_ℤ b a then (b, a) else (a, b)

module _ (ipv6 : Ipv6) where
  open ipv6 use {Address}

  -- An address is written as IPv4 or as [IPv6].
  unfoldable pub ip_from_str : Text → Result (Ip Address)
  unfolding is_bracket
  ip_from_str s = elim (parse_v4 {A = Address} s) [
    | some ip ↦ ok ip
    | none ↦ (do
      let addr = strip_by is_bracket s
      raise_if (text_eq addr s) value_error
      a ← or_raise (ipv6.parse addr) value_error
      ok (v6 a))
  ]

  unfoldable pub ip_and_string_from_str : Text → Result (Ip Address × Text)
  ip_and_string_from_str s = do
    (host, tail) ← or_raise (first_match (split b'\n' s)) value_error
    ip ← ip_from_str host
    ok (ip, tail)

  unfoldable pub ip_port_from_str : Text → Result (Ip Address × ℕ)
  ip_port_from_str s = do
    (ip, tail) ← ip_and_string_from_str s
    port ← int_of_text 10 tail
    raise_if (ltb_ℤ port (pos 0) || ltb_ℤ (pos 65534) port) value_error
    ok (ip, pos_part port)

  unfoldable pub range_of_parts : Ip Address → List Text → Result (Ip Address × ℤ × ℤ)
  range_of_parts ip (p ∷ q ∷ []) = do
    a ← int_of_text 10 p
    b ← int_of_text 10 q
    let min_max = sorted_pair a b
    raise_if (ltb_ℤ (pos 65534) min_max.1) value_error
    ok (ip, min_max.0, min_max.1)
  range_of_parts ip _ = err value_error

  unfoldable pub ip_port_range_from_str : Text → Result (Ip Address × ℤ × ℤ)
  ip_port_range_from_str s = do
    (ip, port_range) ← ip_and_string_from_str s
    range_of_parts ip (split b'-' port_range)

  unfoldable pub print_ip : Ip Address → Text
  print_ip (v4 a b c d) = print_v4 a b c d
  print_ip (v6 a) = b'[' ∷ (ipv6.print a ++ (b']' ∷ []))

  -- `port` may be any integer
  unfoldable pub ip_port_to_str : Ip Address → ℤ → Text
  ip_port_to_str ip port = print_ip ip ++ (b':' ∷ text_of_int port)
