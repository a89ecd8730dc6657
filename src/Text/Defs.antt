-- ===== src/Text/Defs.antt =====
-- The operations on texts.
use Prim.Native.Char.{code}
use esdx_scion.Base.{
  ℕ, zero, suc, ◌+◌, ◌-◌, ◌*◌, ◌/◌, ◌%◌, String, ◌≡◌, refl, Bool, true, false, not, ◌&&◌, ◌||◌,
  Option, none, some, List, [], ◌∷◌, ◌++◌, map, reverse, Result, ok, err, value_error, or_raise,
  ◌>>=◌, ltb, leb, ◌==◌, if◌then◌else◌,
}
use esdx_scion.Base.Int.{ℤ, pos, negsuc, neg_ℕ}

abbrev pub Text : Type 0
Text = List ℕ

abbrev pub Bytes : Type 0
Bytes = List ℕ

-- the code points of a literal
abbrev pub codes : String → Text
codes String.[] = []
codes (String.◌∷◌ c s) = code c ∷ codes s

-- `s == t`
abbrev pub text_eq : Text → Text → Bool
text_eq [] [] = true
text_eq [] (d ∷ t) = false
text_eq (c ∷ s) [] = false
text_eq (c ∷ s) (d ∷ t) = c == d && text_eq s t

-- `c in s`
abbrev pub contains : ℕ → Text → Bool
contains c [] = false
contains c (d ∷ s) = d == c || contains c s

unfoldable pub push : ℕ → List Text → List Text
push c [] = (c ∷ []) ∷ []
push c (p ∷ ps) = (c ∷ p) ∷ ps

-- `s.split(sep)` for a separator of one character
unfoldable pub split : ℕ → Text → List Text
unfolding push
split sep [] = [] ∷ []
split sep (c ∷ s) = if c == sep then [] ∷ split sep s else push c (split sep s)

-- `sep.join(parts)`
unfoldable pub join : ℕ → List Text → Text
join sep [] = []
join sep (p ∷ []) = p
join sep (p ∷ q ∷ ps) = p ++ (sep ∷ join sep (q ∷ ps))

unfoldable pub drop_while : (ℕ → Bool) → Text → Text
drop_while p [] = []
drop_while p (c ∷ s) = if p c then drop_while p s else c ∷ s

-- `s.strip(…)`: `p` tells the characters to strip
unfoldable pub strip_by : (ℕ → Bool) → Text → Text
unfolding drop_while
strip_by p s = reverse (drop_while p (reverse (drop_while p s)))

-- what `str.isspace` accepts, which `strip()` strips
unfoldable pub is_space : ℕ → Bool
is_space c =
    leb 9 c && leb c 13
    || leb 28 c && leb c 32
    || c == 133
    || c == 160
    || c == 0x1680
    || leb 0x2000 c && leb c 0x200a
    || c == 0x2028
    || c == 0x2029
    || c == 0x202f
    || c == 0x205f
    || c == 0x3000

unfoldable pub strip : Text → Text
unfolding strip_by is_space
strip s = strip_by is_space s

-- `s.replace(old, new)` for two characters
abbrev pub replace : ℕ → ℕ → Text → Text
replace old new s = map (λ c. if c == old then new else c) s

-- `s.encode("ascii")`; the error is a `UnicodeEncodeError`, which is a `ValueError`
unfoldable pub encode_ascii : Text → Result Bytes
encode_ascii [] = ok []
encode_ascii (c ∷ s) = do t ← encode_ascii s; if ltb c 128 then ok (c ∷ t) else err value_error

-- `decode("ascii")`
unfoldable pub decode_ascii : Bytes → Result Text
decode_ascii [] = ok []
decode_ascii (c ∷ s) = do t ← decode_ascii s; if ltb c 128 then ok (c ∷ t) else err value_error

-- the value of a digit, if it is below the base
unfoldable pub digit_value : ℕ → ℕ → Option ℕ
digit_value base c =
    let d =
      if leb b'0' c && leb c b'9'
      then c - b'0'
      else if leb b'a' c && leb c b'z'
      then c - b'a' + 10
      else if leb b'A' c && leb c b'Z'
      then c - b'A' + 10
      else base in
    if ltb d base then some d else none

-- The digits of a literal from the left. Single underscores may stand between two digits; the last
-- argument says that a digit has just been read.
unfoldable pub read_digits : ℕ → Text → ℕ → Bool → Option ℕ
unfolding digit_value
read_digits base [] n true = some n
read_digits base [] n false = none
read_digits base (c ∷ s) n after = elim (digit_value base c) [
  | some d ↦ read_digits base s (n * base + d) true
  | none ↦ elim (c == b'_' && after) [ true ↦ read_digits base s n false | false ↦ none ]
]

unfoldable pub skip_underscore : Text → Text
skip_underscore [] = []
skip_underscore (c ∷ s) = if c == b'_' then s else c ∷ s

-- Base 16 admits a prefix `0x` or `0X`, and an underscore behind it.
unfoldable pub read_magnitude : ℕ → Text → Option ℕ
unfolding read_digits skip_underscore
read_magnitude base (z ∷ x ∷ s) =
    if base == 16 && z == b'0' && (x == b'x' || x == b'X')
    then read_digits base (skip_underscore s) 0 false
    else read_digits base (z ∷ x ∷ s) 0 false
read_magnitude base s = read_digits base s 0 false

abbrev pub with_sign : (ℕ → ℤ) → Option ℕ → Option ℤ
with_sign sign none = none
with_sign sign (some n) = some (sign n)

unfoldable pub read_signed : ℕ → Text → Option ℤ
unfolding read_magnitude
read_signed base [] = none
read_signed base (c ∷ s) =
    if c == b'-'
    then with_sign neg_ℕ (read_magnitude base s)
    else if c == b'+'
    then with_sign pos (read_magnitude base s)
    else with_sign pos (read_magnitude base (c ∷ s))

unfoldable pub is_ascii : Text → Bool
is_ascii [] = true
is_ascii (c ∷ s) = ltb c 128 && is_ascii s

-- what `int` strips from a string: what `str.isspace` accepts, but for the separators 28 to 31 where
-- the whole string is ASCII
unfoldable pub int_blank : Text → ℕ → Bool
unfolding is_space is_ascii
int_blank s c = is_space c && not (leb 28 c && leb c 31 && is_ascii s)

unfoldable pub int_strip : Text → Text
unfolding strip_by int_blank
int_strip s = strip_by (int_blank s) s

-- `int(s, base)`
unfoldable pub int_of_text : ℕ → Text → Result ℤ
unfolding read_signed int_strip
int_of_text base s = or_raise (read_signed base (int_strip s)) value_error

-- the character of a digit
abbrev pub digit_char : ℕ → ℕ
digit_char d = if ltb d 10 then b'0' + d else b'a' + (d - 10)

-- The digits of `n` in a base up to 16, the lowest last; `fuel` bounds their number.
unfoldable pub show_digits : ℕ → ℕ → ℕ → Text
show_digits base zero n = []
show_digits base (suc fuel) n =
    let rest = show_digits base fuel (n / base) in
    if ltb n base then digit_char n ∷ [] else rest ++ (digit_char (n % base) ∷ [])

unfoldable pub show_ℕ : ℕ → ℕ → Text
unfolding show_digits
show_ℕ base n = show_digits base (suc n) n

-- `str(i)`
unfoldable pub text_of_int : ℤ → Text
text_of_int (pos n) = show_ℕ 10 n
text_of_int (negsuc n) = b'-' ∷ show_ℕ 10 (suc n)

int_tests :
    (int_of_text 10 (codes " +0_07\n") ≡ ok (pos 7))
    × (int_of_text 10 (codes "-12") ≡ ok (negsuc 11))
    × (int_of_text 10 (codes "1__2") ≡ err value_error)
    × (int_of_text 10 (codes "") ≡ err value_error)
    × (int_of_text 10 (codes "1 1") ≡ err value_error)
    × (int_of_text 16 (codes "0x_fF") ≡ ok (pos 255))
    × (int_of_text 16 (codes "0x") ≡ err value_error)
    × (int_of_text 10 (28 ∷ codes "5") ≡ err value_error)
    × (int_of_text 10 (28 ∷ 160 ∷ codes "5") ≡ ok (pos 5))
    × (text_of_int (negsuc 11) ≡ codes "-12")
    × (show_ℕ 16 0xff00 ≡ codes "ff00")
    × (split b',' (codes ",a,,") ≡ [] ∷ codes "a" ∷ [] ∷ [] ∷ [])
unfolding int_of_text text_of_int show_ℕ split
int_tests = (refl, refl, refl, refl, refl, refl, refl, refl, refl, refl, refl, refl)
