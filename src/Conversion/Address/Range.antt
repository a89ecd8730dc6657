-- ===== src/Conversion/Address/Range.antt =====
-- The range of the ports that are read.
use esdx_scion.Base.{
  ℕ, ◌≤◌, ◌≡◌, refl, false, List, [], ◌∷◌, arith, ok, value_error, ok-injective, subst, bind_inv,
  guard_inv, Bool-cases, inl, inr, All, Lacks,
}
use esdx_scion.Base.Int.{ℤ, pos, negsuc, ltb_ℤ}
use esdx_scion.Text.{Text, split, split-Lacks_sep, int_of_text, int_of_text-nonneg}
use esdx_scion.Conversion.Ip.{Ip, Ipv6}
use esdx_scion.Conversion.Address.{
  ip_and_string_from_str, sorted_pair, range_of_parts, ip_port_range_from_str,
}

-- Two ports from zero on, the first at most the second, and the second at most 65534.
pub record IsPortRange (low high : ℤ) : Type 0 where
  pub least : ℕ
  pub greatest : ℕ
  pub low_lem : low ≡ pos least
  pub high_lem : high ≡ pos greatest
  pub ordered : least ≤ greatest
  pub bounded : greatest ≤ 65534

sorted_range :
    (a b : ℤ)
    → (m : ℕ) × (a ≡ pos m)
    → (n : ℕ) × (b ≡ pos n)
    → ltb_ℤ (pos 65534) (sorted_pair a b).1 ≡ false
    → IsPortRange (sorted_pair a b).0 (sorted_pair a b).1
sorted_range (negsuc a) b (m, em) nb h = absurd (cc)
sorted_range (pos a) (negsuc b) ma (n, en) h = absurd (cc)
sorted_range (pos a) (pos b) ma nb h = elim (Bool-cases (ltb_ℤ (pos b) (pos a))) [
  | inl lt ↦ rw lt (record {
    least = b;
    greatest = a;
    low_lem = refl;
    high_lem = refl;
    ordered = ground arith;
    bounded = ground arith;
  })
  | inr ge ↦ rw ge (record {
    least = a;
    greatest = b;
    low_lem = refl;
    high_lem = refl;
    ordered = ground arith;
    bounded = ground arith;
  })
]

module _ (ipv6 : Ipv6) where
  open ipv6 use {Address}

  range_of_parts-IsPortRange :
      (ip : Ip Address) (ps : List Text) {ip' : Ip Address} {low high : ℤ}
      → All (Lacks b'-') ps
      → range_of_parts ipv6 ip ps ≡ ok (ip', low, high)
      → IsPortRange low high
  unfolding range_of_parts
  range_of_parts-IsPortRange ip [] h e = absurd (cc)
  range_of_parts-IsPortRange ip (p ∷ []) h e = absurd (cc)
  range_of_parts-IsPortRange ip (p ∷ q ∷ []) h e = bind_inv (int_of_text 10 p) _ e λ a ea e1.
      bind_inv (int_of_text 10 q) _ e1 λ b eb e2.
        guard_inv (ltb_ℤ (pos 65534) (sorted_pair a b).1) value_error _ e2 λ small e3.
          subst (λ (t : Ip Address × ℤ × ℤ). IsPortRange t.1 t.2) (ok-injective e3)
            (sorted_range a b (int_of_text-nonneg 10 p a h.0 ea)
              (int_of_text-nonneg 10 q b h.1.0 eb) small)
  range_of_parts-IsPortRange ip (p ∷ q ∷ r ∷ ps) h e = absurd (cc)

  -- Whatever template is accepted, its ports are ordered and lie between 0 and 65534.
  pub ip_port_range_from_str-IsPortRange :
      (s : Text) {ip : Ip Address} {low high : ℤ}
      → ip_port_range_from_str ipv6 s ≡ ok (ip, low, high)
      → IsPortRange low high
  unfolding ip_port_range_from_str
  ip_port_range_from_str-IsPortRange s e =
      bind_inv (ip_and_string_from_str ipv6 s) _ e λ (ip, tail) _ e1.
        range_of_parts-IsPortRange ip (split b'-' tail) (split-Lacks_sep b'-' tail) e1
