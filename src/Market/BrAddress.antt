-- ===== src/Market/BrAddress.antt =====
-- `find_available_br_address` of purchases.py.
use esdx_scion.Base.{
  ℕ, sym, ap, subst, ◌∙◌, false, guard_inv, bind_inv, ok-injective, ◌+◌, ◌≤◌, ◌≡◌, Option, none,
  some, Result, ok, err, runtime_error, raise_if, ◌>>=◌, ◌>>◌, ltb, if◌then◌else◌, arith,
  Bool-cases, inl, inr, le→ltb,
}
use esdx_scion.Base.Int.{ℤ, pos, ◌+ℤ◌, ltb_ℤ, int_laws}
use esdx_scion.Text.{Text}
use esdx_scion.Conversion.Ip.{Ip, Ipv6}
use esdx_scion.Conversion.Address.{ip_port_range_from_str, ip_port_from_str, ip_port_to_str}
use esdx_scion.Conversion.Address.RoundTrip.{IsAddress, ip_port_from_str-ip_port_to_str}
use esdx_scion.Market.Offer.{Offer}

ltb-pos : (a b : ℕ) → ltb_ℤ (pos a) (pos b) ≡ ltb a b
ltb-pos a b = ground arith

pos_succ : (n : ℕ) → pos n +ℤ pos 1 ≡ pos (n + 1)
pos_succ n = omega int_laws

not_above : (hi port : ℕ) → ltb_ℤ (pos hi) (pos port) ≡ false → port ≤ hi
not_above hi port h = ground arith

module _ (ipv6 : Ipv6) where
  open ipv6 use {Address}

  -- the port after the one of the last contract, if there is one
  unfoldable pub next_port : ℤ → Option Text → Result ℤ
  next_port min_port none = ok min_port
  next_port min_port (some br_address) = do
    (_, port) ← ip_port_from_str ipv6 br_address
    ok (pos port +ℤ pos 1)

  -- `used` is the address in the contract of the offer that this one deprecates, if that was sold.
  unfoldable pub find_available_br_address : {F : Type 0} → Offer F → Option Text → Result Text
  find_available_br_address offer used = do
    (ip, min_port, max_port) ← ip_port_range_from_str ipv6 offer.br_address_template
    port ← next_port min_port used
    raise_if (ltb_ℤ max_port port) runtime_error
    ok (ip_port_to_str ipv6 ip port)

  guard_ports :
      (ip : Ip Address) (hi port : ℕ)
      → (raise_if (ltb_ℤ (pos hi) (pos port)) runtime_error
          >> ok (ip_port_to_str ipv6 ip (pos port)))
        ≡ (if ltb hi port then err runtime_error else ok (ip_port_to_str ipv6 ip (pos port)))
  guard_ports ip hi port = elim (Bool-cases (ltb hi port)) [
    | inl e ↦ rw (ltb-pos hi port, e)
    | inr e ↦ rw (ltb-pos hi port, e)
  ]

  pub find_next :
      {F : Type 0} (offer : Offer F) (ip : Ip Address) (lo hi port : ℕ)
      → ip_port_range_from_str ipv6 offer.br_address_template ≡ ok (ip, pos lo, pos hi)
      → IsAddress ipv6 ip
      → port ≤ 65534
      → find_available_br_address offer (some (ip_port_to_str ipv6 ip (pos port))) ≡ (
          if ltb hi (port + 1)
          then err runtime_error
          else ok (ip_port_to_str ipv6 ip (pos (port + 1))))
  unfolding find_available_br_address next_port
  find_next offer ip lo hi port reads h bound =
      rw
        (
          reads,
          ip_port_from_str-ip_port_to_str ipv6 ip port h,
          le→ltb 65534 port bound,
          pos_succ port,
        )
        (guard_ports ip hi (port + 1))

  -- an address that is found has the smallest port of the template, or the port after the one used
  pub found_port :
      {F : Type 0} (offer : Offer F) (used : Option Text) (address : Text) (ip : Ip Address)
      (lo hi : ℕ)
      → ip_port_range_from_str ipv6 offer.br_address_template ≡ ok (ip, pos lo, pos hi)
      → find_available_br_address offer used ≡ ok address
      → (port : ℕ) × (address ≡ ip_port_to_str ipv6 ip (pos port)) × (port ≤ hi)
  unfolding find_available_br_address next_port
  found_port offer none address ip lo hi reads e =
      let checked : (raise_if (ltb_ℤ (pos hi) (pos lo)) runtime_error
            >> ok (ip_port_to_str ipv6 ip (pos lo)))
          ≡ ok address =
        rw reads at e in
      guard_inv (ltb_ℤ (pos hi) (pos lo)) runtime_error _ checked
        λ small exact. (lo, sym (ok-injective exact), ground arith)
  found_port offer (some last) address ip lo hi reads e =
      let after : (next_port (pos lo) (some last) >>= λ port.
      raise_if (ltb_ℤ (pos hi) port) runtime_error >> ok (ip_port_to_str ipv6 ip port))
          ≡ ok address =
        rw reads at e in
      bind_inv (next_port (pos lo) (some last)) _ after λ i found e1.
        bind_inv (ip_port_from_str ipv6 last) _ found λ (other, port) read next.
          let same : i ≡ pos (port + 1) = sym (ok-injective next) ∙ pos_succ port in
          guard_inv (ltb_ℤ (pos hi) i) runtime_error _ e1 λ small exact. (
            port + 1,
            sym (ok-injective exact) ∙ ap (ip_port_to_str ipv6 ip) same,
            not_above hi (port + 1) (subst (λ (j : ℤ). ltb_ℤ (pos hi) j ≡ false) same small),
          )
