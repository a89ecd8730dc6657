-- ===== src/Topology/Fresh.antt =====
-- What `_add_cotract_to_topo` has chosen for the new interface.
use esdx_scion.Base.{
  ℕ, ◌≡◌, ◌≢◌, refl, ap, sym, subst, ◌∙◌, false, some, List, [], ◌∷◌, ◌++◌, ok, runtime_error,
  ok-injective, bind_inv, guard_inv, Bool-cases, inl, inr, Lacks,
}
use esdx_scion.Base.Int.{ℤ, pos, ◌≤ℤ◌, ltb_ℤ}
use esdx_scion.Text.{Text, text_eq, text_eq→eq, int_of_text, text_of_int, int_of_text-text_of_int}
use esdx_scion.Conversion.Ip.{Ip, Ipv6}
use esdx_scion.Conversion.Address.{ip_port_from_str, ip_port_to_str}
use esdx_scion.Dict.{Dict, get, HasNoKey}
use esdx_scion.Topology.{
  Interface, Router, Topo, TopoInfo, Config, find_lowest_free_value, interface_ids, public_addrs,
  in_use, ports_of, new_interface, with_interface, add_contract_to_topo,
}
use esdx_scion.Topology.Allocate.{find_lowest_free_value-Lacks, ltb_ℤ→ge}

Lacks-left : (x : ℤ) (xs ys : List ℤ) → Lacks x (xs ++ ys) → Lacks x xs
Lacks-left x [] ys h = tt
Lacks-left x (z ∷ xs) ys h = (h.0, Lacks-left x xs ys h.1)

Lacks-right : (x : ℤ) (xs ys : List ℤ) → Lacks x (xs ++ ys) → Lacks x ys
Lacks-right x [] ys h = h
Lacks-right x (z ∷ xs) ys h = Lacks-right x xs ys h.1

-- a key that is read as another number is not the print of `x`
key_differs :
    (x i : ℤ) (k : Text) → int_of_text 10 k ≡ ok i → i ≢ x → text_eq k (text_of_int x) ≡ false
key_differs x i k e ne = elim (Bool-cases (text_eq k (text_of_int x))) [
  | inr h ↦ h
  | inl h ↦ absurd (
      ne (
        ok-injective (
          sym e
          ∙ (ap (int_of_text 10) (text_eq→eq k (text_of_int x) h) ∙ int_of_text-text_of_int x))))
]

module _ (ipv6 : Ipv6) where
  open ipv6 use {Address}

  interface_ids-HasNoKey :
      (x : ℤ) (d : Dict Interface) (ids : List ℤ)
      → interface_ids ipv6 d ≡ ok ids
      → Lacks x ids
      → HasNoKey (text_of_int x) d
  interface_ids-HasNoKey x [] ids e h = tt
  interface_ids-HasNoKey x ((k, iface) ∷ d) ids e h = bind_inv (int_of_text 10 k) _ e λ i ei e1.
      bind_inv (interface_ids ipv6 d) _ e1 λ is eis e2.
        let h' = subst (Lacks x) (sym (ok-injective e2)) h in
        (key_differs x i k ei h'.0, interface_ids-HasNoKey x d is eis h'.1)

  -- a number that no router uses for an interface is no key of any router's interfaces
  pub in_use-HasNoKey :
      (x : ℤ) (name : Text) (routers : Dict Router) (ids : List ℤ) (addrs : List (Ip Address × ℕ))
      (br : Router)
      → in_use ipv6 routers ≡ ok (ids, addrs)
      → Lacks x ids
      → get name routers ≡ some br
      → HasNoKey (text_of_int x) br.interfaces
  unfolding in_use
  in_use-HasNoKey x name [] ids addrs br e h g = absurd (cc)
  in_use-HasNoKey x name ((j, w) ∷ routers) ids addrs br e h g =
      bind_inv (interface_ids ipv6 w.interfaces) _ e λ own eo e1.
        bind_inv (public_addrs ipv6 w.interfaces) _ e1 λ public ep e2.
          bind_inv (in_use ipv6 routers) _ e2 λ (rest, addrs') er e3.
            let h' =
              subst (λ (p : List ℤ × List (Ip Address × ℕ)). Lacks x p.0) (sym (ok-injective e3))
                h in
            elim (Bool-cases (text_eq j name)) [
              | inl here ↦
                  let same : w ≡ br = cc (rw here at g) in
                  subst (λ (r : Router). HasNoKey (text_of_int x) r.interfaces) same
                    (interface_ids-HasNoKey x w.interfaces own eo (Lacks-left x own rest h'))
              | inr there ↦
                  in_use-HasNoKey x name routers rest addrs' br er (Lacks-right x own rest h')
                    (rw there at g)
            ]

  -- The choices for the new interface: an identifier that no interface of any router has, and a port,
  -- at most the largest one allowed, that no interface has at the same public address.
  pub record Added (self : Config ipv6) (topo : Topo) (info : TopoInfo) (topo' : Topo)
      : Type 0 where
    pub ids : List ℤ
    pub addrs : List (Ip Address × ℕ)
    pub remote : Ip Address × ℕ
    pub public_ip : Ip Address
    pub ifid : ℤ
    pub port : ℤ
    pub scanned : in_use ipv6 topo.border_routers ≡ ok (ids, addrs)
    pub reads_remote : ip_port_from_str ipv6 info.remote_underlay ≡ ok remote
    pub routed : self.router remote.0 ≡ ok public_ip
    pub ifid_lem : ifid ≡ find_lowest_free_value ids (pos 1)
    pub port_lem : port ≡ find_lowest_free_value (ports_of ipv6 public_ip addrs) self.min_port
    pub new_ifid : Lacks ifid ids
    pub new_port : Lacks port (ports_of ipv6 public_ip addrs)
    pub port_bounded : port ≤ℤ self.max_port
    pub exact :
        topo'
        ≡ with_interface ipv6 self topo ifid
            (new_interface ipv6 info (ip_port_to_str ipv6 public_ip port))

  -- what the code has computed when it adds a contract
  pub add_contract_to_topo-Added :
      (self : Config ipv6) (topo : Topo) (info : TopoInfo) (topo' : Topo)
      → add_contract_to_topo ipv6 self topo info ≡ ok topo'
      → Added self topo info topo'
  unfolding add_contract_to_topo
  add_contract_to_topo-Added self topo info topo' e =
      bind_inv (in_use ipv6 topo.border_routers) _ e λ (ids, addrs) es e1.
        bind_inv (ip_port_from_str ipv6 info.remote_underlay) _ e1 λ remote er e2.
          bind_inv (self.router remote.0) _ e2 λ public_ip ep e3.
            let port = find_lowest_free_value (ports_of ipv6 public_ip addrs) self.min_port in
            guard_inv (ltb_ℤ self.max_port port) runtime_error _ e3 λ small e4. record {
              ids = ids;
              addrs = addrs;
              remote = remote;
              public_ip = public_ip;
              ifid = find_lowest_free_value ids (pos 1);
              port = port;
              scanned = es;
              reads_remote = er;
              routed = ep;
              ifid_lem = refl;
              port_lem = refl;
              new_ifid = find_lowest_free_value-Lacks ids (pos 1);
              new_port = find_lowest_free_value-Lacks (ports_of ipv6 public_ip addrs) self.min_port;
              port_bounded = ltb_ℤ→ge self.max_port port small;
              exact = sym (ok-injective e4);
            }
