-- ===== src/Topology/Init.antt =====
-- The check of `Topology.__init__` on the internal addresses (esdx4ixps/reloader/topology.py).
use esdx_scion.Base.{
  ◌≡◌, refl, sym, subst, Bool, true, ◌&&◌, ◌||◌, [], ◌∷◌, ◌++◌, Result, ok, runtime_error, raise_if,
  ◌>>=◌, ◌>>◌, if◌then◌else◌, Bool-cases, inl, inr, ◌==◌,
}
use esdx_scion.Text.{Text, codes, text_eq, text_eq→eq, replace}
use esdx_scion.Conversion.Ip.{Ipv6, ip_eq}
use esdx_scion.Conversion.Address.{ip_port_from_str}
use esdx_scion.Dict.{Dict, put}
use esdx_scion.Topology.{
  Router, Topo, TopoInfo, Config, generate_esdx_br_name, add_contract_to_topo,
}
use esdx_scion.Topology.Fresh.{add_contract_to_topo-Added}

-- `str.endswith`
abbrev pub ends_with : Text → Text → Bool
ends_with [] s = text_eq [] s
ends_with (c ∷ t) s = text_eq (c ∷ t) s || ends_with t s

module _ (ipv6 : Ipv6) where
  -- the check on one router
  unfoldable pub check_router : Config ipv6 → Text → Router → Result (Unit {0})
  check_router self name br = if ends_with name (codes "-1111") then ok tt else do
    (ip, port) ← ip_port_from_str ipv6 br.internal_addr
    raise_if (ip_eq ipv6 ip self.internal_addr_ip && (port == self.internal_addr_port))
        runtime_error

  -- the loop over the routers
  abbrev pub check_internal_addr : Config ipv6 → Dict Router → Result (Unit {0})
  check_internal_addr self [] = ok tt
  check_internal_addr self ((name, br) ∷ rest) =
      check_router self name br >> check_internal_addr self rest

ends_with_prefix : (a t s : Text) → ends_with t s ≡ true → ends_with (a ++ t) s ≡ true
ends_with_prefix [] t s h = h
ends_with_prefix (c ∷ a) t s h = elim (Bool-cases (text_eq (c ∷ (a ++ t)) s)) [
  | inl e ↦ rw e
  | inr e ↦ rw e (ends_with_prefix a t s h)
]

esdx_name_ends : (ia : Text) → ends_with (generate_esdx_br_name ia) (codes "-1111") ≡ true
unfolding generate_esdx_br_name
esdx_name_ends ia =
    ends_with_prefix (codes "br") (replace b':' b'_' ia ++ codes "-1111") (codes "-1111")
      (ends_with_prefix (replace b':' b'_' ia) (codes "-1111") (codes "-1111") refl)

module _ (ipv6 : Ipv6) where
  check_router-ends :
      (self : Config ipv6) (name : Text) (br : Router)
      → ends_with name (codes "-1111") ≡ true
      → check_router ipv6 self name br ≡ ok tt
  unfolding check_router
  check_router-ends self name br h = rw h

  check-put :
      (self : Config ipv6) (name : Text) (br : Router) (routers : Dict Router)
      → ends_with name (codes "-1111") ≡ true
      → check_internal_addr ipv6 self (put name br routers) ≡ check_internal_addr ipv6 self routers
  check-put self name br [] h = rw (check_router-ends self name br h)
  check-put self name br ((j, w) ∷ routers) h = elim (Bool-cases (text_eq j name)) [
    | inl e ↦
        let h' =
          subst (λ (k : Text). ends_with k (codes "-1111") ≡ true) (sym (text_eq→eq j name e)) h in
        rw (e, check_router-ends self j br h', check_router-ends self j w h')
    | inr e ↦ rw (e, check-put self name br routers h)
  ]

  -- Adding a contract changes nothing for the check of the internal addresses that the constructor
  -- makes: it passes on the new topology if and only if it passed on the old one, and raises the same
  -- exception otherwise.
  pub check_internal_addr-add_contract_to_topo :
      (self : Config ipv6) (topo topo' : Topo) (info : TopoInfo)
      → add_contract_to_topo ipv6 self topo info ≡ ok topo'
      → check_internal_addr ipv6 self topo'.border_routers
        ≡ check_internal_addr ipv6 self topo.border_routers
  check_internal_addr-add_contract_to_topo self topo topo' info e =
      let a = add_contract_to_topo-Added ipv6 self topo info topo' e in
      rw a.exact (
        check-put self (generate_esdx_br_name topo.isd_as) _ topo.border_routers
          (esdx_name_ends topo.isd_as))
