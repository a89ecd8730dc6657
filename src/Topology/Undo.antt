-- ===== src/Topology/Undo.antt =====
-- Taking a contract out again gives the topology back.
pub mod Routers
use esdx_scion.Base.{
  ◌≡◌, refl, ap, subst, ◌∙◌, Bool, true, false, Option, none, some, [], ◌∷◌, ◌++◌, ok,
  if◌then◌else◌, Bool-cases, inl, inr, All,
}
use esdx_scion.Base.Int.{ℤ}
use esdx_scion.Text.{Text, text_eq, text_eq_refl, text_of_int}
use esdx_scion.Conversion.Ip.{Ipv6}
use esdx_scion.Conversion.Address.{ip_port_to_str}
use esdx_scion.Dict.{Dict, get, put, del, HasNoKey, get-none, put-HasNoKey, del-append, get-append}
use esdx_scion.Topology.{
  Interface, Router, Topo, TopoInfo, Config, generate_esdx_br_name, remove_remote,
  remove_from_routers, is_empty, remove_interface, esdx_router, new_interface, add_contract_to_topo,
}
use esdx_scion.Topology.Fresh.{in_use-HasNoKey, add_contract_to_topo-Added}
use esdx_scion.Topology.Undo.Routers.{
  AllNoRemote, HasNoRemote, remove_remote_last, remove_from_new, remove_from_old, HasNoRemote-get,
}

-- The ESDX router, if there is one, has an interface.
abbrev pub HasNoIdleRouter : Topo → Type 0
HasNoIdleRouter topo =
    (br : Router)
    → get (generate_esdx_br_name topo.isd_as) topo.border_routers ≡ some br
    → is_empty br.interfaces ≡ false

module _ (ipv6 : Ipv6) where
  remove_interface-ok :
      (topo : Topo) (info : TopoInfo) (before after : Dict Router) (br : Router)
      → remove_from_routers info.remote_underlay before ≡ some after
      → get (generate_esdx_br_name topo.isd_as) after ≡ some br
      → remove_interface (record topo { border_routers = before }) info
        ≡ ok (record topo {
          border_routers =
              if is_empty br.interfaces
              then del (generate_esdx_br_name topo.isd_as) after
              else after;
        })
  unfolding remove_interface
  remove_interface-ok topo info before after br e g = rw (e, g)

  undo_new :
      (self : Config ipv6) (topo : Topo) (info : TopoInfo) (key : Text) (iface : Interface)
      → iface.remote_addr ≡ info.remote_underlay
      → AllNoRemote info.remote_underlay topo.border_routers
      → get (generate_esdx_br_name topo.isd_as) topo.border_routers ≡ none
      → remove_interface
          (record topo {
            border_routers =
                put
                  (generate_esdx_br_name topo.isd_as)
                  (record (esdx_router ipv6 self none) { interfaces = put key iface [] })
                  topo.border_routers;
          })
          info
        ≡ ok topo
  undo_new self topo info key iface leads none_remote absent =
      let name = generate_esdx_br_name topo.isd_as in
      let new = get-none name topo.border_routers absent in
      let br = record (esdx_router ipv6 self none) { interfaces = put key iface [] } in
      rw (put-HasNoKey name br topo.border_routers new) (
        remove_interface-ok topo info (topo.border_routers ++ ((name, br) ∷ []))
          (topo.border_routers ++ ((name, record br { interfaces = [] }) ∷ []))
          (record br { interfaces = [] })
          (remove_from_new name info.remote_underlay topo.border_routers br none_remote (
            remove_remote_last key info.remote_underlay [] iface tt
              (rw leads (text_eq_refl info.remote_underlay))))
          (get-append name (record br { interfaces = [] }) topo.border_routers new)
        ∙ ap (λ (d : Dict Router). ok (record topo { border_routers = d }))
            (del-append name (record br { interfaces = [] }) topo.border_routers new))

  undo_old :
      (self : Config ipv6) (topo : Topo) (info : TopoInfo) (key : Text) (iface : Interface)
      (br : Router)
      → iface.remote_addr ≡ info.remote_underlay
      → AllNoRemote info.remote_underlay topo.border_routers
      → HasNoIdleRouter topo
      → get (generate_esdx_br_name topo.isd_as) topo.border_routers ≡ some br
      → HasNoKey key br.interfaces
      → remove_interface
          (record topo {
            border_routers =
                put
                  (generate_esdx_br_name topo.isd_as)
                  (record (esdx_router ipv6 self (some br)) {
                    interfaces = put key iface br.interfaces;
                  })
                  topo.border_routers;
          })
          info
        ≡ ok topo
  undo_old self topo info key iface br leads none_remote busy present new =
      let name = generate_esdx_br_name topo.isd_as in
      remove_interface-ok topo info
        (put name (record br { interfaces = put key iface br.interfaces }) topo.border_routers)
        topo.border_routers br
        (remove_from_old name info.remote_underlay topo.border_routers br
          (put key iface br.interfaces) none_remote present
          (rw (put-HasNoKey key iface br.interfaces new) (
            remove_remote_last key info.remote_underlay br.interfaces iface
              (HasNoRemote-get name info.remote_underlay topo.border_routers br none_remote present)
              (rw leads (text_eq_refl info.remote_underlay)))))
        present
      ∙ ap
          (λ (b : Bool). ok (record topo {
            border_routers = if b then del name topo.border_routers else topo.border_routers;
          }))
          (busy br present)

  undo_add :
      (self : Config ipv6) (topo : Topo) (info : TopoInfo) (ifid : ℤ) (public_addr : Text)
      → AllNoRemote info.remote_underlay topo.border_routers
      → HasNoIdleRouter topo
      → ((br : Router)
          → get (generate_esdx_br_name topo.isd_as) topo.border_routers ≡ some br
          → HasNoKey (text_of_int ifid) br.interfaces)
      → (r : Option Router) → get (generate_esdx_br_name topo.isd_as) topo.border_routers ≡ r
      → remove_interface
          (record topo {
            border_routers =
                put
                  (generate_esdx_br_name topo.isd_as)
                  (record (esdx_router ipv6 self r) {
                    interfaces =
                        put
                          (text_of_int ifid)
                          (new_interface ipv6 info public_addr)
                          (esdx_router ipv6 self r).interfaces;
                  })
                  topo.border_routers;
          })
          info
        ≡ ok topo
  undo_add self topo info ifid public_addr none_remote busy new none absent =
      undo_new self topo info (text_of_int ifid) (new_interface ipv6 info public_addr) refl
        none_remote absent
  undo_add self topo info ifid public_addr none_remote busy new (some br) present =
      undo_old self topo info (text_of_int ifid) (new_interface ipv6 info public_addr) br refl
        none_remote busy present (new br present)

  -- If no interface of the topology leads to the remote address of a contract and the ESDX router, if
  -- there is one, has an interface, then removing the interface of the contract right after adding it
  -- succeeds and gives back exactly the topology that there was.
  pub remove_interface-add_contract_to_topo :
      (self : Config ipv6) (topo topo' : Topo) (info : TopoInfo)
      → add_contract_to_topo ipv6 self topo info ≡ ok topo'
      → AllNoRemote info.remote_underlay topo.border_routers
      → HasNoIdleRouter topo
      → remove_interface topo' info ≡ ok topo
  remove_interface-add_contract_to_topo self topo topo' info e none_remote busy =
      let a = add_contract_to_topo-Added ipv6 self topo info topo' e in
      rw a.exact (
        undo_add self topo info a.ifid (ip_port_to_str ipv6 a.public_ip a.port) none_remote busy
          (λ br g.
            in_use-HasNoKey ipv6 a.ifid (generate_esdx_br_name topo.isd_as) topo.border_routers
              a.ids a.addrs br a.scanned a.new_ifid g)
          (get (generate_esdx_br_name topo.isd_as) topo.border_routers) refl)
