-- ===== src/Topology/Merged.antt =====
-- What `_add_cotract_to_topo` has made of a topology.
use esdx_scion.Base.{
  ℕ, ◌≡◌, ◌≢◌, ap, sym, subst, ◌∙◌, true, false, none, some, List, [], ◌∷◌, ◌++◌, ok, ok-injective,
  bind_inv, Bool-cases, inl, inr, Lacks,
}
use esdx_scion.Base.Int.{ℤ, pos, ◌≤ℤ◌}
use esdx_scion.Text.{Text, text_eq, text_of_int}
use esdx_scion.Conversion.Ip.{Ip, Ipv6, ip_eq}
use esdx_scion.Conversion.Address.{ip_port_from_str, ip_port_to_str}
use esdx_scion.Dict.{Dict, get, put, HasNoKey, get-put, get-put_other}
use esdx_scion.Topology.{
  Interface, Router, Topo, TopoInfo, Config, interface_ids, public_addrs, in_use, ports_of,
  generate_esdx_br_name, esdx_router, new_interface, add_contract_to_topo,
}
use esdx_scion.Topology.Fresh.{in_use-HasNoKey, add_contract_to_topo-Added}

module _ (ipv6 : Ipv6) where
  open ipv6 use {Address}

  ports_of-append :
      (x : ℤ) (ip : Ip Address) (a b : List (Ip Address × ℕ))
      → Lacks x (ports_of ipv6 ip (a ++ b))
      → Lacks x (ports_of ipv6 ip a) × Lacks x (ports_of ipv6 ip b)
  ports_of-append x ip [] b h = (tt, h)
  ports_of-append x ip ((other, p) ∷ a) b h = elim (Bool-cases (ip_eq ipv6 other ip)) [
    | inl e ↦
        let l : (pos p ≢ x) × Lacks x (ports_of ipv6 ip (a ++ b)) = rw e at h in
        let (here, there) = ports_of-append x ip a b l.1 in (rw e (l.0, here), there)
    | inr e ↦
        let l : Lacks x (ports_of ipv6 ip (a ++ b)) = rw e at h in
        let (here, there) = ports_of-append x ip a b l in (rw e here, there)
  ]

  own_port :
      (x : ℤ) (ip other : Ip Address) (p : ℕ)
      → ip_eq ipv6 other ip ≡ true
      → Lacks x (ports_of ipv6 ip ((other, p) ∷ []))
      → pos p ≢ x
  own_port x ip other p same h =
      let l : (pos p ≢ x) × Lacks x (ports_of ipv6 ip []) = rw same at h in l.0

  -- a port that the addresses of some interfaces do not have is not the port of any of them
  interface_port :
      (x : ℤ) (ip other : Ip Address) (p : ℕ) (k : Text) (iface : Interface) (d : Dict Interface)
      (addrs : List (Ip Address × ℕ))
      → public_addrs ipv6 d ≡ ok addrs
      → Lacks x (ports_of ipv6 ip addrs)
      → get k d ≡ some iface
      → ip_port_from_str ipv6 iface.public_addr ≡ ok (other, p)
      → ip_eq ipv6 other ip ≡ true
      → pos p ≢ x
  interface_port x ip other p k iface [] addrs e h at read same = absurd (cc)
  interface_port x ip other p k iface ((j, first) ∷ d) addrs e h at read same =
      bind_inv (ip_port_from_str ipv6 first.public_addr) _ e λ (a, q) ea e1.
        bind_inv (public_addrs ipv6 d) _ e1 λ rest er e2.
          let split = ports_of-append x ip ((a, q) ∷ []) rest (
            subst (λ (l : List (Ip Address × ℕ)). Lacks x (ports_of ipv6 ip l))
              (sym (ok-injective e2)) h) in
          elim (Bool-cases (text_eq j k)) [
            | inr there ↦
                interface_port x ip other p k iface d rest er split.1 (rw there at at) read same
            | inl here ↦
                let exact : first ≡ iface = cc (rw here at at) in
                let pair = ok-injective (
                  sym read
                  ∙ (ap (λ (i : Interface). ip_port_from_str ipv6 i.public_addr) (sym exact)
                      ∙ ea)) in
                let own =
                  subst (λ (l : Ip Address × ℕ). Lacks x (ports_of ipv6 ip (l ∷ []))) (sym pair)
                    split.0 in
                own_port x ip other p same own
          ]

  -- a free port at an address is not the port of any interface of any router there
  in_use-port :
      (x : ℤ) (ip other : Ip Address) (p : ℕ) (name k : Text) (br : Router) (iface : Interface)
      (routers : Dict Router) (ids : List ℤ) (addrs : List (Ip Address × ℕ))
      → in_use ipv6 routers ≡ ok (ids, addrs)
      → Lacks x (ports_of ipv6 ip addrs)
      → get name routers ≡ some br
      → get k br.interfaces ≡ some iface
      → ip_port_from_str ipv6 iface.public_addr ≡ ok (other, p)
      → ip_eq ipv6 other ip ≡ true
      → pos p ≢ x
  unfolding in_use
  in_use-port x ip other p name k br iface [] ids addrs e h at has read same = absurd (cc)
  in_use-port x ip other p name k br iface ((j, w) ∷ routers) ids addrs e h at has read same =
      bind_inv (interface_ids ipv6 w.interfaces) _ e λ own eo e1.
        bind_inv (public_addrs ipv6 w.interfaces) _ e1 λ public ep e2.
          bind_inv (in_use ipv6 routers) _ e2 λ (rest, addrs') er e3.
            let split = ports_of-append x ip public addrs' (
              subst (λ (l : List ℤ × List (Ip Address × ℕ)). Lacks x (ports_of ipv6 ip l.1))
                (sym (ok-injective e3)) h) in
            elim (Bool-cases (text_eq j name)) [
              | inl here ↦
                  let exact : w ≡ br = cc (rw here at at) in
                  interface_port x ip other p k iface w.interfaces public ep split.0
                    (ap (λ (r : Router). get k r.interfaces) exact ∙ has) read same
              | inr there ↦
                  in_use-port x ip other p name k br iface routers rest addrs' er split.1
                    (rw there at at) has read same
            ]

  -- A contract was merged: the new interface has an identifier that no interface of any router had, and
  -- a port, at most the largest one allowed, that no interface of any router had at an address equal to
  -- the public address of the router to the remote address. It says what the contract says, and stands in
  -- the ESDX router, whose other interfaces, if it was there, and whose internal address are as before.
  -- No other router and nothing else has changed.
  pub record Merged (self : Config ipv6) (topo : Topo) (info : TopoInfo) (topo' : Topo)
      : Type 0 where
    pub ifid : ℤ
    pub port : ℤ
    pub remote : Ip Address × ℕ
    pub public_ip : Ip Address
    pub reads_remote : ip_port_from_str ipv6 info.remote_underlay ≡ ok remote
    pub routed : self.router remote.0 ≡ ok public_ip
    pub new_ifid :
        (name : Text) (br : Router)
        → get name topo.border_routers ≡ some br
        → HasNoKey (text_of_int ifid) br.interfaces
    pub new_port :
        (name k : Text) (br : Router) (iface : Interface) (ip : Ip Address) (p : ℕ)
        → get name topo.border_routers ≡ some br
        → get k br.interfaces ≡ some iface
        → ip_port_from_str ipv6 iface.public_addr ≡ ok (ip, p)
        → ip_eq ipv6 ip public_ip ≡ true
        → pos p ≢ port
    pub port_bounded : port ≤ℤ self.max_port
    pub br : Router
    pub br_at : get (generate_esdx_br_name topo.isd_as) topo'.border_routers ≡ some br
    pub added :
        get (text_of_int ifid) br.interfaces
        ≡ some (record {
          public_addr = ip_port_to_str ipv6 public_ip port;
          remote_addr = info.remote_underlay;
          isd_as = info.remote_ia;
          mtu = info.mtu;
          link_to = info.link_to;
        })
    pub kept :
        (old : Router)
        → get (generate_esdx_br_name topo.isd_as) topo.border_routers ≡ some old
        → (br.internal_addr ≡ old.internal_addr)
          × ((k : Text)
              → text_eq (text_of_int ifid) k ≡ false
              → get k br.interfaces ≡ get k old.interfaces)
    pub made :
        get (generate_esdx_br_name topo.isd_as) topo.border_routers ≡ none
        → (br.internal_addr
            ≡ ip_port_to_str ipv6 self.internal_addr_ip (pos self.internal_addr_port))
          × ((k : Text) → text_eq (text_of_int ifid) k ≡ false → get k br.interfaces ≡ none)
    pub others :
        (name : Text)
        → text_eq (generate_esdx_br_name topo.isd_as) name ≡ false
        → get name topo'.border_routers ≡ get name topo.border_routers
    pub same_ia : topo'.isd_as ≡ topo.isd_as

  -- Whenever a contract is added to a topology, the new interface has an identifier that no interface of
  -- any router had, and a port, at most the largest one allowed, that no interface of any router had at
  -- the public address chosen for it. It stands under that identifier in the ESDX router and says what the
  -- contract says; the internal address and the other interfaces of that router, if it was there, and all
  -- other routers are as before.
  pub add_contract_to_topo-Merged :
      (self : Config ipv6) (topo : Topo) (info : TopoInfo) (topo' : Topo)
      → add_contract_to_topo ipv6 self topo info ≡ ok topo'
      → Merged self topo info topo'
  add_contract_to_topo-Merged self topo info topo' e =
      let a = add_contract_to_topo-Added ipv6 self topo info topo' e in
      let name = generate_esdx_br_name topo.isd_as in
      let iface = new_interface ipv6 info (ip_port_to_str ipv6 a.public_ip a.port) in
      let old = esdx_router ipv6 self (get name topo.border_routers) in
      record {
        ifid = a.ifid;
        port = a.port;
        remote = a.remote;
        public_ip = a.public_ip;
        reads_remote = a.reads_remote;
        routed = a.routed;
        new_ifid = λ n br at.
            in_use-HasNoKey ipv6 a.ifid n topo.border_routers a.ids a.addrs br a.scanned a.new_ifid
              at;
        new_port = λ n k br i ip p at has read same.
            in_use-port a.port a.public_ip ip p n k br i topo.border_routers a.ids a.addrs a.scanned
              a.new_port at has read same;
        port_bounded = a.port_bounded;
        br = record old { interfaces = put (text_of_int a.ifid) iface old.interfaces };
        br_at =
            ap (λ (t : Topo). get name t.border_routers) a.exact
            ∙ get-put name _ topo.border_routers;
        added = get-put (text_of_int a.ifid) iface old.interfaces;
        kept = λ was at. (
          ap (λ (r : Router). r.internal_addr) (ap (esdx_router ipv6 self) at),
          λ k h.
              get-put_other (text_of_int a.ifid) k iface old.interfaces h
              ∙ ap (λ (r : Router). get k r.interfaces) (ap (esdx_router ipv6 self) at),
        );
        made = λ absent. (
          ap (λ (r : Router). r.internal_addr) (ap (esdx_router ipv6 self) absent),
          λ k h.
              get-put_other (text_of_int a.ifid) k iface old.interfaces h
              ∙ ap (λ (r : Router). get k r.interfaces) (ap (esdx_router ipv6 self) absent),
        );
        others = λ n h.
            ap (λ (t : Topo). get n t.border_routers) a.exact
            ∙ get-put_other name n _ topo.border_routers h;
        same_ia = ap (λ (t : Topo). t.isd_as) a.exact;
      }
