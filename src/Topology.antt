-- ===== src/Topology.antt =====
-- esdx4ixps/reloader/topology.py: contracts are merged into a SCION topology file and taken out of it.
-- Only the entries that the program reads or writes are modelled; it leaves all others as they are.
pub mod Allocate
pub mod Fresh
pub mod Merged
pub mod Undo
pub mod Init
pub mod File
use esdx_scion.Base.{
  ℕ, ◌≡◌, refl, Bool, true, false, ◌&&◌, ◌||◌, Option, none, some, List, [], ◌∷◌, ◌++◌, map, Result,
  ok, err, runtime_error, key_error, value_error, raise_if, or_raise, map_result, ◌>>=◌, ◌>>◌,
  if◌then◌else◌, not,
}
use esdx_scion.Base.Int.{ℤ, pos, negsuc, ◌+ℤ◌, ltb_ℤ, leb_ℤ}
use esdx_scion.Text.{Text, codes, text_eq, replace, int_of_text, text_of_int}
use esdx_scion.Conversion.Ip.{Ip, v4, v6, Ipv6, ip_eq}
use esdx_scion.Conversion.Address.{ip_port_from_str, ip_port_to_str}
use esdx_scion.Dict.{Dict, get, put, del}
use esdx_scion.Serialize.{Floats}
use esdx_scion.Messages.{ContractMessage}

-- an interface, with the two addresses of its underlay
pub record Interface : Type 0 where
  pub public_addr : Text
  pub remote_addr : Text
  pub isd_as : Text
  pub mtu : ℤ
  pub link_to : Text

pub record Router : Type 0 where
  pub internal_addr : Text
  pub interfaces : Dict Interface

pub record Topo : Type 0 where
  pub isd_as : Text
  pub border_routers : Dict Router

-- `TopoInfoFromContract`
pub record TopoInfo : Type 0 where
  pub remote_ia : Text
  pub remote_underlay : Text
  pub mtu : ℤ
  pub link_to : Text

-- the `sorted` of Python, on integers
abbrev pub insert : ℤ → List ℤ → List ℤ
insert x [] = x ∷ []
insert x (y ∷ ys) = if leb_ℤ x y then x ∷ y ∷ ys else y ∷ insert x ys

abbrev pub sorted : List ℤ → List ℤ
sorted [] = []
sorted (x ∷ xs) = insert x (sorted xs)

-- the loop of `_find_lowest_free_value`
abbrev pub lowest_from : ℤ → List ℤ → ℤ
lowest_from ret [] = ret
lowest_from ret (id ∷ values) =
    let rest = lowest_from (id +ℤ pos 1) values in if ltb_ℤ ret id then ret else rest

unfoldable pub find_lowest_free_value : List ℤ → ℤ → ℤ
find_lowest_free_value values min_value = lowest_from min_value (sorted values)

unfoldable pub generate_esdx_br_name : Text → Text
generate_esdx_br_name ia = codes "br" ++ (replace b':' b'_' ia ++ codes "-1111")

module _ {floats : Floats} where
  unfoldable pub contract_as_seller : ContractMessage floats → TopoInfo
  contract_as_seller c = record {
    remote_ia = c.buyer_iaid;
    remote_underlay = c.br_address;
    mtu = c.offer.fields.br_mtu;
    link_to = c.offer.fields.br_link_to;
  }

  unfoldable pub contract_as_buyer : ContractMessage floats → TopoInfo
  contract_as_buyer c = record {
    remote_ia = c.offer.fields.iaid;
    remote_underlay = c.br_address;
    mtu = c.offer.fields.br_mtu;
    link_to = c.offer.fields.br_link_to;
  }

  unfoldable pub contract_info : Topo → ContractMessage floats → Result TopoInfo
  contract_info topo c =
      if text_eq topo.isd_as c.offer.fields.iaid
      then ok (contract_as_seller c)
      else if text_eq topo.isd_as c.buyer_iaid
      then ok (contract_as_buyer c)
      else err runtime_error

-- the first interface with this remote address, removed from the interfaces of one router
abbrev pub remove_remote : Text → Dict Interface → Option (Dict Interface)
remove_remote remote [] = none
remove_remote remote ((ifid, iface) ∷ rest) =
    if text_eq iface.remote_addr remote then some rest else (elim (remove_remote remote rest) [
      | none ↦ none
      | some rest' ↦ some ((ifid, iface) ∷ rest')
    ])

-- `_remove_interface_from_br`
abbrev pub remove_from_routers : Text → Dict Router → Option (Dict Router)
remove_from_routers remote [] = none
remove_from_routers remote ((name, br) ∷ rest) = elim (remove_remote remote br.interfaces) [
  | some interfaces ↦ some ((name, record br { interfaces = interfaces }) ∷ rest)
  | none ↦ elim (remove_from_routers remote rest) [
    | none ↦ none
    | some rest' ↦ some ((name, br) ∷ rest')
  ]
]

abbrev pub is_empty : Dict Interface → Bool
is_empty [] = true
is_empty (e ∷ d) = false

-- `_remove_interface`, which also removes the ESDX router if it has no interface left
unfoldable pub remove_interface : Topo → TopoInfo → Result Topo
remove_interface topo info = do
  routers ← or_raise (remove_from_routers info.remote_underlay topo.border_routers) runtime_error
  let br_id = generate_esdx_br_name topo.isd_as
  br ← or_raise (get br_id routers) key_error
  ok (record topo {
    border_routers = if is_empty br.interfaces then del br_id routers else routers;
  })

module _ (ipv6 : Ipv6) where
  open ipv6 use {Address}

  -- the attributes of a `Topology` object, but for those of its lock
  pub record Config : Type 0 where
    pub internal_addr_ip : Ip Address
    pub internal_addr_port : ℕ
    pub router : Ip Address → Result (Ip Address)
    pub min_port : ℤ
    pub max_port : ℤ
    pub attempts : ℕ

  -- `_default_router`
  unfoldable pub default_router : Ip Address → Result (Ip Address)
  default_router (v4 a b c d) = ok (v4 127 0 0 1)
  default_router (v6 a) = do
    loopback ← or_raise (ipv6.parse (codes "::1")) value_error
    ok (v6 loopback)

  -- the public addresses of the interfaces of one router
  abbrev pub public_addrs : Dict Interface → Result (List (Ip Address × ℕ))
  public_addrs interfaces = map_result (λ e. ip_port_from_str ipv6 e.1.public_addr) interfaces

  abbrev pub interface_ids : Dict Interface → Result (List ℤ)
  interface_ids interfaces = map_result (λ e. int_of_text 10 e.0) interfaces

  -- the loop over the routers: the interface identifiers and the public addresses in use
  unfoldable pub in_use : Dict Router → Result (List ℤ × List (Ip Address × ℕ))
  in_use [] = ok ([], [])
  in_use ((name, br) ∷ rest) = do
    ids ← interface_ids br.interfaces
    addrs ← public_addrs br.interfaces
    (ids', addrs') ← in_use rest
    ok (ids ++ ids', addrs ++ addrs')

  -- `public_addrs[ip]`
  abbrev pub ports_of : Ip Address → List (Ip Address × ℕ) → List ℤ
  ports_of ip [] = []
  ports_of ip ((ip', port) ∷ rest) =
      if ip_eq ipv6 ip' ip then pos port ∷ ports_of ip rest else ports_of ip rest

  -- the ESDX router of the topology, or a new one
  abbrev pub esdx_router : Config → Option Router → Router
  esdx_router self (some br) = br
  esdx_router self none = record {
    internal_addr = ip_port_to_str ipv6 self.internal_addr_ip (pos self.internal_addr_port);
    interfaces = [];
  }

  abbrev pub new_interface : TopoInfo → Text → Interface
  new_interface info public_addr = record {
    public_addr = public_addr;
    remote_addr = info.remote_underlay;
    isd_as = info.remote_ia;
    mtu = info.mtu;
    link_to = info.link_to;
  }

  -- the topology with the new interface in the ESDX router
  abbrev pub with_interface : Config → Topo → ℤ → Interface → Topo
  with_interface self topo ifid iface =
      let name = generate_esdx_br_name topo.isd_as in
      let br = esdx_router self (get name topo.border_routers) in
      record topo {
        border_routers =
            put name (record br { interfaces = put (text_of_int ifid) iface br.interfaces })
              topo.border_routers;
      }

  -- `_add_cotract_to_topo`
  unfoldable pub add_contract_to_topo : Config → Topo → TopoInfo → Result Topo
  add_contract_to_topo self topo info = do
    (ifid_inuse, addrs) ← in_use topo.border_routers
    let ifid = find_lowest_free_value ifid_inuse (pos 1)
    (remote_ip, _) ← ip_port_from_str ipv6 info.remote_underlay
    public_ip ← self.router remote_ip
    let port = find_lowest_free_value (ports_of public_ip addrs) self.min_port
    raise_if (ltb_ℤ self.max_port port) runtime_error
    ok (with_interface self topo ifid (new_interface info (ip_port_to_str ipv6 public_ip port)))
