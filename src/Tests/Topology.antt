-- ===== src/Tests/Topology.antt =====
-- The theorems on the topology file at a topology with one border router, and a contract of its AS.
use esdx_scion.Base.{ℕ, ◌≡◌, refl, Bool, false, [], ◌∷◌, ok, arith, ltb}
use esdx_scion.Base.Int.{pos, ◌+ℤ◌, ◌<ℤ◌, int_laws}
use esdx_scion.Text.{codes, int_of_text, text_of_int, split, strip, join, show_ℕ}
use esdx_scion.Conversion.Ip.{v4, parse_v4, print_v4, octets}
use esdx_scion.Conversion.Address.{
  ip_port_from_str, ip_port_to_str, ip_and_string_from_str, first_match, ip_from_str, print_ip,
}
use esdx_scion.Messages.{ContractMessage}
use esdx_scion.Market.Offer.{fields_of}
use esdx_scion.Topology.{
  Topo, TopoInfo, Config, find_lowest_free_value, generate_esdx_br_name, contract_info,
  contract_as_seller, default_router, in_use, add_contract_to_topo,
}
use esdx_scion.Topology.Allocate.{find_lowest_free_value_too_low}
use esdx_scion.Topology.Merged.{Merged, add_contract_to_topo-Merged}
use esdx_scion.Topology.Undo.Routers.{AllNoRemote}
use esdx_scion.Topology.Undo.{HasNoIdleRouter}
use esdx_scion.Topology.Init.{check_internal_addr, check_internal_addr-add_contract_to_topo}
use esdx_scion.Topology.File.{Folder, adding, activate, deactivate}
use esdx_scion.Topology.File.Outcome.{Outcome, activate-Outcome}
use esdx_scion.Topology.File.Restore.{deactivate-activate}
use esdx_scion.Tests.Data.{loopback_only, digit_floats, three_periods}

abbrev pub one_router : Topo
one_router = record {
  isd_as = codes "1-ff00:0:111";
  border_routers =
      (
        codes "br1-ff00_0_111-1",
        record {
          internal_addr = codes "127.0.0.9:31002";
          interfaces =
              (
                codes "1",
                record {
                  public_addr = codes "127.0.0.1:50000";
                  remote_addr = codes "127.0.0.5:50000";
                  isd_as = codes "1-ff00:0:110";
                  mtu = pos 1280;
                  link_to = codes "PARENT";
                },
              )
              ∷ [];
        },
      )
      ∷ [];
}

abbrev pub contract : ContractMessage digit_floats
contract = record {
  contract_id = pos 1;
  contract_timestamp = pos 0;
  contract_signature = [];
  offer = record { fields = fields_of three_periods; signature = [] };
  br_address = codes "10.1.1.1:50003";
  buyer_iaid = codes "1-ff00:0:112";
  buyer_starting_on = pos 600;
  buyer_bw_profile = codes "1";
  buyer_signature = [];
}

abbrev info : TopoInfo
info = record {
  remote_ia = codes "1-ff00:0:112";
  remote_underlay = codes "10.1.1.1:50003";
  mtu = pos 100;
  link_to = codes "PARENT";
}

abbrev pub self : Config loopback_only
self = record {
  internal_addr_ip = v4 127 0 0 9;
  internal_addr_port = 40000;
  router = default_router loopback_only;
  min_port = pos 50000;
  max_port = pos 51000;
  attempts = 10;
}

abbrev pub merged : Topo
merged = record one_router {
  border_routers =
      (
        codes "br1-ff00_0_111-1",
        record {
          internal_addr = codes "127.0.0.9:31002";
          interfaces =
              (
                codes "1",
                record {
                  public_addr = codes "127.0.0.1:50000";
                  remote_addr = codes "127.0.0.5:50000";
                  isd_as = codes "1-ff00:0:110";
                  mtu = pos 1280;
                  link_to = codes "PARENT";
                },
              )
              ∷ [];
        },
      )
      ∷ (
        codes "br1-ff00_0_111-1111",
        record {
          internal_addr = codes "127.0.0.9:40000";
          interfaces =
              (
                codes "2",
                record {
                  public_addr = codes "127.0.0.1:50001";
                  remote_addr = codes "10.1.1.1:50003";
                  isd_as = codes "1-ff00:0:112";
                  mtu = pos 100;
                  link_to = codes "PARENT";
                },
              )
              ∷ [];
        },
      )
      ∷ [];
}

pub merges : add_contract_to_topo loopback_only self one_router info ≡ ok merged
unfolding add_contract_to_topo in_use find_lowest_free_value generate_esdx_br_name default_router
    ip_port_from_str ip_port_to_str ip_and_string_from_str first_match ip_from_str print_ip print_v4
    parse_v4 octets int_of_text text_of_int show_ℕ split strip join ◌+ℤ◌
merges = refl

add_contract_to_topo-Merged_example : Merged loopback_only self one_router info merged
add_contract_to_topo-Merged_example =
    add_contract_to_topo-Merged loopback_only self one_router info merged merges

none_remote : AllNoRemote info.remote_underlay one_router.border_routers
none_remote = ((refl, tt), tt)

no_esdx_router : HasNoIdleRouter one_router
unfolding generate_esdx_br_name
no_esdx_router br e = cc

check_internal_addr-add_contract_to_topo_example :
    check_internal_addr loopback_only self merged.border_routers
    ≡ check_internal_addr loopback_only self one_router.border_routers
check_internal_addr-add_contract_to_topo_example =
    check_internal_addr-add_contract_to_topo loopback_only self one_router merged info merges

-- the lock file is there at the first two attempts
abbrev busy_twice : ℕ → Bool
busy_twice i = ltb i 2

abbrev before : Folder
before = record { topo = one_router; locked = false }

activate-Outcome_example :
    Outcome
      (adding loopback_only self contract)
      busy_twice
      10
      before
      (activate loopback_only self busy_twice contract before)
activate-Outcome_example = activate-Outcome loopback_only self busy_twice contract before

pub sells : contract_info one_router contract ≡ ok info
unfolding contract_info contract_as_seller
sells = refl

deactivate-activate_example :
    ((activate loopback_only self busy_twice contract before).0 ≡ ok tt)
    × (deactivate loopback_only self busy_twice contract
          (activate loopback_only self busy_twice contract before).1
        ≡ (ok tt, record { topo = one_router; locked = false }))
deactivate-activate_example =
    deactivate-activate loopback_only self busy_twice busy_twice 2 2 contract before info merged
      (omega arith) refl (omega arith) refl sells merges none_remote no_esdx_router

find_lowest_free_value_too_low_example :
    find_lowest_free_value (pos 40000 ∷ []) (pos 50000) <ℤ pos 50000
find_lowest_free_value_too_low_example =
    find_lowest_free_value_too_low (pos 40000) [] (pos 50000) (omega int_laws, tt)
