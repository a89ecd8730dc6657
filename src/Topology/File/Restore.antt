-- ===== src/Topology/File/Restore.antt =====
-- Activating a contract and deactivating it restores the topology file.
use esdx_scion.Base.{ℕ, ◌<◌, ◌≡◌, refl, ap, ◌∙◌, Bool, false, Result, ok}
use esdx_scion.Conversion.Ip.{Ipv6}
use esdx_scion.Serialize.{Floats}
use esdx_scion.Messages.{ContractMessage}
use esdx_scion.Topology.{Topo, TopoInfo, Config, contract_info, add_contract_to_topo}
use esdx_scion.Topology.Fresh.{add_contract_to_topo-Added}
use esdx_scion.Topology.Undo.Routers.{AllNoRemote}
use esdx_scion.Topology.Undo.{HasNoIdleRouter, remove_interface-add_contract_to_topo}
use esdx_scion.Topology.File.{Folder, adding, removing, activate, deactivate}
use esdx_scion.Topology.File.Outcome.{with_lock_ok, lock-free}

module _ (ipv6 : Ipv6) {floats : Floats} where
  contract_info-add :
      (self : Config ipv6) (topo topo' : Topo) (c : ContractMessage floats) (info : TopoInfo)
      → add_contract_to_topo ipv6 self topo info ≡ ok topo'
      → contract_info topo' c ≡ contract_info topo c
  unfolding contract_info
  contract_info-add self topo topo' c info e =
      let a = add_contract_to_topo-Added ipv6 self topo info topo' e in rw a.exact refl

  -- If the change that a contract makes to a topology succeeds, no interface led to its remote address
  -- before, and the ESDX router, if there is one, had an interface, then activating the contract and
  -- deactivating it again, both at a time when some attempt finds no lock file, succeed and leave the
  -- topology file exactly as it was, with no lock file.
  pub deactivate-activate :
      (self : Config ipv6) (busy busy' : ℕ → Bool) (j j' : ℕ) (c : ContractMessage floats)
      (f : Folder) (info : TopoInfo) (topo' : Topo)
      → j < self.attempts
      → busy j ≡ false
      → j' < self.attempts
      → busy' j' ≡ false
      → contract_info f.topo c ≡ ok info
      → add_contract_to_topo ipv6 self f.topo info ≡ ok topo'
      → AllNoRemote info.remote_underlay f.topo.border_routers
      → HasNoIdleRouter f.topo
      → ((activate ipv6 self busy c f).0 ≡ ok tt)
        × (deactivate ipv6 self busy' c (activate ipv6 self busy c f).1
            ≡ (ok tt, record { topo = f.topo; locked = false }))
  unfolding activate deactivate
  deactivate-activate self busy busy' j j' c f info topo' l free l' free' ei ea none_remote
        busy_router =
      let first =
        with_lock_ok busy self.attempts (adding ipv6 self c) f topo'
          (lock-free busy self.attempts j l free) (rw ei ea) in
      let second =
        with_lock_ok busy' self.attempts (removing ipv6 c) (record { topo = topo'; locked = false })
          f.topo (lock-free busy' self.attempts j' l' free')
          (rw (contract_info-add self f.topo topo' c info ea, ei)
            (remove_interface-add_contract_to_topo ipv6 self f.topo topo' info ea none_remote
              busy_router)) in
      (
        ap (λ (r : Result (Unit {0}) × Folder). r.0) first,
        ap (λ (r : Result (Unit {0}) × Folder). deactivate ipv6 self busy' c r.1) first ∙ second,
      )
