-- ===== src/Topology/File.antt =====
-- esdx4ixps/reloader/topology.py: the lock file, `activate` and `deactivate`. The topology file is
-- modelled by the topology that it holds: `json.dumps` and `json.load` are not modelled.
pub mod Outcome
pub mod Restore
pub mod Race
use esdx_scion.Base.{
  ℕ, zero, suc, ◌+◌, ◌<◌, ◌≤◌, ◌≡◌, refl, sym, ap, subst, ◌∙◌, ◌⊎◌, Bool, true, false, Option, none,
  some, List, Result, ok, err, Exn, runtime_error, name_error, ◌>>=◌, if◌then◌else◌, Bool-cases,
  Result-cases, inl, inr, arith,
}
use esdx_scion.Conversion.Ip.{Ip, Ipv6}
use esdx_scion.Serialize.{Floats}
use esdx_scion.Messages.{ContractMessage}
use esdx_scion.Topology.{
  Topo, TopoInfo, Config, contract_info, add_contract_to_topo, remove_interface,
}

-- the folder of the topology file: what the file holds, and whether the lock file is there
pub record Folder : Type 0 where
  pub topo : Topo
  pub locked : Bool

-- the loop of `_lock`, where `busy i` says that the i-th attempt finds the lock file there
abbrev pub lock_loop : (ℕ → Bool) → ℕ → ℕ → Result (Unit {0})
lock_loop busy i zero = err runtime_error
lock_loop busy i (suc n) = let rest = lock_loop busy (suc i) n in if busy i then rest else ok tt

-- `_lock`: with no attempt, the name `attempts` is unbound after the loop
unfoldable pub lock : (ℕ → Bool) → ℕ → Result (Unit {0})
lock busy zero = err name_error
lock busy (suc n) = lock_loop busy 0 (suc n)

-- the `finally` of `_lock`
unfoldable pub release : Result (Unit {0}) → Folder → Result (Unit {0}) × Folder
release r f = if f.locked then (r, record f { locked = false }) else (err runtime_error, f)

-- the body of the `with` statement: read, change, write
unfoldable pub rewrite_topo : (Topo → Result Topo) → Folder → Result (Unit {0}) × Folder
rewrite_topo change f = elim (change f.topo) [
  | ok topo ↦ (ok tt, record f { topo = topo })
  | err e ↦ (err e, f)
]

-- the `with self._lock()` statement
unfoldable pub with_lock :
    (ℕ → Bool) → ℕ → (Folder → Result (Unit {0}) × Folder) → Folder → Result (Unit {0}) × Folder
with_lock busy attempts body f = elim (lock busy attempts) [
  | ok u ↦ let (r, f') = body (record f { locked = true }) in release r f'
  | err e ↦ (err e, f)
]

module _ (ipv6 : Ipv6) {floats : Floats} where
  -- what `activate` does to the topology
  abbrev pub adding : Config ipv6 → ContractMessage floats → Topo → Result Topo
  adding self c topo = do info ← contract_info topo c; add_contract_to_topo ipv6 self topo info

  -- what `deactivate` does to the topology
  abbrev pub removing : ContractMessage floats → Topo → Result Topo
  removing c topo = do info ← contract_info topo c; remove_interface topo info

  unfoldable pub activate :
      Config ipv6 → (ℕ → Bool) → ContractMessage floats → Folder → Result (Unit {0}) × Folder
  activate self busy c = with_lock busy self.attempts (rewrite_topo (adding self c))

  unfoldable pub deactivate :
      Config ipv6 → (ℕ → Bool) → ContractMessage floats → Folder → Result (Unit {0}) × Folder
  deactivate self busy c = with_lock busy self.attempts (rewrite_topo (removing c))
