-- ===== src/Topology/File/Outcome.antt =====
-- The outcomes of `activate` and `deactivate` (esdx4ixps/reloader/topology.py).
use esdx_scion.Base.{
  ℕ, zero, suc, ◌+◌, ◌<◌, ◌≡◌, refl, ◌⊎◌, Bool, true, false, Result, ok, err, Exn, runtime_error,
  name_error, Bool-cases, Result-cases, inl, inr, arith,
}
use esdx_scion.Conversion.Ip.{Ipv6}
use esdx_scion.Serialize.{Floats}
use esdx_scion.Messages.{ContractMessage}
use esdx_scion.Topology.{Topo, Config}
use esdx_scion.Topology.File.{
  Folder, lock_loop, lock, release, rewrite_topo, with_lock, adding, removing, activate, deactivate,
}

every_attempt :
    (busy : ℕ → Bool) (i n : ℕ)
    → busy i ≡ true
    → ((j : ℕ) → j < n → busy (suc i + j) ≡ true)
    → (j : ℕ) → j < suc n
    → busy (i + j) ≡ true
every_attempt busy i n e all zero l = let same : i + 0 ≡ i = omega arith in rw same e
every_attempt busy i n e all (suc j) l =
    let same : i + suc j ≡ suc i + j = omega arith in rw same (all j (omega arith))

-- either the loop ends at an attempt that finds no lock file, or every attempt finds one
lock_loop_from-cases :
    (busy : ℕ → Bool) (i n : ℕ)
    → ((j : ℕ) × (j < n) × (busy (i + j) ≡ false) × (lock_loop busy i n ≡ ok tt))
      ⊎ (((j : ℕ) → j < n → busy (i + j) ≡ true) × (lock_loop busy i n ≡ err runtime_error))
lock_loop_from-cases busy i zero = inr ((λ j l. absurd (omega arith)), refl)
lock_loop_from-cases busy i (suc n) = elim (Bool-cases (busy i)) [
  | inr e ↦ let same : i + 0 ≡ i = omega arith in inl (0, omega arith, rw same e, rw e)
  | inl e ↦ elim (lock_loop_from-cases busy (suc i) n) [
    | inl (j, l, free, h) ↦
        let same : i + suc j ≡ suc i + j = omega arith in
        inl (suc j, omega arith, rw same free, rw (e, h))
    | inr (all, h) ↦ inr (every_attempt busy i n e all, rw (e, h))
  ]
]

lock_loop-cases :
    (busy : ℕ → Bool) (n : ℕ)
    → ((j : ℕ) × (j < n) × (busy j ≡ false) × (lock_loop busy 0 n ≡ ok tt))
      ⊎ (((j : ℕ) → j < n → busy j ≡ true) × (lock_loop busy 0 n ≡ err runtime_error))
lock_loop-cases busy n = elim (lock_loop_from-cases busy 0 n) [
  | inl (j, l, free, h) ↦ let same : 0 + j ≡ j = omega arith in inl (j, l, rw (← same) free, h)
  | inr (all, h) ↦ inr ((λ j l. let same : 0 + j ≡ j = omega arith in rw (← same) (all j l)), h)
]

-- What a change of the topology file can come to: it is written, the change raises and the file stays
-- as it was, or no attempt gets the lock and nothing happens at all.
pub data Outcome (change : Topo → Result Topo) (busy : ℕ → Bool) (attempts : ℕ) (f : Folder)
    : Result (Unit {0}) × Folder → Type 0 where
  written :
      (j : ℕ) (topo : Topo)
      → j < attempts
      → busy j ≡ false
      → change f.topo ≡ ok topo
      → Outcome change busy attempts f (ok tt, record { topo = topo; locked = false })
  refused :
      (j : ℕ) (e : Exn)
      → j < attempts
      → busy j ≡ false
      → change f.topo ≡ err e
      → Outcome change busy attempts f (err e, record { topo = f.topo; locked = false })
  busy_all :
      (e : Exn)
      → ((j : ℕ) → j < attempts → busy j ≡ true)
      → Outcome change busy attempts f (err e, f)

pub with_lock_ok :
    (busy : ℕ → Bool) (attempts : ℕ) (change : Topo → Result Topo) (f : Folder) (topo : Topo)
    → lock busy attempts ≡ ok tt
    → change f.topo ≡ ok topo
    → with_lock busy attempts (rewrite_topo change) f
      ≡ (ok tt, record { topo = topo; locked = false })
unfolding with_lock rewrite_topo release
with_lock_ok busy attempts change f topo l h = rw (with_lock, l, rewrite_topo, h)

with_lock_refused :
    (busy : ℕ → Bool) (attempts : ℕ) (change : Topo → Result Topo) (f : Folder) (e : Exn)
    → lock busy attempts ≡ ok tt
    → change f.topo ≡ err e
    → with_lock busy attempts (rewrite_topo change) f
      ≡ (err e, record { topo = f.topo; locked = false })
unfolding with_lock rewrite_topo release
with_lock_refused busy attempts change f e l h = rw (with_lock, l, rewrite_topo, h)

with_lock_busy :
    (busy : ℕ → Bool) (attempts : ℕ) (change : Topo → Result Topo) (f : Folder) (e : Exn)
    → lock busy attempts ≡ err e
    → with_lock busy attempts (rewrite_topo change) f ≡ (err e, f)
unfolding with_lock
with_lock_busy busy attempts change f e l = rw (with_lock, l)

with_lock-free :
    (busy : ℕ → Bool) (attempts : ℕ) (change : Topo → Result Topo) (f : Folder) (j : ℕ)
    → j < attempts
    → busy j ≡ false
    → lock busy attempts ≡ ok tt
    → Outcome change busy attempts f (with_lock busy attempts (rewrite_topo change) f)
with_lock-free busy attempts change f j l free h = elim (Result-cases (change f.topo)) [
  | inl (topo, e) ↦ rw (with_lock_ok busy attempts change f topo h e) (written j topo l free e)
  | inr (x, e) ↦ rw (with_lock_refused busy attempts change f x h e) (refused j x l free e)
]

with_lock-Outcome :
    (busy : ℕ → Bool) (attempts : ℕ) (change : Topo → Result Topo) (f : Folder)
    → Outcome change busy attempts f (with_lock busy attempts (rewrite_topo change) f)
unfolding lock
with_lock-Outcome busy zero change f =
    rw (with_lock_busy busy zero change f name_error refl)
      (busy_all name_error (λ j l. absurd (omega arith)))
with_lock-Outcome busy (suc n) change f = elim (lock_loop-cases busy (suc n)) [
  | inl (j, l, free, h) ↦ with_lock-free busy (suc n) change f j l free h
  | inr (all, h) ↦
      rw (with_lock_busy busy (suc n) change f runtime_error h) (busy_all runtime_error all)
]

pub lock-free :
    (busy : ℕ → Bool) (attempts j : ℕ) → j < attempts → busy j ≡ false → lock busy attempts ≡ ok tt
unfolding lock
lock-free busy zero j l free = absurd (omega arith)
lock-free busy (suc n) j l free = elim (lock_loop-cases busy (suc n)) [
  | inl (k, l', free', h) ↦ h
  | inr (all, h) ↦ absurd (cc (all j l))
]

module _ (ipv6 : Ipv6) {floats : Floats} where
  -- Activating a contract has exactly three outcomes. If some attempt finds no lock file, the new
  -- topology is written or the exception of the change is raised with the file as it was, and in both
  -- cases the lock file is gone afterwards; if every attempt finds one, an exception is raised and
  -- neither file is touched.
  pub activate-Outcome :
      (self : Config ipv6) (busy : ℕ → Bool) (c : ContractMessage floats) (f : Folder)
      → Outcome (adding ipv6 self c) busy self.attempts f (activate ipv6 self busy c f)
  unfolding activate
  activate-Outcome self busy c f = with_lock-Outcome busy self.attempts (adding ipv6 self c) f

  -- Deactivating a contract has the same three outcomes: the topology without the contract's interface
  -- is written, the exception of the change is raised with the file as it was, or no attempt gets the
  -- lock and nothing is touched.
  pub deactivate-Outcome :
      (self : Config ipv6) (busy : ℕ → Bool) (c : ContractMessage floats) (f : Folder)
      → Outcome (removing ipv6 c) busy self.attempts f (deactivate ipv6 self busy c f)
  unfolding deactivate
  deactivate-Outcome self busy c f = with_lock-Outcome busy self.attempts (removing ipv6 c) f
