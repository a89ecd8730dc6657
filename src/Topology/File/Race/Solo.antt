-- ===== src/Topology/File/Race/Solo.antt =====
-- What the functions of Topology/File do when nothing else has the lock is a run of the steps.
use esdx_scion.Base.{
  ℕ, suc, ◌≡◌, refl, sym, subst, true, false, Result, ok, err, Exn, Result-cases, inl, inr, ◌==◌,
  arith,
}
use esdx_scion.Topology.{Topo}
use esdx_scion.Topology.File.{Folder}
use esdx_scion.Topology.File.{with_lock, rewrite_topo, release, lock}
use esdx_scion.Topology.File.Race.{
  trying, locking, loaded, leaving, finished, acquire, load, write, fail, unlock, start, next,
  Phase, World, set, Steps,
}

run_ok :
    (change : Topo → Result Topo) (n : ℕ) (f : Folder) (t : Topo)
    → change f.topo ≡ ok t
    → with_lock (λ i. false) (suc n) (rewrite_topo change) f
      ≡ (ok tt, record { topo = t; locked = false })
unfolding with_lock rewrite_topo release lock
run_ok change n f t h = rw (rewrite_topo, h) refl

run_err :
    (change : Topo → Result Topo) (n : ℕ) (f : Folder) (e : Exn)
    → change f.topo ≡ err e
    → with_lock (λ i. false) (suc n) (rewrite_topo change) f ≡ (err e, record f { locked = false })
unfolding with_lock rewrite_topo release lock
run_err change n f e h = rw (rewrite_topo, h) refl

set_self : (j : ℕ) (p : Phase) (phases : ℕ → Phase) → set j p phases j ≡ p
set_self j p phases = let same : (j == j) ≡ true = ground arith in rw same refl

module _ (change : ℕ → Topo → Result Topo) where
  -- the process has reached what a call of the functions returns
  abbrev pub Ran : ℕ → World → Result (Unit {0}) × Folder → Type 0
  Ran j w (r, f) =
      (phases : ℕ → Phase) × Steps change w (record { folder = f; phases = phases })
      × (phases j ≡ finished r)

  -- A process that finds no lock file runs as `activate` and `deactivate` do: some steps of it lead to
  -- the folder and the result that the locked change of the file has.
  pub with_lock-Ran :
      (j n : ℕ) (w : World)
      → w.phases j ≡ trying (suc n)
      → w.folder.locked ≡ false
      → Ran j w (with_lock (λ i. false) (suc n) (rewrite_topo (change j)) w.folder)
  with_lock-Ran j n w e free =
      let p1 = set j locking w.phases in
      let p2 = set j (loaded w.folder.topo) p1 in
      let f1 = record w.folder { locked = true } in
      let w1 : World = record { folder = f1; phases = p1 } in
      let w2 : World = record { folder = f1; phases = p2 } in
      let s1 : Steps change w w1 = next w w1 j start (acquire n e free) in
      let s2 : Steps change w w2 = next w1 w2 j s1 (load (set_self j locking w.phases)) in
      elim (Result-cases (change j w.folder.topo)) [
        | inl (t, h) ↦
            let p3 = set j (leaving (ok tt)) p2 in
            let w3 : World = record { folder = record f1 { topo = t }; phases = p3 } in
            let s3 : Steps change w w3 =
              next w2 w3 j s2 (write w.folder.topo t (set_self j (loaded w.folder.topo) p1) h) in
            let s4 = next w3 _ j s3 (unlock (ok tt) (set_self j (leaving (ok tt)) p2) refl) in
            subst (Ran j w) (sym (run_ok (change j) n w.folder t h))
              (_, s4, set_self j (finished (ok tt)) p3)
        | inr (x, h) ↦
            let p3 = set j (leaving (err x)) p2 in
            let w3 : World = record { folder = f1; phases = p3 } in
            let s3 : Steps change w w3 =
              next w2 w3 j s2 (fail w.folder.topo x (set_self j (loaded w.folder.topo) p1) h) in
            let s4 = next w3 _ j s3 (unlock (err x) (set_self j (leaving (err x)) p2) refl) in
            subst (Ran j w) (sym (run_err (change j) n w.folder x h))
              (_, s4, set_self j (finished (err x)) p3)
      ]
