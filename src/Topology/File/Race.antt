-- ===== src/Topology/File/Race.antt =====
-- Several processes that change one topology file: the steps of `_lock`, `activate` and `deactivate`
-- (esdx4ixps/reloader/topology.py), in any order. The lock file is created in one step, as the mode "x"
-- of `open` does.
pub mod Solo
pub mod Mutex
use esdx_scion.Base.{
  ℕ, zero, suc, ◌≡◌, ◌≢◌, refl, sym, ap, subst, ◌∙◌, Bool, true, false, List, [], ◌∷◌, ◌++◌, Result,
  ok, err, Exn, runtime_error, Bool-cases, inl, inr, ◌==◌, if◌then◌else◌, arith,
}
use mathlib.Core.List.Memᴰ
use mathlib.Core.List.{Memᴰ}
use esdx_scion.Topology.{Topo}
use esdx_scion.Topology.File.{Folder}

-- Where a process is: it tries to lock, it has the lock, it has read the topology, it has written it or
-- failed to change it, or it has released the lock or given up.
pub data Phase : Type 0 where
  trying : ℕ → Phase
  locking : Phase
  loaded : Topo → Phase
  leaving : Result (Unit {0}) → Phase
  finished : Result (Unit {0}) → Phase

pub record World : Type 0 where
  pub folder : Folder
  pub phases : ℕ → Phase

abbrev pub set : ℕ → Phase → (ℕ → Phase) → ℕ → Phase
set j p phases i = if i == j then p else phases i

abbrev pub Outside : Phase → Type 0
Outside (trying n) = Unit {0}
Outside locking = ⊥
Outside (loaded t) = ⊥
Outside (leaving r) = ⊥
Outside (finished r) = Unit {0}

-- a process has the lock; what it has read is what the file holds
abbrev pub Inside : Topo → Phase → Type 0
Inside topo (trying n) = ⊥
Inside topo locking = Unit {0}
Inside topo (loaded t) = t ≡ topo
Inside topo (leaving r) = Unit {0}
Inside topo (finished r) = ⊥

-- a process has written its change
abbrev pub HasWritten : Phase → Type 0
HasWritten (trying n) = ⊥
HasWritten locking = ⊥
HasWritten (loaded t) = ⊥
HasWritten (leaving (ok u)) = Unit {0}
HasWritten (leaving (err e)) = ⊥
HasWritten (finished (ok u)) = Unit {0}
HasWritten (finished (err e)) = ⊥

-- who has the lock
pub data Holder (w : World) : Type 0 where
  nobody : w.folder.locked ≡ false → ((j : ℕ) → Outside (w.phases j)) → Holder w
  somebody :
      (i : ℕ)
      → w.folder.locked ≡ true
      → Inside w.folder.topo (w.phases i)
      → ((j : ℕ) → (j == i) ≡ false → Outside (w.phases j))
      → Holder w

module _ (change : ℕ → Topo → Result Topo) where
  -- the steps of process `j`
  pub data Step (j : ℕ) (w : World) : World → Type 0 where
    busy :
        (n : ℕ)
        → w.phases j ≡ trying (suc n)
        → w.folder.locked ≡ true
        → Step j w (record w { phases = set j (trying n) w.phases })
    give_up :
        w.phases j ≡ trying 0
        → Step j w (record w { phases = set j (finished (err runtime_error)) w.phases })
    acquire :
        (n : ℕ)
        → w.phases j ≡ trying (suc n)
        → w.folder.locked ≡ false
        → Step j w
            (record { folder = record w.folder { locked = true }; phases = set j locking w.phases })
    load :
        w.phases j ≡ locking
        → Step j w (record w { phases = set j (loaded w.folder.topo) w.phases })
    write :
        (t t' : Topo)
        → w.phases j ≡ loaded t
        → change j t ≡ ok t'
        → Step j w (record {
          folder = record w.folder { topo = t' };
          phases = set j (leaving (ok tt)) w.phases;
        })
    fail :
        (t : Topo) (e : Exn)
        → w.phases j ≡ loaded t
        → change j t ≡ err e
        → Step j w (record w { phases = set j (leaving (err e)) w.phases })
    unlock :
        (r : Result (Unit {0}))
        → w.phases j ≡ leaving r
        → w.folder.locked ≡ true
        → Step j w (record {
          folder = record w.folder { locked = false };
          phases = set j (finished r) w.phases;
        })
    unlock_missing :
        (r : Result (Unit {0}))
        → w.phases j ≡ leaving r
        → w.folder.locked ≡ false
        → Step j w (record w { phases = set j (finished (err runtime_error)) w.phases })

  pub data Steps (w : World) : World → Type 0 where
    start : Steps w w
    next : (w1 w2 : World) (j : ℕ) → Steps w w1 → Step j w1 w2 → Steps w w2

  -- the topology after the changes of some processes, each on what the one before it left; the last
  -- process stands first
  pub data Serial (t : Topo) : List ℕ → Topo → Type 0 where
    unchanged : Serial t [] t
    changed :
        (j : ℕ) (order : List ℕ) (t1 t2 : Topo)
        → Serial t order t1
        → change j t1 ≡ ok t2
        → Serial t (j ∷ order) t2

  pub record IsSerial (t : Topo) (w : World) : Type 0 where
    pub order : List ℕ
    pub serial : Serial t order w.folder.topo
    pub holder : Holder w
    pub written : (j : ℕ) → HasWritten (w.phases j) → Memᴰ j order
