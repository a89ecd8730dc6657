-- ===== src/Tests/Race.antt =====
-- Two processes that add a contract to one topology file.
use esdx_scion.Base.{ℕ, ◌≡◌, refl, true, false, List, Result, ok}
use mathlib.Core.List.{Memᴰ}
use esdx_scion.Topology.{Topo}
use esdx_scion.Topology.File.{adding, with_lock, rewrite_topo}
use esdx_scion.Topology.File.Race.{
  World, set, Steps, Serial, Outside, HasWritten, trying, locking, loaded, leaving, finished, busy,
  acquire, load, write, unlock, start, next,
}
use esdx_scion.Topology.File.Race.Mutex.{Steps-Serial}
use esdx_scion.Topology.File.Race.Solo.{Ran, with_lock-Ran}
use esdx_scion.Tests.Data.{loopback_only}
use esdx_scion.Tests.Topology.{one_router, contract, self, merged, sells, merges}

abbrev add : ℕ → Topo → Result Topo
add j = adding loopback_only self contract

adds : add 0 one_router ≡ ok merged
adds = rw (sells, merges) refl

abbrev idle : World
idle = record { folder = record { topo = one_router; locked = false }; phases = λ j. trying 1 }

abbrev locked : World
locked = record {
  folder = record { topo = one_router; locked = true };
  phases = set 0 locking idle.phases;
}

abbrev waiting : World
waiting = record locked { phases = set 1 (trying 0) locked.phases }

abbrev read : World
read = record waiting { phases = set 0 (loaded one_router) waiting.phases }

abbrev wrote : World
wrote = record {
  folder = record { topo = merged; locked = true };
  phases = set 0 (leaving (ok tt)) read.phases;
}

abbrev released : World
released = record {
  folder = record { topo = merged; locked = false };
  phases = set 0 (finished (ok tt)) wrote.phases;
}

run : Steps add idle released
run =
    next wrote released 0
      (next read wrote 0
        (next waiting read 0
          (next locked waiting 1 (next idle locked 0 start (acquire 0 refl refl))
            (busy 0 refl refl))
          (load refl))
        (write one_router merged refl adds))
      (unlock (ok tt) refl refl)

Steps-Serial_example :
    (order : List ℕ) × Serial add one_router order merged
    × ((j : ℕ) → HasWritten (released.phases j) → Memᴰ j order)
    × ((i j : ℕ) → (Outside (released.phases i) → ⊥) → (Outside (released.phases j) → ⊥) → i ≡ j)
    × (false ≡ true → (i : ℕ) × (Outside (released.phases i) → ⊥))
Steps-Serial_example = Steps-Serial add idle released refl (λ j. (0, refl)) run

with_lock-Ran_example : Ran add 0 idle (with_lock (λ i. false) 1 (rewrite_topo (add 0)) idle.folder)
with_lock-Ran_example = with_lock-Ran add 0 0 idle refl refl
