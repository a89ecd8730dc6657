-- ===== src/Topology/File/Race/Mutex.antt =====
-- The lock file keeps the changes of several processes apart.
use esdx_scion.Base.{
  suc, ℕ, ◌≡◌, refl, sym, subst, ◌∙◌, true, false, List, [], ◌∷◌, Result, ok, err, runtime_error,
  Bool-cases, inl, inr, ◌==◌, arith,
}
use mathlib.Core.List.{Memᴰ}
use esdx_scion.Topology.{Topo}
use esdx_scion.Topology.File.Race.{
  trying, locking, loaded, leaving, finished, busy, give_up, acquire, load, write, fail, unlock,
  unlock_missing, start, next, unchanged, changed, nobody, somebody, Phase, World, set, Step, Steps,
  Serial, Outside, Inside, HasWritten, Holder, IsSerial,
}

module _ (change : ℕ → Topo → Result Topo) where
  -- a family over the phases, where one process has a new phase
  set_all :
      (P : ℕ → Phase → Type 0) (j : ℕ) (p : Phase) (phases : ℕ → Phase)
      → P j p
      → ((i : ℕ) → (i == j) ≡ false → P i (phases i))
      → (i : ℕ) → P i (set j p phases i)
  set_all P j p phases new old i = elim (Bool-cases (i == j)) [
    | inl h ↦ let same : i ≡ j = ground arith in rw h (subst (λ (k : ℕ). P k p) (sym same) new)
    | inr h ↦ rw h (old i h)
  ]

  set_same :
      (P : Phase → Type 0) (j : ℕ) (p : Phase) (phases : ℕ → Phase) → P p → P (set j p phases j)
  set_same P j p phases h = let same : (j == j) ≡ true = ground arith in rw same h

  not_both : (topo : Topo) (p : Phase) → Inside topo p → Outside p → ⊥
  not_both topo (trying n) i o = i
  not_both topo locking i o = o
  not_both topo (loaded t) i o = o
  not_both topo (leaving r) i o = o
  not_both topo (finished r) i o = i

  module _ (w : World) (j : ℕ) where
    -- a process that is not outside has the lock
    Holder-Inside :
        Holder w
        → (Outside (w.phases j) → ⊥)
        → (w.folder.locked ≡ true)
          × Inside w.folder.topo (w.phases j)
          × ((k : ℕ) → (k == j) ≡ false → Outside (w.phases k))
    Holder-Inside (nobody free out) inside_it = absurd (inside_it (out j))
    Holder-Inside (somebody i locked inside out) inside_it = elim (Bool-cases (j == i)) [
      | inl h ↦
          let same : i ≡ j = ground arith in
          (
            locked,
            subst (λ (k : ℕ). Inside w.folder.topo (w.phases k)) same inside,
            λ k l. out k (subst (λ (m : ℕ). (k == m) ≡ false) (sym same) l),
          )
      | inr h ↦ absurd (inside_it (out j h))
    ]

    -- a process that stays outside does not change who has the lock
    Holder-Outside :
        (p : Phase)
        → Holder w
        → Outside (w.phases j)
        → Outside p
        → Holder (record w { phases = set j p w.phases })
    Holder-Outside p (nobody free out) old new =
        nobody free (set_all (λ k x. Outside x) j p w.phases new (λ k h. out k))
    Holder-Outside p (somebody i locked inside out) old new = elim (Bool-cases (i == j)) [
      | inl h ↦
          let same : i ≡ j = ground arith in
          absurd (
            not_both w.folder.topo (w.phases j)
              (subst (λ (k : ℕ). Inside w.folder.topo (w.phases k)) same inside) old)
      | inr h ↦
          somebody i locked (rw h inside)
            (set_all (λ k x. (k == i) ≡ false → Outside x) j p w.phases (λ l. new) (λ k l. out k))
    ]

    others-Outside :
        (p : Phase)
        → ((k : ℕ) → (k == j) ≡ false → Outside (w.phases k))
        → (k : ℕ) → (k == j) ≡ false
        → Outside (set j p w.phases k)
    others-Outside p out k h = rw h (out k h)

    written_by :
        (p : Phase) (order more : List ℕ)
        → ((k : ℕ) → HasWritten (w.phases k) → Memᴰ k order)
        → ((k : ℕ) → Memᴰ k order → Memᴰ k more)
        → (HasWritten p → Memᴰ j more)
        → (k : ℕ) → HasWritten (set j p w.phases k)
        → Memᴰ k more
    written_by p order more old grow new =
        set_all (λ k x. HasWritten x → Memᴰ k more) j p w.phases new (λ k h x. grow k (old k x))

    phase_as : (P : Phase → Type 0) (p : Phase) → w.phases j ≡ p → P (w.phases j) → P p
    phase_as P p e = subst P e

    has_lock :
        Holder w
        → (p : Phase) → w.phases j ≡ p
        → (Outside p → ⊥)
        → (w.folder.locked ≡ true)
          × Inside w.folder.topo p
          × ((k : ℕ) → (k == j) ≡ false → Outside (w.phases k))
    has_lock h p e inside_it =
        let (locked, inside, out) = Holder-Inside h (λ o. inside_it (phase_as Outside p e o)) in
        (locked, phase_as (Inside w.folder.topo) p e inside, out)

  free_all : (w : World) → Holder w → w.folder.locked ≡ false → (j : ℕ) → Outside (w.phases j)
  free_all w (nobody free out) e = out
  free_all w (somebody i locked inside out) e = absurd (cc (sym locked ∙ e))

  still_written : (r : Result (Unit {0})) → HasWritten (finished r) → HasWritten (leaving r)
  still_written (ok u) h = h
  still_written (err e) h = h

  Step-IsSerial :
      (t0 : Topo) (j : ℕ) (w w' : World)
      → IsSerial change t0 w
      → Step change j w w'
      → IsSerial change t0 w'
  Step-IsSerial t0 j w w' s (busy n e locked) = record {
    order = s.order;
    serial = s.serial;
    holder = Holder-Outside w j (trying n) s.holder (subst Outside (sym e) tt) tt;
    written = written_by w j (trying n) s.order s.order s.written (λ k h. h) (λ h. absurd h);
  }
  Step-IsSerial t0 j w w' s (give_up e) = record {
    order = s.order;
    serial = s.serial;
    holder =
        Holder-Outside w j (finished (err runtime_error)) s.holder (subst Outside (sym e) tt) tt;
    written =
        written_by w j (finished (err runtime_error)) s.order s.order s.written (λ k h. h)
          (λ h. absurd h);
  }
  Step-IsSerial t0 j w w' s (acquire n e free) = record {
    order = s.order;
    serial = s.serial;
    holder =
        somebody j refl (set_same (Inside w.folder.topo) j locking w.phases tt)
          (others-Outside w j locking (λ k h. free_all w s.holder free k));
    written = written_by w j locking s.order s.order s.written (λ k h. h) (λ h. absurd h);
  }
  Step-IsSerial t0 j w w' s (load e) =
      let (locked, _, out) = has_lock w j s.holder locking e (λ o. o) in
      record {
        order = s.order;
        serial = s.serial;
        holder =
            somebody j locked
              (set_same (Inside w.folder.topo) j (loaded w.folder.topo) w.phases refl)
              (others-Outside w j (loaded w.folder.topo) out);
        written =
            written_by w j (loaded w.folder.topo) s.order s.order s.written (λ k h. h)
              (λ h. absurd h);
      }
  Step-IsSerial t0 j w w' s (write t t' e makes) =
      let (locked, read, out) = has_lock w j s.holder (loaded t) e (λ o. o) in
      record {
        order = j ∷ s.order;
        serial =
            changed j s.order w.folder.topo t' s.serial
              (subst (λ (u : Topo). change j u ≡ ok t') read makes);
        holder =
            somebody j locked (set_same (Inside t') j (leaving (ok tt)) w.phases tt)
              (others-Outside w j (leaving (ok tt)) out);
        written =
            written_by w j (leaving (ok tt)) s.order (j ∷ s.order) s.written (λ k h. Memᴰ.tail h)
              (λ h. Memᴰ.head refl);
      }
  Step-IsSerial t0 j w w' s (fail t x e raises) =
      let (locked, _, out) = has_lock w j s.holder (loaded t) e (λ o. o) in
      record {
        order = s.order;
        serial = s.serial;
        holder =
            somebody j locked (set_same (Inside w.folder.topo) j (leaving (err x)) w.phases tt)
              (others-Outside w j (leaving (err x)) out);
        written =
            written_by w j (leaving (err x)) s.order s.order s.written (λ k h. h) (λ h. absurd h);
      }
  Step-IsSerial t0 j w w' s (unlock r e locked) =
      let (_, _, out) = has_lock w j s.holder (leaving r) e (λ o. o) in
      record {
        order = s.order;
        serial = s.serial;
        holder = nobody refl (set_all (λ k x. Outside x) j (finished r) w.phases tt out);
        written =
            written_by w j (finished r) s.order s.order s.written (λ k h. h)
              (λ h. s.written j (subst HasWritten (sym e) (still_written r h)));
      }
  Step-IsSerial t0 j w w' s (unlock_missing r e free) =
      let (locked, _, _) = has_lock w j s.holder (leaving r) e (λ o. o) in
      absurd (cc (sym locked ∙ free))

  Steps-IsSerial :
      (w w' : World)
      → w.folder.locked ≡ false
      → ((j : ℕ) → (n : ℕ) × (w.phases j ≡ trying (suc n)))
      → Steps change w w'
      → IsSerial change w.folder.topo w'
  Steps-IsSerial w w' free all start = record {
    order = [];
    serial = unchanged;
    holder = nobody free (λ j. let (n, e) = all j in subst Outside (sym e) tt);
    written = λ j h. let (n, e) = all j in absurd (subst HasWritten e h);
  }
  Steps-IsSerial w w' free all (next w1 w2 j before step) =
      Step-IsSerial w.folder.topo j w1 w2 (Steps-IsSerial w w1 free all before) step

  alone :
      (w : World)
      → Holder w
      → (i j : ℕ) → (Outside (w.phases i) → ⊥)
      → (Outside (w.phases j) → ⊥)
      → i ≡ j
  alone w h i j a b =
      let (_, _, out) = Holder-Inside w i h a in
      elim (Bool-cases (j == i)) [ inl e ↦ ground arith | inr e ↦ absurd (b (out j e)) ]

  locker : (w : World) → Holder w → w.folder.locked ≡ true → (i : ℕ) × (Outside (w.phases i) → ⊥)
  locker w (nobody free out) locked = absurd (cc (sym free ∙ locked))
  locker w (somebody i l inside out) locked = (i, not_both w.folder.topo (w.phases i) inside)

  -- No change is lost and none sees half of another: however the steps of the processes interleave, from
  -- a world where the file is not locked and every process has an attempt left, the file holds the topology
  -- that the changes of some processes make one after the other, each on what the one before it left,
  -- and every process that has written is among these. At no time have two processes the lock, and
  -- whenever the lock file is there, some process has the lock.
  pub Steps-Serial :
      (w w' : World)
      → w.folder.locked ≡ false
      → ((j : ℕ) → (n : ℕ) × (w.phases j ≡ trying (suc n)))
      → Steps change w w'
      → (order : List ℕ) × Serial change w.folder.topo order w'.folder.topo
        × ((j : ℕ) → HasWritten (w'.phases j) → Memᴰ j order)
        × ((i j : ℕ) → (Outside (w'.phases i) → ⊥) → (Outside (w'.phases j) → ⊥) → i ≡ j)
        × (w'.folder.locked ≡ true → (i : ℕ) × (Outside (w'.phases i) → ⊥))
  Steps-Serial w w' free all steps =
      let s = Steps-IsSerial w w' free all steps in
      (
        s.order,
        s.serial,
        s.written,
        λ i j a b. alone w' s.holder i j a b,
        λ locked. locker w' s.holder locked,
      )
