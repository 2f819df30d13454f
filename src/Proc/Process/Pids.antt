-- ===== src/Proc/Process/Pids.antt =====
-- No two entries in use have one pid.
use zwei_os.Base.{
  ℕ, zero, suc, ◌+◌, ◌<◌, ◌^◌, ◌%◌, ◌≡◌, ap, ◌∙◌, ◌≢◌, inl, inr, true, false, not, ◌&&◌, ◌||◌, none,
  some, List, [], ◌∷◌, arith, ◌==◌, if◌then◌else◌, length, get_or, set, length-set, get_or-set,
  Bool-cases,
}
use zwei_os.Proc.Table.{
  is_unused, is_zombie, Pcb, unused_pcb, Kernel, pcb_at, set_pcb, max_processes,
}
use zwei_os.Proc.Process.{free_slot, find_pid}

-- The entries in use have pids below `next_pid`, no two of them the same.
pub record HasUniquePids (k : Kernel) : Type 0 where
  pub size : length k.table ≡ max_processes
  pub below : (i : ℕ) → is_unused (pcb_at k i).state ≡ false → (pcb_at k i).pid < k.next_pid
  pub distinct :
      (i j : ℕ)
      → is_unused (pcb_at k i).state ≡ false
      → is_unused (pcb_at k j).state ≡ false
      → (pcb_at k i).pid ≡ (pcb_at k j).pid
      → i ≡ j

-- A write of an entry with the same pid keeps the pids unique, if the entry was in use; so does one
-- that frees an entry, and one with a pid that is above all others.
pub set_pcb-HasUniquePids :
    (k : Kernel) (i : ℕ) (p : Pcb)
    → i < max_processes
    → HasUniquePids k
    → (is_unused p.state ≡ false
        → (is_unused (pcb_at k i).state ≡ false) × (p.pid ≡ (pcb_at k i).pid))
    → HasUniquePids (set_pcb k i p)
set_pcb-HasUniquePids k i p h u keep = record {
  size = length-set k.table i p ∙ u.size;
  below = λ a ua. ground (arith, u.size, get_or-set k.table i a p unused_pcb, u.below a);
  distinct = λ a b ua ub e. ground (
    arith,
    u.size,
    get_or-set k.table i a p unused_pcb,
    get_or-set k.table i b p unused_pcb,
    u.distinct a b,
    u.distinct i b,
    u.distinct a i,
  );
}

-- A new entry takes `next_pid`, which moves on.
pub fresh-HasUniquePids :
    (k k' : Kernel) (slot : ℕ) (p : Pcb)
    → slot < max_processes
    → HasUniquePids k
    → k.next_pid + 1 < 2 ^ 32
    → p.pid ≡ k.next_pid
    → k'.table ≡ set k.table slot p
    → k'.next_pid ≡ (k.next_pid + 1) % 2 ^ 32
    → HasUniquePids k'
fresh-HasUniquePids k k' slot p h u room mine t n = record {
  size = ap length t ∙ length-set k.table slot p ∙ u.size;
  below = λ a ua. ground (arith, read a, u.below a, ap (λ l. (get_or l a unused_pcb)) t);
  distinct = λ a b ua ub e. ground (
    arith,
    read a,
    read b,
    u.below a,
    u.below b,
    u.distinct a b,
    ap (λ l. (get_or l a unused_pcb)) t,
    ap (λ l. (get_or l b unused_pcb)) t,
  );
}
  where
    read :
        (a : ℕ) → get_or (set k.table slot p) a unused_pcb ≡ (if slot == a then p else pcb_at k a)
    read a = get_or-set k.table slot a p unused_pcb (omega (arith, u.size))

pub free_slot_lem :
    (ps : List Pcb) (from i : ℕ)
    → free_slot ps from ≡ some i
    → (d : ℕ) × (i ≡ d + from)
      × (d < length ps)
      × ((is_unused (get_or ps d unused_pcb).state || is_zombie (get_or ps d unused_pcb).state)
          ≡ true)
unfolding free_slot
free_slot_lem [] from i e = cc
free_slot_lem (p ∷ ps) from i e = elim (Bool-cases (is_unused p.state || is_zombie p.state)) [
  | inl f ↦ (0, ground (arith, e, f), omega arith, f)
  | inr n ↦
      let (d, at, inside, f) = free_slot_lem ps (from + 1) i (ground (arith, e, n)) in
      (suc d, omega arith, omega arith, f)
]

-- `process_get_by_pid` finds an entry in use with that pid, or there is none.
pub find_pid_lem :
    (ps : List Pcb) (pid from i : ℕ)
    → find_pid ps pid from ≡ some i
    → (d : ℕ) × (i ≡ d + from)
      × (d < length ps)
      × (is_unused (get_or ps d unused_pcb).state ≡ false)
      × ((get_or ps d unused_pcb).pid ≡ pid)
unfolding find_pid
find_pid_lem [] pid from i e = cc
find_pid_lem (p ∷ ps) pid from i e = elim (Bool-cases (not (is_unused p.state) && p.pid == pid)) [
  | inl f ↦ (0, ground (arith, e, f), omega arith, ground (arith, f), ground (arith, f))
  | inr n ↦
      let (d, at, inside, used, eq) = find_pid_lem ps pid (from + 1) i (ground (arith, e, n)) in
      (suc d, omega arith, omega arith, used, eq)
]

pub find_pid-none :
    (ps : List Pcb) (pid from : ℕ)
    → find_pid ps pid from ≡ none
    → (d : ℕ) → d < length ps
    → is_unused (get_or ps d unused_pcb).state ≡ false
    → (get_or ps d unused_pcb).pid ≢ pid
unfolding find_pid
find_pid-none [] pid from e d h u = absurd (omega arith)
find_pid-none (p ∷ ps) pid from e zero h u = λ eq. ground (arith, e)
find_pid-none (p ∷ ps) pid from e (suc d) h u =
    find_pid-none ps pid (from + 1) (ground (arith, e)) d (omega arith) u
