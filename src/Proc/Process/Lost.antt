-- ===== src/Proc/Process/Lost.antt =====
-- What `process_exit` and `process_create` lose: a page table, and an exit status.
use zwei_os.Base.{
  ℕ, ◌<◌, ◌≡◌, refl, ap, ◌∙◌, ◌≢◌, inl, inr, Bool, true, false, some, List, ℤ, arith, length,
  get_or, drop, get_or-set, Option-cases,
}
use zwei_os.Proc.Table.{ProcessType, is_unused, is_zombie, unused_pcb, Kernel, pcb_at}
use zwei_os.Proc.Process.{
  free_slot, process_create, process_exit, sched_yield, wait_round, end_round, Found, reaped,
  children, end_process,
}
use zwei_os.Proc.Process.Pids.{HasUniquePids}
use zwei_os.Proc.Process.Lookup.{end_process_lem}
use zwei_os.Proc.Process.Create.{table-process_create, free_slot-bound}

frames-sched_yield : (k : Kernel) → (sched_yield k).frames ≡ k.frames
unfolding sched_yield
frames-sched_yield k = elim (Option-cases k.current) [
  | inl e ↦ ground (arith, e)
  | inr (c, e) ↦ ground (arith, e)
]

frames-end_round :
    (k : Kernel) (options : ℕ) (f : Found) → (end_round k options f).1.frames ≡ k.frames
unfolding end_round
frames-end_round k options (reaped i) = refl
frames-end_round k options (children seen) = ground (arith, frames-sched_yield k)

-- A process that exits while its page table is loaded keeps the frame of it allocated: `process_exit`
-- frees no frame, and no round of `process_waitpid` does.
pub process_exit-frames :
    (k : Kernel) (c code : ℕ)
    → k.current ≡ some c
    → c < length k.table
    → (pcb_at k c).cr3 ≡ k.cr3
    → ((process_exit k code).frames ≡ k.frames)
      × ((k' : Kernel) (pid : ℤ) (options : ℕ) → (wait_round k' pid options).1.frames ≡ k'.frames)
unfolding process_exit wait_round
process_exit-frames k c code e h own =
    let (z, x, p, q, others, freed) = end_process_lem k c code h in
    (
      ground (arith, e, own, freed, frames-sched_yield (end_process k c code)),
      λ k' pid options. frames-end_round k' options _,
    )

-- A new process may take the entry of a zombie that no `process_waitpid` has collected: then no entry in
-- use has the zombie's pid, and its exit status is lost.
pub process_create-loses :
    (k : Kernel) (slot : ℕ) (name : List ℕ) (entry_point : ℕ) (kind : ProcessType) (is_user : Bool)
    → HasUniquePids k
    → free_slot (drop 1 k.table) 1 ≡ some slot
    → is_zombie (pcb_at k slot).state ≡ true
    → (j : ℕ)
    → is_unused (pcb_at (process_create k name entry_point kind is_user).1 j).state ≡ false
    → (pcb_at (process_create k name entry_point kind is_user).1 j).pid ≢ (pcb_at k slot).pid
process_create-loses k slot name entry_point kind is_user u e dead j =
    let (p, mine, t) = table-process_create k slot name entry_point kind is_user e in
    let h = free_slot-bound k slot u e in
    let r = get_or-set k.table slot j p unused_pcb (omega (arith, u.size, h)) in
    let was : is_unused (pcb_at k slot).state ≡ false = ground (arith, dead) in
    λ used eq.
      let here = ap (λ l. get_or l j unused_pcb) t ∙ r in
      ground (arith, here, mine, used, eq, was, u.below slot was, u.distinct j slot)
