-- ===== src/Proc/Process/Create.antt =====
-- `process_create` and `process_fork`, and any one call.
use zwei_os.Base.{
  ℕ, ◌+◌, ◌<◌, ◌^◌, ◌%◌, ◌≡◌, refl, ap, sym, subst, ◌∙◌, inl, inr, Bool, Option, none, some, List,
  ℤ, arith, set, drop, Option-cases, length-drop,
}
use zwei_os.Proc.Table.{
  ProcessType, Pcb, Kernel, pcb_at, set_pcb, max_processes, vmm_create_user_pml4,
}
use zwei_os.Proc.Process.{
  free_slot, new_pml4, new_stack, create_pcb, fork_pcb, process_create, process_fork, create_in,
  fork_in, parent_of, forking, sched_yield, process_exit, process_kill, wait_round,
}
use zwei_os.Proc.Process.Pids.{HasUniquePids, fresh-HasUniquePids, free_slot_lem}
use zwei_os.Proc.Process.Calls.{
  RunsInTable, sched_yield-HasUniquePids, process_exit-HasUniquePids, process_kill-HasUniquePids,
  wait_round-HasUniquePids,
}

-- Memory for a process leaves the table as it is.
table-new_pml4 :
    (k : Kernel) → ((new_pml4 k).1.table ≡ k.table) × ((new_pml4 k).1.next_pid ≡ k.next_pid)
unfolding new_pml4 vmm_create_user_pml4
table-new_pml4 k = (refl, refl)

table-new_stack :
    (k : Kernel) (base : ℕ)
    → ((new_stack k base).1.table ≡ k.table) × ((new_stack k base).1.next_pid ≡ k.next_pid)
unfolding new_stack
table-new_stack k base = (ground arith, ground arith)

-- A new process gets memory and takes the next pid.
memory-HasUniquePids :
    (k : Kernel) (slot : ℕ) (p : Pcb)
    → slot < max_processes
    → k.next_pid + 1 < 2 ^ 32
    → p.pid ≡ k.next_pid
    → HasUniquePids k
    → HasUniquePids (
        set_pcb
          (new_stack
            (new_pml4 (record k { next_pid = (k.next_pid + 1) % 2 ^ 32 })).1
            (pcb_at k slot).kernel_stack_base).1
          slot
          p)
memory-HasUniquePids k slot p h room mine u =
    let k0 : Kernel = record k { next_pid = (k.next_pid + 1) % 2 ^ 32 } in
    let k1 = (new_pml4 k0).1 in
    let k2 = (new_stack k1 (pcb_at k slot).kernel_stack_base).1 in
    let (t1, n1) = table-new_pml4 k0 in
    let (t2, n2) = table-new_stack k1 (pcb_at k slot).kernel_stack_base in
    fresh-HasUniquePids k (set_pcb k2 slot p) slot p h u room mine
      (ap (λ l. set l slot p) (t2 ∙ t1)) (n2 ∙ n1)

-- The slot is an entry of the table.
pub free_slot-bound :
    (k : Kernel) (slot : ℕ)
    → HasUniquePids k
    → free_slot (drop 1 k.table) 1 ≡ some slot
    → slot < max_processes
free_slot-bound k slot u e =
    let (d, at, inside, f) = free_slot_lem (drop 1 k.table) 1 slot e in
    omega (arith, at, inside, length-drop 1 k.table, u.size)

-- The entry is written, with the next pid, and no other.
pub table-process_create :
    (k : Kernel) (slot : ℕ) (name : List ℕ) (entry_point : ℕ) (kind : ProcessType) (is_user : Bool)
    → free_slot (drop 1 k.table) 1 ≡ some slot
    → (p : Pcb) × (p.pid ≡ k.next_pid)
      × ((process_create k name entry_point kind is_user).1.table ≡ set k.table slot p)
unfolding process_create create_in create_pcb
table-process_create k slot name entry_point kind is_user e =
    let k0 : Kernel = record k { next_pid = (k.next_pid + 1) % 2 ^ 32 } in
    let (cr3, k1) = new_pml4 k0 in
    let (base, k2) = new_stack k1 (pcb_at k slot).kernel_stack_base in
    let (t1, n1) = table-new_pml4 k0 in
    let (t2, n2) = table-new_stack k1 (pcb_at k slot).kernel_stack_base in
    let p =
      create_pcb (pcb_at k slot) k.next_pid (parent_of k slot) name entry_point kind is_user cr3
        base in
    (
      p,
      refl,
      ap (λ o. (create_in k name entry_point kind is_user o).1.table) e
          ∙ ap (λ l. set l slot p) (t2 ∙ t1),
    )

process_create-HasUniquePids :
    (k : Kernel) (name : List ℕ) (entry_point : ℕ) (kind : ProcessType) (is_user : Bool)
    → k.next_pid + 1 < 2 ^ 32
    → HasUniquePids k
    → HasUniquePids (process_create k name entry_point kind is_user).1
unfolding process_create create_in create_pcb
process_create-HasUniquePids k name entry_point kind is_user room u =
    elim (Option-cases (free_slot (drop 1 k.table) 1)) [
      | inl e ↦ subst (λ o. HasUniquePids (create_in k name entry_point kind is_user o).1) (sym e) u
      | inr (slot, e) ↦
          subst (λ o. HasUniquePids (create_in k name entry_point kind is_user o).1) (sym e)
            (memory-HasUniquePids k slot _ (free_slot-bound k slot u e) room refl u)
    ]

pid-fork_pcb :
    (old : Pcb) (pid : ℕ) (parent : Option Pcb) (cr3 base : ℕ)
    → (fork_pcb old pid parent cr3 base).pid ≡ pid
unfolding fork_pcb
pid-fork_pcb old pid none cr3 base = refl
pid-fork_pcb old pid (some parent) cr3 base = refl

process_fork-HasUniquePids :
    (k : Kernel) → k.next_pid + 1 < 2 ^ 32 → HasUniquePids k → HasUniquePids (process_fork k).1
unfolding process_fork fork_in
process_fork-HasUniquePids k room u = elim (Option-cases (free_slot (drop 1 k.table) 1)) [
  | inl e ↦ subst (λ o. HasUniquePids (fork_in k o).1) (sym e) u
  | inr (slot, e) ↦
      subst (λ o. HasUniquePids (fork_in k o).1) (sym e)
        (memory-HasUniquePids k slot _ (free_slot-bound k slot u e) room
          (pid-fork_pcb (pcb_at k slot) k.next_pid (forking k slot) _ _) u)
]

-- A call of one of these functions.
pub data Call : Type 0 where
  create : List ℕ → ℕ → ProcessType → Bool → Call
  fork yield : Call
  exit kill : ℕ → Call
  waitpid : ℤ → ℕ → Call

pub after : Kernel → Call → Kernel
after k (create name entry_point kind is_user) = (process_create k name entry_point kind is_user).1
after k fork = (process_fork k).1
after k yield = sched_yield k
after k (exit code) = process_exit k code
after k (kill pid) = (process_kill k pid).1
after k (waitpid pid options) = (wait_round k pid options).1

-- Each call keeps the entries in use at pids that differ and that are below `next_pid`, if the running
-- process is an entry in use and `next_pid` has not reached the end of the 32-bit numbers.
pub after-HasUniquePids :
    (k : Kernel) (c : Call)
    → RunsInTable k
    → k.next_pid + 1 < 2 ^ 32
    → HasUniquePids k
    → HasUniquePids (after k c)
unfolding after
after-HasUniquePids k (create name entry_point kind is_user) r room u =
    process_create-HasUniquePids k name entry_point kind is_user room u
after-HasUniquePids k fork r room u = process_fork-HasUniquePids k room u
after-HasUniquePids k yield r room u = sched_yield-HasUniquePids k r u
after-HasUniquePids k (exit code) r room u = process_exit-HasUniquePids k code r u
after-HasUniquePids k (kill pid) r room u = process_kill-HasUniquePids k pid u
after-HasUniquePids k (waitpid pid options) r room u = wait_round-HasUniquePids k pid options r u
