-- ===== src/Proc/Process.antt =====
-- kernel/proc/process.cpp: the operations on the process table. A name that is passed is not null.
pub mod Pids
pub mod Wait
pub mod Calls
pub mod Create
pub mod Lookup
pub mod Lost
mod Tests
use zwei_os.Base.{
  ℕ, ◌+◌, ◌-◌, ◌*◌, ◌/◌, ◌%◌, ◌^◌, Bool, true, false, not, ◌&&◌, ◌||◌, Option, none, some, List, [],
  ◌∷◌, ℤ, pos, negsuc, ltb, ◌==◌, if◌then◌else◌, get_or, set, take, drop, replicate,
}
use zwei_os.Mm.Heap.{kmalloc}
use zwei_os.Proc.Table.{
  ProcessState, ProcessType, unused, ready, running, blocked, zombie, kernel_thread, linux_elf64,
  is_unused, is_zombie, is_ready, CpuContext, Pcb, zero_context, unused_pcb, Kernel, pcb_at,
  set_pcb, max_processes, sched_default_quantum, kernel_stack_sz, vmm_get_kernel_pml4,
  vmm_create_user_pml4, vmm_destroy_user_pml4,
}

-- The scan for a slot, from index 1 on.
pub free_slot : List Pcb → ℕ → Option ℕ
free_slot [] i = none
free_slot (p ∷ ps) i =
    let rest = free_slot ps (i + 1) in
    if is_unused p.state || is_zombie p.state then some i else rest

-- A page table of its own, or the loaded one; and a kernel stack, kept if the slot has one.
new_pml4 : Kernel → ℕ × Kernel
new_pml4 k =
    let (addr, k') = vmm_create_user_pml4 k in
    ((if addr == 0 then vmm_get_kernel_pml4 k' else addr), k')

address_of : Kernel → Option ℕ → ℕ
address_of k none = 0
address_of k (some ptr) = k.heap_base + ptr

new_stack : Kernel → ℕ → ℕ × Kernel
unfolding address_of
new_stack k base =
    if base == 0
    then (let (ptr, heap) = kmalloc k.heap kernel_stack_sz in
        (address_of k ptr, record k { heap = heap }))
    else (base, k)

abbrev stack_top : ℕ → ℕ → ℕ
stack_top base top = if not (base == 0) then (base + kernel_stack_sz) / 16 * 16 else top

abbrev pub current_pid : Kernel → ℕ
current_pid k = elim k.current [ none ↦ 0 | some c ↦ (pcb_at k c).pid ]

-- The entry that `process_create` writes over the old one.
create_pcb : Pcb → ℕ → ℕ → List ℕ → ℕ → ProcessType → Bool → ℕ → ℕ → Pcb
create_pcb old pid parent name entry_point kind is_user cr3 base =
    let top = stack_top base old.kernel_stack_top in
    record old {
      pid = pid;
      name = take 31 name;
      state = ready;
      kind = kind;
      parent_pid = parent;
      entry_point = entry_point;
      exit_code = 0;
      time_slice = sched_default_quantum;
      total_ticks = 0;
      sleep_until_tick = 0;
      cr3 = cr3;
      kernel_stack_base = base;
      kernel_stack_top = top;
      context = record zero_context {
        rip = entry_point;
        rflags = 0x202;
        cs = if is_user then 0x23 else 0x08;
        ss = if is_user then 0x1b else 0x10;
        rsp = if is_user then old.user_stack_top else top;
      };
    }

-- The parent is read after the new pid is in place, so that a process made in the current slot is
-- its own parent.
abbrev parent_of : Kernel → ℕ → ℕ
parent_of k slot = elim k.current [
  | none ↦ 0
  | some c ↦ if c == slot then k.next_pid else (pcb_at k c).pid
]

pub create_in : Kernel → List ℕ → ℕ → ProcessType → Bool → Option ℕ → Option ℕ × Kernel
unfolding new_pml4 new_stack create_pcb vmm_create_user_pml4
create_in k name entry_point kind is_user none = (none, k)
create_in k name entry_point kind is_user (some slot) =
    let parent = parent_of k slot in
    let (cr3, k1) = new_pml4 (record k { next_pid = (k.next_pid + 1) % 2 ^ 32 }) in
    let (base, k2) = new_stack k1 (pcb_at k slot).kernel_stack_base in
    (
      some slot,
      set_pcb k2 slot
          (create_pcb (pcb_at k slot) k.next_pid parent name entry_point kind is_user cr3 base),
    )

pub process_create : Kernel → List ℕ → ℕ → ProcessType → Bool → Option ℕ × Kernel
process_create k name entry_point kind is_user =
    create_in k name entry_point kind is_user (free_slot (drop 1 k.table) 1)

-- The index is that of the list's head.
unfoldable pub find_pid : List Pcb → ℕ → ℕ → Option ℕ
find_pid [] pid i = none
find_pid (p ∷ ps) pid i =
    let rest = find_pid ps pid (i + 1) in
    if not (is_unused p.state) && p.pid == pid then some i else rest

unfoldable pub process_get_by_pid : Kernel → ℕ → Option ℕ
process_get_by_pid k pid = find_pid k.table pid 0

-- A process ends: `exit_code` is kept for its parent, and its page table is freed unless it is loaded.
pub end_process : Kernel → ℕ → ℕ → Kernel
end_process k i exit_code =
    let p = pcb_at k i in
    let k' = set_pcb k i (record p { state = zombie; exit_code = exit_code }) in
    if not (p.cr3 == 0) && not (p.cr3 == vmm_get_kernel_pml4 k)
    then set_pcb (vmm_destroy_user_pml4 k' p.cr3) i
        (record p { state = zombie; exit_code = exit_code; cr3 = vmm_get_kernel_pml4 k })
    else k'

pub sched_yield : Kernel → Kernel
sched_yield k = elim k.current [
  | none ↦ k
  | some c ↦ set_pcb k c (record (pcb_at k c) { time_slice = 0 })
]

pub process_exit : Kernel → ℕ → Kernel
unfolding end_process sched_yield vmm_destroy_user_pml4
process_exit k exit_code = elim k.current [
  | none ↦ k
  | some c ↦ sched_yield (end_process k c exit_code)
]

pub process_kill : Kernel → ℕ → Bool × Kernel
unfolding end_process vmm_destroy_user_pml4
process_kill k pid = if pid == 0 then (false, k) else elim (process_get_by_pid k pid) [
  | none ↦ (false, k)
  | some i ↦ (true, end_process k i (2 ^ 64 - 9))
]

-- The entries in use, in order; the lists that callers give have room for all.
unfoldable pub process_get_all : List Pcb → List Pcb
process_get_all [] = []
process_get_all (p ∷ ps) =
    let rest = process_get_all ps in if not (is_unused p.state) then p ∷ rest else rest

-- "fork_child"
abbrev fork_child : List ℕ
fork_child = 102 ∷ 111 ∷ 114 ∷ 107 ∷ 95 ∷ 99 ∷ 104 ∷ 105 ∷ 108 ∷ 100 ∷ []

-- The child's entry: the parent's context, with 0 for its result.
fork_pcb : Pcb → ℕ → Option Pcb → ℕ → ℕ → Pcb
fork_pcb old pid none cr3 base = record old {
  pid = pid;
  parent_pid = 0;
  state = ready;
  kind = linux_elf64;
  exit_code = 0;
  time_slice = sched_default_quantum;
  total_ticks = 0;
  sleep_until_tick = 0;
  name = fork_child;
  cr3 = cr3;
  kernel_stack_base = base;
  kernel_stack_top = stack_top base old.kernel_stack_top;
}
fork_pcb old pid (some parent) cr3 base = record old {
  pid = pid;
  parent_pid = parent.pid;
  state = ready;
  kind = parent.kind;
  exit_code = 0;
  time_slice = sched_default_quantum;
  total_ticks = 0;
  sleep_until_tick = 0;
  name = take 31 parent.name;
  cr3 = cr3;
  kernel_stack_base = base;
  kernel_stack_top = stack_top base old.kernel_stack_top;
  context = record (parent.context) { rax = 0 };
  user_stack_base = parent.user_stack_base;
  user_stack_top = parent.user_stack_top;
  entry_point = parent.entry_point;
}

-- The running process as `process_fork` reads it, with the new pid if it is in the child's slot.
abbrev forking : Kernel → ℕ → Option Pcb
forking k slot = elim k.current [
  | none ↦ none
  | some c ↦ some (if c == slot then record (pcb_at k c) { pid = k.next_pid } else pcb_at k c)
]

-- A uint32_t read as an int32_t.
abbrev pub to_int32 : ℕ → ℤ
to_int32 w = if ltb w (2 ^ 31) then pos w else negsuc (2 ^ 32 - w - 1)

pub fork_in : Kernel → Option ℕ → ℤ × Kernel
unfolding new_pml4 new_stack fork_pcb vmm_create_user_pml4
fork_in k none = (negsuc 10, k)
fork_in k (some slot) =
    let parent = forking k slot in
    let (cr3, k1) = new_pml4 (record k { next_pid = (k.next_pid + 1) % 2 ^ 32 }) in
    let (base, k2) = new_stack k1 (pcb_at k slot).kernel_stack_base in
    (to_int32 k.next_pid, set_pcb k2 slot (fork_pcb (pcb_at k slot) k.next_pid parent cr3 base))

pub process_fork : Kernel → ℤ × Kernel
process_fork k = fork_in k (free_slot (drop 1 k.table) 1)

abbrev pub eq_ℤ : ℤ → ℤ → Bool
eq_ℤ (pos a) (pos b) = a == b
eq_ℤ (negsuc a) (negsuc b) = a == b
eq_ℤ a b = false

-- An entry that `process_waitpid` of process `cur_pid` for `pid` looks at.
abbrev pub is_child : ℕ → ℤ → Pcb → Bool
is_child cur_pid pid p =
    not (is_unused p.state)
    && ((p.parent_pid == cur_pid || cur_pid == 0)
        && (eq_ℤ pid (negsuc 0) || eq_ℤ (to_int32 p.pid) pid))

-- What one scan of the table finds: a zombie, at its index, or whether there are children.
pub data Found : Type 0 where
  reaped : ℕ → Found
  children : Bool → Found

pub scan_children : List Pcb → ℕ → ℤ → ℕ → Bool → Found
scan_children [] cur_pid pid i seen = children seen
scan_children (p ∷ ps) cur_pid pid i seen =
    let rest = scan_children ps cur_pid pid (i + 1) (is_child cur_pid pid p || seen) in
    if is_child cur_pid pid p && is_zombie p.state then reaped i else rest

-- What the round does with it: the entry is freed, or the loop ends, or it yields.
pub end_round : Kernel → ℕ → Found → Option (ℤ × Option ℕ) × Kernel
end_round k options (reaped i) =
    let p = pcb_at k i in
    (
      some (to_int32 p.pid, some (p.exit_code % 256 * 256)),
      set_pcb k i (record p { state = unused; pid = 0 }),
    )
end_round k options (children seen) =
    if not seen
    then (some (negsuc 9, none), k)
    else if options % 2 == 1
    then (some (pos 0, none), k)
    else (none, sched_yield k)

-- One round of the loop of `process_waitpid`: the result and `*wstatus`, or `none` where it yields and
-- goes round again.
pub wait_round : Kernel → ℤ → ℕ → Option (ℤ × Option ℕ) × Kernel
wait_round k pid options =
    end_round k options (scan_children (drop 1 k.table) (current_pid k) pid 1 false)
