-- ===== src/Proc/Sched.antt =====
-- kernel/proc/sched.cpp: round-robin scheduling. `g_scheduler_active` is an argument of the tick, and
-- the interrupted registers are its argument and result.
pub mod Listed
pub mod Search
pub mod Rotation
pub mod Shell
pub mod Pick
pub mod Tick
mod Tests
use zwei_os.Base.{
  ℕ, zero, suc, ◌+◌, ◌-◌, ◌%◌, ◌^◌, Bool, true, false, not, ◌&&◌, ◌||◌, Option, none, some, List,
  [], ◌∷◌, ltb, ◌==◌, if◌then◌else◌, length, get_or,
}
use zwei_os.Proc.Table.{
  ProcessState, ready, running, is_ready, is_running, CpuContext, Pcb, unused_pcb, Kernel, pcb_at,
  set_pcb, sched_default_quantum,
}
use zwei_os.Proc.Process.{process_get_by_pid, process_get_all}

-- The place behind the running process in the list.
pub start_after : List Pcb → ℕ → ℕ → ℕ → ℕ
start_after [] pid i total = 0
start_after (p ∷ ps) pid i total =
    let rest = start_after ps pid (i + 1) total in if p.pid == pid then (i + 1) % total else rest

-- Whether the entry that the list's place `idx` names is ready, by the table.
pub candidate : Kernel → List Pcb → ℕ → Option ℕ
candidate k all idx = process_get_by_pid k (get_or all idx unused_pcb).pid

pub ready_candidate : Kernel → Option ℕ → Bool
ready_candidate k none = false
ready_candidate k (some i) = is_ready (pcb_at k i).state

-- The search loop, by the steps that are left.
pub pick_loop : Kernel → List Pcb → ℕ → ℕ → Option ℕ
unfolding candidate ready_candidate
pick_loop k all start_idx zero = none
pick_loop k all start_idx (suc left) =
    let rest = pick_loop k all start_idx left in
    let idx = (start_idx + (length all - suc left)) % length all in
    if ready_candidate k (candidate k all idx) then candidate k all idx else rest

-- The process with pid 0, if it can run.
pub shell_if_runnable : Kernel → Option ℕ → Option ℕ
shell_if_runnable k none = none
shell_if_runnable k (some i) =
    if is_ready (pcb_at k i).state || is_running (pcb_at k i).state then some i else none

or_shell : Kernel → Option ℕ → Option ℕ
unfolding shell_if_runnable
or_shell k none = shell_if_runnable k (process_get_by_pid k 0)
or_shell k (some i) = some i

abbrev pub start_idx : Kernel → ℕ
start_idx k = elim k.current [
  | none ↦ 0
  | some c ↦
      start_after (process_get_all k.table) (pcb_at k c).pid 0 (length (process_get_all k.table))
]

pub sched_pick_next : Kernel → Option ℕ
unfolding or_shell
sched_pick_next k =
    let all = process_get_all k.table in or_shell k (pick_loop k all (start_idx k) (length all))

-- The assignments of one register after the other, to `cur->context` and from `next->context`.
save_registers : CpuContext → CpuContext
save_registers regs = record {
  rax = regs.rax;
  rbx = regs.rbx;
  rcx = regs.rcx;
  rdx = regs.rdx;
  rsi = regs.rsi;
  rdi = regs.rdi;
  rbp = regs.rbp;
  r8 = regs.r8;
  r9 = regs.r9;
  r10 = regs.r10;
  r11 = regs.r11;
  r12 = regs.r12;
  r13 = regs.r13;
  r14 = regs.r14;
  r15 = regs.r15;
  rip = regs.rip;
  cs = regs.cs;
  rflags = regs.rflags;
  rsp = regs.rsp;
  ss = regs.ss;
}

restore_registers : CpuContext → CpuContext
restore_registers context = record {
  rax = context.rax;
  rbx = context.rbx;
  rcx = context.rcx;
  rdx = context.rdx;
  rsi = context.rsi;
  rdi = context.rdi;
  rbp = context.rbp;
  r8 = context.r8;
  r9 = context.r9;
  r10 = context.r10;
  r11 = context.r11;
  r12 = context.r12;
  r13 = context.r13;
  r14 = context.r14;
  r15 = context.r15;
  rip = context.rip;
  cs = context.cs;
  rflags = context.rflags;
  rsp = context.rsp;
  ss = context.ss;
}

-- The switch from entry `c` to entry `n`: the registers are kept in the one and taken from the other.
pub switch : Kernel → ℕ → ℕ → CpuContext → Kernel × CpuContext
unfolding save_registers restore_registers
switch k c n regs =
    let cur = pcb_at k c in
    let next = pcb_at k n in
    let stopped = record cur {
      context = save_registers regs;
      state = if is_running cur.state then ready else cur.state;
    } in
    let k1 = set_pcb k c stopped in
    let k2 = set_pcb k1 n (record next { state = running; time_slice = sched_default_quantum }) in
    (
      record k2 {
        current = some n;
        cr3 = if not (next.cr3 == 0) && not (next.cr3 == cur.cr3) then next.cr3 else k.cr3;
        tss_stack = if not (next.kernel_stack_top == 0) then next.kernel_stack_top else k.tss_stack;
      },
      restore_registers next.context,
    )

-- `next && next != cur`.
switch_to : Kernel → ℕ → Option ℕ → CpuContext → Kernel × CpuContext
unfolding switch
switch_to k c none regs = (k, regs)
switch_to k c (some n) regs = if n == c then (k, regs) else switch k c n regs

-- The running process's tick: one off its time slice.
pub count_tick : Pcb → Pcb
count_tick p = record p {
  total_ticks = (p.total_ticks + 1) % 2 ^ 32;
  time_slice = p.time_slice - 1;
}

tick_of : Kernel → Option ℕ → CpuContext → Kernel × CpuContext
unfolding count_tick switch_to
tick_of k none regs = (k, regs)
tick_of k (some c) regs =
    let p = count_tick (pcb_at k c) in
    let fresh = set_pcb k c (record p { time_slice = sched_default_quantum }) in
    if p.time_slice == 0
    then switch_to fresh c (sched_pick_next fresh) regs
    else (set_pcb k c p, regs)

pub sched_tick : Bool → Kernel → CpuContext → Kernel × CpuContext
unfolding tick_of
sched_tick active k regs = if active then tick_of k k.current regs else (k, regs)

pub sched_switch_to : Kernel → ℕ → Kernel
sched_switch_to k n =
    let next = pcb_at k n in
    record k {
      current = some n;
      cr3 = if not (next.cr3 == 0) then next.cr3 else k.cr3;
      tss_stack = if not (next.kernel_stack_top == 0) then next.kernel_stack_top else k.tss_stack;
    }
