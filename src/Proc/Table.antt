-- ===== src/Proc/Table.antt =====
-- The data of kernel/proc/process.hpp, with the page table functions of kernel/mm/vmm.cpp that
-- kernel/proc/process.cpp calls. A `PCB*` is an index into the table. The page tables' entries are
-- not modelled: of a page table there is its frame. `exit_code` is its 64 bits, and a name is the
-- text up to its terminator.
use zwei_os.Base.{
  ℕ, Bool, true, false, not, ◌||◌, Option, List, [], ◌==◌, if◌then◌else◌, get_or, set,
}
use zwei_os.Mm.Pmm.{Frames, pmm_alloc_frame, pmm_free_frame}
use zwei_os.Mm.Heap.{Heap}

abbrev pub max_processes : ℕ
max_processes = 32

abbrev pub sched_default_quantum : ℕ
sched_default_quantum = 5

abbrev pub kernel_stack_sz : ℕ
kernel_stack_sz = 16384

pub data ProcessState : Type 0 where
  unused ready running blocked zombie : ProcessState

pub data ProcessType : Type 0 where
  kernel_thread linux_elf64 win32_pe : ProcessType

abbrev pub is_unused : ProcessState → Bool
is_unused unused = true
is_unused other = false

abbrev pub is_ready : ProcessState → Bool
is_ready ready = true
is_ready other = false

abbrev pub is_running : ProcessState → Bool
is_running running = true
is_running other = false

abbrev pub is_zombie : ProcessState → Bool
is_zombie zombie = true
is_zombie other = false

pub record CpuContext : Type 0 where
  pub r15 : ℕ
  pub r14 : ℕ
  pub r13 : ℕ
  pub r12 : ℕ
  pub rbp : ℕ
  pub rbx : ℕ
  pub r11 : ℕ
  pub r10 : ℕ
  pub r9 : ℕ
  pub r8 : ℕ
  pub rax : ℕ
  pub rcx : ℕ
  pub rdx : ℕ
  pub rsi : ℕ
  pub rdi : ℕ
  pub rip : ℕ
  pub cs : ℕ
  pub rflags : ℕ
  pub rsp : ℕ
  pub ss : ℕ

pub record Pcb : Type 0 where
  pub pid : ℕ
  pub name : List ℕ
  pub state : ProcessState
  pub kind : ProcessType
  pub parent_pid : ℕ
  pub exit_code : ℕ
  pub cr3 : ℕ
  pub kernel_stack_base : ℕ
  pub kernel_stack_top : ℕ
  pub user_stack_base : ℕ
  pub user_stack_top : ℕ
  pub entry_point : ℕ
  pub sleep_until_tick : ℕ
  pub time_slice : ℕ
  pub total_ticks : ℕ
  pub context : CpuContext

abbrev pub zero_context : CpuContext
zero_context = record {
  rax = 0;
  rbx = 0;
  rcx = 0;
  rdx = 0;
  rsi = 0;
  rdi = 0;
  rbp = 0;
  r8 = 0;
  r9 = 0;
  r10 = 0;
  r11 = 0;
  r12 = 0;
  r13 = 0;
  r14 = 0;
  r15 = 0;
  rip = 0;
  cs = 0;
  rflags = 0;
  rsp = 0;
  ss = 0;
}

-- An entry as `process_init` leaves it.
abbrev pub unused_pcb : Pcb
unused_pcb = record {
  pid = 0;
  name = [];
  state = unused;
  kind = kernel_thread;
  parent_pid = 0;
  exit_code = 0;
  cr3 = 0;
  kernel_stack_base = 0;
  kernel_stack_top = 0;
  user_stack_base = 0;
  user_stack_top = 0;
  entry_point = 0;
  sleep_until_tick = 0;
  time_slice = sched_default_quantum;
  total_ticks = 0;
  context = zero_context;
}

-- The tables of this part, of the allocators below it, and the registers that it reads and writes:
-- the loaded page table and the stack of the TSS. `static_pml4` is the address of `kernel_pml4`, and
-- `heap_base` that of the heap's storage.
pub record Kernel : Type 0 where
  pub table : List Pcb
  pub current : Option ℕ
  pub next_pid : ℕ
  pub frames : Frames
  pub heap : Heap
  pub cr3 : ℕ
  pub static_pml4 : ℕ
  pub heap_base : ℕ
  pub tss_stack : ℕ

abbrev pub pcb_at : Kernel → ℕ → Pcb
pcb_at k i = get_or k.table i unused_pcb

abbrev pub set_pcb : Kernel → ℕ → Pcb → Kernel
set_pcb k i p = record k { table = set k.table i p }

abbrev pub vmm_get_kernel_pml4 : Kernel → ℕ
vmm_get_kernel_pml4 k = if not (k.cr3 == 0) then k.cr3 else k.static_pml4

unfoldable pub vmm_create_user_pml4 : Kernel → ℕ × Kernel
vmm_create_user_pml4 k =
    let (addr, frames) = pmm_alloc_frame k.frames in (addr, record k { frames = frames })

unfoldable pub vmm_destroy_user_pml4 : Kernel → ℕ → Kernel
vmm_destroy_user_pml4 k pml4_phys =
    if pml4_phys == 0 || pml4_phys == vmm_get_kernel_pml4 k
    then k
    else record k { frames = pmm_free_frame k.frames pml4_phys }
