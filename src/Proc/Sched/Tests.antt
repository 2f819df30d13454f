-- ===== src/Proc/Sched/Tests.antt =====
-- The theorems on the scheduler at the sample table.
use zwei_os.Base.{ℕ, zero, suc, ◌+◌, ◌≡◌, refl, true, arith}
use zwei_os.Proc.Table.{CpuContext, zero_context, Kernel}
use zwei_os.Proc.Process.{process_get_by_pid, find_pid, process_get_all}
use zwei_os.Proc.Sched.{
  sched_tick, sched_pick_next, tick_of, count_tick, switch_to, switch, start_after, pick_loop,
  or_shell, candidate, ready_candidate,
}
use zwei_os.Proc.Sched.Rotation.{in_use}
use zwei_os.Proc.Sched.Pick.{IsRoundRobin, sched_pick_next_lem}
use zwei_os.Proc.Sched.Tick.{none_yet, and_tick, sched_tick-resumes}
use zwei_os.Proc.Sample.{three, three-HasUniquePids}

sched_pick_next_lem_example :
    IsRoundRobin (in_use (three 0).table) (three 0) (sched_pick_next (three 0))
sched_pick_next_lem_example = sched_pick_next_lem (three 0) (three-HasUniquePids 0)

abbrev registers : ℕ → CpuContext
registers at = record zero_context { rip = at }

-- The table after `n` ticks, each at its own instruction.
abbrev ticked : ℕ → Kernel
ticked zero = three 0
ticked (suc n) = (sched_tick true (ticked n) (registers (1000 + n))).0

-- The shell is stopped at the first tick, and the worker five ticks later.
sched_tick-resumes_example : (sched_tick true (ticked 5) (registers 1005)).1 ≡ registers 1000
unfolding sched_tick tick_of count_tick switch_to switch sched_pick_next or_shell pick_loop
    candidate ready_candidate start_after process_get_by_pid find_pid process_get_all
sched_tick-resumes_example =
    sched_tick-resumes (three 0) (ticked 5) 0 2 (registers 1000) (registers 1005) refl (omega arith)
      (λ e. cc)
      (and_tick _ _ 2 (registers 1004)
        (and_tick _ _ 2 (registers 1003)
          (and_tick _ _ 2 (registers 1002)
            (and_tick _ _ 2 (registers 1001) (none_yet (ticked 1)) refl (λ e. cc)) refl (λ e. cc))
          refl (λ e. cc))
        refl (λ e. cc))
      refl (λ e. cc) refl
