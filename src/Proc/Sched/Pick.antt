-- ===== src/Proc/Sched/Pick.antt =====
-- `sched_pick_next`.
use zwei_os.Base.{
  ℕ, ◌+◌, ◌<◌, ◌%◌, ◌≡◌, ap, sym, subst, ◌∙◌, ◌⊎◌, inl, inr, true, false, Option, some, List, arith,
  length, get_or, Option-cases,
}
use native.Mathlib.Nat.{mod-lt}
use zwei_os.Proc.Table.{is_ready, Pcb, unused_pcb, Kernel, pcb_at, max_processes}
use zwei_os.Proc.Process.{process_get_all}
use zwei_os.Proc.Process.Pids.{HasUniquePids}
use zwei_os.Proc.Sched.{pick_loop, or_shell, start_idx, sched_pick_next}
use zwei_os.Proc.Sched.Search.{at_step, pick_loop-some, found_at, ready_at, none-ready}
use zwei_os.Proc.Sched.Rotation.{in_use, process_get_all_lem, StartsBehind, start_idx-StartsBehind}
use zwei_os.Proc.Sched.Shell.{IsShell, shell_lem}

-- The first READY process in the rotation of a list, or none is READY and it is left to the shell.
abbrev pub IsFirstReady : List Pcb → Kernel → ℕ → Option ℕ → Type 0
IsFirstReady ps k start picked =
    ((i : ℕ) × (step : ℕ) × (i < max_processes)
      × (is_ready (pcb_at k i).state ≡ true)
      × (picked ≡ some i)
      × (step < length ps)
      × (get_or ps ((start + step) % length ps) unused_pcb ≡ pcb_at k i)
      × ((s : ℕ)
          → s < step
          → is_ready (get_or ps ((start + s) % length ps) unused_pcb).state ≡ false))
    ⊎ (((i : ℕ) → i < max_processes → is_ready (pcb_at k i).state ≡ false) × IsShell k picked)

abbrev pub IsRoundRobin : List Pcb → Kernel → Option ℕ → Type 0
IsRoundRobin ps k picked = (start : ℕ) × StartsBehind ps k start × IsFirstReady ps k start picked

picked_first :
    (k : Kernel)
    → HasUniquePids k
    → IsFirstReady (process_get_all k.table) k (start_idx k) (sched_pick_next k)
unfolding sched_pick_next or_shell
picked_first k u =
    let all = process_get_all k.table in
    let n = length all in
    elim (Option-cases (pick_loop k all (start_idx k) n)) [
      | inl e ↦ inr (
        none-ready k u e,
        subst (IsShell k) (sym (ap (or_shell k) e)) (shell_lem k u (none-ready k u e)),
      )
      | inr (i, e) ↦
          let (step, from, to, c, r, before) =
            pick_loop-some k all (start_idx k) n i (omega arith) e in
          let inside : at_step k (start_idx k) step < n =
            mod-lt (start_idx k + step) (omega arith) in
          let (j, l, eq, c') = found_at k (at_step k (start_idx k) step) u inside in
          inl (
            j,
            step,
            l,
            ap (λ p. is_ready p.state) (sym eq)
                ∙ sym (ready_at k (at_step k (start_idx k) step) u inside)
                ∙ r,
            ap (or_shell k) e ∙ sym c ∙ c',
            to,
            eq,
            λ s g.
                sym (
                  ready_at k (at_step k (start_idx k) s) u (mod-lt (start_idx k + s) (omega arith)))
                ∙ before s (omega arith) g,
          )
    ]

-- Among the processes in use, in the order of the table, `sched_pick_next` picks the first READY one in
-- the rotation that starts behind the running one and comes round to it, or at the front if none of
-- them is running. If no process is READY, it picks the one with pid 0 if that is RUNNING, and else
-- none. No two processes have the same pid.
pub sched_pick_next_lem :
    (k : Kernel) → HasUniquePids k → IsRoundRobin (in_use k.table) k (sched_pick_next k)
sched_pick_next_lem k u =
    subst (λ ps. IsRoundRobin ps k (sched_pick_next k)) (process_get_all_lem k.table)
      (start_idx k, start_idx-StartsBehind k, picked_first k u)
