-- ===== src/Proc/Sched/Shell.antt =====
-- What `sched_pick_next` falls back to.
use zwei_os.Base.{
  ℕ, ◌<◌, ◌≡◌, refl, ap, sym, ◌∙◌, ◌⊎◌, inl, inr, true, false, Option, none, some, arith,
  Option-cases, Bool-cases,
}
use zwei_os.Proc.Table.{
  ProcessState, unused, ready, running, blocked, zombie, is_ready, is_running, is_unused, Kernel,
  pcb_at, max_processes,
}
use zwei_os.Proc.Process.{process_get_by_pid, find_pid}
use zwei_os.Proc.Process.Pids.{HasUniquePids, find_pid_lem, find_pid-none}
use zwei_os.Proc.Sched.{shell_if_runnable}

running_used : (s : ProcessState) → is_running s ≡ true → is_unused s ≡ false
running_used unused e = cc
running_used ready e = cc
running_used running e = refl
running_used blocked e = cc
running_used zombie e = cc

-- What is picked if no process is READY: the RUNNING one with pid 0, or none.
abbrev pub IsShell : Kernel → Option ℕ → Type 0
IsShell k picked =
    ((i : ℕ) × (i < max_processes)
      × ((pcb_at k i).pid ≡ 0)
      × (is_running (pcb_at k i).state ≡ true)
      × (picked ≡ some i))
    ⊎ (((i : ℕ) → i < max_processes → (pcb_at k i).pid ≡ 0 → is_running (pcb_at k i).state ≡ false)
        × (picked ≡ none))

pub shell_lem :
    (k : Kernel)
    → HasUniquePids k
    → ((i : ℕ) → i < max_processes → is_ready (pcb_at k i).state ≡ false)
    → IsShell k (shell_if_runnable k (process_get_by_pid k 0))
unfolding shell_if_runnable process_get_by_pid
shell_lem k u idle = elim (Option-cases (find_pid k.table 0 0)) [
  | inl e ↦ inr (
    λ i h pid. elim (Bool-cases (is_running (pcb_at k i).state)) [
      | inl r ↦
          absurd (find_pid-none k.table 0 0 e i (omega (arith, u.size, h)) (running_used _ r) pid)
      | inr r ↦ r
    ],
    ap (shell_if_runnable k) e,
  )
  | inr (i, e) ↦
      let (d, at, inside, used, pid) = find_pid_lem k.table 0 0 i e in
      let here : d ≡ i = omega arith in
      let l : i < max_processes = omega (arith, u.size) in
      let pid_i : (pcb_at k i).pid ≡ 0 = ap (λ x. (pcb_at k x).pid) (sym here) ∙ pid in
      elim (Bool-cases (is_running (pcb_at k i).state)) [
        | inl r ↦ inl (i, l, pid_i, r, ap (shell_if_runnable k) e ∙ ground (arith, r))
        | inr r ↦ inr (
          λ j h pid_j. elim (Bool-cases (is_running (pcb_at k j).state)) [
            | inl r' ↦
                let same : d ≡ j = u.distinct d j used (running_used _ r') (pid ∙ sym pid_j) in
                ap (λ x. is_running (pcb_at k x).state) (sym same ∙ here) ∙ r
            | inr r' ↦ r'
          ],
          ap (shell_if_runnable k) e ∙ ground (arith, r, idle i l),
        )
      ]
]
