-- ===== src/Proc/Process/Lookup.antt =====
-- `process_get_by_pid` and `process_kill`.
use zwei_os.Base.{
  ℕ, ◌-◌, ◌<◌, ◌^◌, ◌≡◌, refl, ap, sym, subst, ◌∙◌, ◌≢◌, inl, inr, true, false, ◌||◌, none, some,
  arith, ◌==◌, if◌then◌else◌, length, set, length-set, get_or-set_self, get_or-set_ne, Option-cases,
  Bool-cases,
}
use zwei_os.Proc.Table.{
  zombie, is_unused, Pcb, unused_pcb, Kernel, pcb_at, set_pcb, max_processes, vmm_get_kernel_pml4,
  vmm_destroy_user_pml4,
}
use zwei_os.Mm.Pmm.{pmm_free_frame}
use zwei_os.Proc.Process.{find_pid, process_get_by_pid, end_process, process_kill}
use zwei_os.Proc.Process.Pids.{HasUniquePids, find_pid_lem, find_pid-none}

-- With unique pids, `process_get_by_pid` finds an entry in use by its pid, whatever the order of the
-- table, and finds nothing for a pid that no entry in use has.
pub process_get_by_pid_lem :
    (k : Kernel) (pid : ℕ)
    → HasUniquePids k
    → ((i : ℕ)
        → i < max_processes
        → is_unused (pcb_at k i).state ≡ false
        → (pcb_at k i).pid ≡ pid
        → process_get_by_pid k pid ≡ some i)
      × (((i : ℕ)
            → i < max_processes
            → is_unused (pcb_at k i).state ≡ false
            → (pcb_at k i).pid ≢ pid)
          → process_get_by_pid k pid ≡ none)
unfolding process_get_by_pid
process_get_by_pid_lem k pid u = elim (Option-cases (find_pid k.table pid 0)) [
  | inl e ↦ (
    λ i h used eq. absurd (find_pid-none k.table pid 0 e i (omega (arith, u.size)) used eq),
    λ all. e,
  )
  | inr (i, e) ↦
      let (d, at, inside, used, eq) = find_pid_lem k.table pid 0 i e in
      let here : d ≡ i = omega arith in
      (
        λ j h used' eq'. e ∙ ap (λ x. some x) (sym here ∙ u.distinct d j used used' (eq ∙ sym eq')),
        λ all. absurd (all d (omega (arith, u.size)) used eq),
      )
]

-- What the end of a process does to the entries and the frames.
abbrev pub Ended : Kernel → ℕ → ℕ → Kernel → Type 0
Ended k i code k' =
    ((pcb_at k' i).state ≡ zombie)
    × ((pcb_at k' i).exit_code ≡ code)
    × ((pcb_at k' i).pid ≡ (pcb_at k i).pid)
    × ((pcb_at k' i).parent_pid ≡ (pcb_at k i).parent_pid)
    × ((j : ℕ) → j ≢ i → pcb_at k' j ≡ pcb_at k j)
    × (k'.frames ≡ (
        if (pcb_at k i).cr3 == 0 || (pcb_at k i).cr3 == vmm_get_kernel_pml4 k
        then k.frames
        else pmm_free_frame k.frames (pcb_at k i).cr3))

pub end_process_lem :
    (k : Kernel) (i code : ℕ) → i < length k.table → Ended k i code (end_process k i code)
unfolding end_process vmm_destroy_user_pml4
end_process_lem k i code h =
    let p = pcb_at k i in
    let dead : Pcb = record p { state = zombie; exit_code = code } in
    let bare : Pcb = record p { state = zombie; exit_code = code; cr3 = vmm_get_kernel_pml4 k } in
    let h' : i < length (set k.table i dead) = omega (arith, h, length-set k.table i dead) in
    let freed : Kernel = record k {
      table = set (set k.table i dead) i bare;
      frames = pmm_free_frame k.frames p.cr3;
    } in
    elim (Bool-cases (p.cr3 == 0 || p.cr3 == vmm_get_kernel_pml4 k)) [
      | inl c ↦
          let eq : end_process k i code ≡ set_pcb k i dead = ground (arith, c) in
          let x = get_or-set_self k.table i dead unused_pcb h in
          subst (Ended k i code) (sym eq) (
            ap (λ p. p.state) x,
            ap (λ p. p.exit_code) x,
            ap (λ p. p.pid) x,
            ap (λ p. p.parent_pid) x,
            λ j n. get_or-set_ne k.table i j dead unused_pcb (λ e. n (sym e)),
            ground (arith, c),
          )
      | inr c ↦
          let eq : end_process k i code ≡ freed = ground (arith, c) in
          let x = get_or-set_self (set k.table i dead) i bare unused_pcb h' in
          subst (Ended k i code) (sym eq) (
            ap (λ p. p.state) x,
            ap (λ p. p.exit_code) x,
            ap (λ p. p.pid) x,
            ap (λ p. p.parent_pid) x,
            λ j n.
                get_or-set_ne (set k.table i dead) i j bare unused_pcb (λ e. n (sym e))
                ∙ get_or-set_ne k.table i j dead unused_pcb (λ e. n (sym e)),
            ground (arith, c),
          )
    ]

-- `process_kill` of a process other than 0 makes that one a zombie with status -9 and leaves every other
-- entry as it was; its page table is freed if and only if it is not 0 and not the loaded one.
pub process_kill_lem :
    (k : Kernel) (i : ℕ)
    → HasUniquePids k
    → 0 < (pcb_at k i).pid
    → i < max_processes
    → is_unused (pcb_at k i).state ≡ false
    → ((process_kill k (pcb_at k i).pid).0 ≡ true)
      × Ended k i (2 ^ 64 - 9) (process_kill k (pcb_at k i).pid).1
unfolding process_kill
process_kill_lem k i u some_pid h used =
    let e = (process_get_by_pid_lem k (pcb_at k i).pid u).0 i h used refl in
    let killed : process_kill k (pcb_at k i).pid ≡ (true, end_process k i (2 ^ 64 - 9)) =
      ground (arith, e) in
    subst (λ r. (r.0 ≡ true) × Ended k i (2 ^ 64 - 9) r.1) (sym killed)
      (refl, end_process_lem k i (2 ^ 64 - 9) (omega (arith, u.size)))

-- A pid that no entry in use has, and pid 0, change nothing.
pub process_kill-false :
    (k : Kernel) (pid : ℕ)
    → HasUniquePids k
    → ((i : ℕ)
        → 0 < pid
        → i < max_processes
        → is_unused (pcb_at k i).state ≡ false
        → (pcb_at k i).pid ≢ pid)
    → process_kill k pid ≡ (false, k)
unfolding process_kill
process_kill-false k pid u all = elim (Bool-cases (pid == 0)) [
  | inl z ↦ ground (arith, z)
  | inr n ↦
      ground (arith, n, (process_get_by_pid_lem k pid u).1 (λ i h. all i (ground (arith, n)) h))
]
