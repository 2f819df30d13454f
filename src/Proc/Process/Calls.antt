-- ===== src/Proc/Process/Calls.antt =====
-- Every operation on the process table keeps the pids unique.
use zwei_os.Base.{
  ℕ, ◌-◌, ◌<◌, ◌^◌, ◌%◌, ◌≡◌, refl, ap, sym, subst, ◌∙◌, inl, inr, false, some, ℤ, arith, ◌==◌,
  length, get_or, length-set, get_or-set_self, Option-cases, Bool-cases,
}
use zwei_os.Proc.Table.{
  unused, zombie, is_unused, Pcb, unused_pcb, Kernel, pcb_at, set_pcb, max_processes,
  vmm_get_kernel_pml4, vmm_destroy_user_pml4,
}
use zwei_os.Proc.Process.{
  find_pid, process_get_by_pid, end_process, sched_yield, process_exit, process_kill, wait_round,
}
use zwei_os.Proc.Process.Wait.{wait_round_lem}
use zwei_os.Proc.Process.Pids.{HasUniquePids, set_pcb-HasUniquePids, find_pid_lem}

-- The page tables are no matter.
table-vmm_destroy_user_pml4 :
    (k : Kernel) (addr : ℕ)
    → ((vmm_destroy_user_pml4 k addr).table ≡ k.table)
      × ((vmm_destroy_user_pml4 k addr).next_pid ≡ k.next_pid)
      × ((vmm_destroy_user_pml4 k addr).current ≡ k.current)
unfolding vmm_destroy_user_pml4
table-vmm_destroy_user_pml4 k addr = (ground arith, ground arith, ground arith)

congruent :
    (k k' : Kernel)
    → k'.table ≡ k.table
    → k'.next_pid ≡ k.next_pid
    → HasUniquePids k
    → HasUniquePids k'
congruent k k' t n u = record {
  size = ap length t ∙ u.size;
  below = λ a ua. ground (arith, ap (λ l. get_or l a unused_pcb) t, u.below a);
  distinct = λ a b ua ub e.
      ground (
        arith,
        ap (λ l. get_or l a unused_pcb) t,
        ap (λ l. get_or l b unused_pcb) t,
        u.distinct a b,
      );
}

end_process-HasUniquePids :
    (k : Kernel) (i code : ℕ)
    → i < max_processes
    → is_unused (pcb_at k i).state ≡ false
    → HasUniquePids k
    → HasUniquePids (end_process k i code)
unfolding end_process
end_process-HasUniquePids k i code h used u =
    let p = pcb_at k i in
    let dead : Pcb = record p { state = zombie; exit_code = code } in
    let bare : Pcb = record p { state = zombie; exit_code = code; cr3 = vmm_get_kernel_pml4 k } in
    let k' : Kernel = set_pcb k i dead in
    let u' = set_pcb-HasUniquePids k i dead h u (λ _. (used, refl)) in
    let (t, n, same) = table-vmm_destroy_user_pml4 k' p.cr3 in
    let w = congruent k' (vmm_destroy_user_pml4 k' p.cr3) t n u' in
    let x = set_pcb-HasUniquePids (vmm_destroy_user_pml4 k' p.cr3) i bare h w (λ _. ground (
      arith,
      ap (λ l. get_or l i unused_pcb) t,
      u.size,
      get_or-set_self k.table i dead unused_pcb,
    )) in
    ground (arith, u', x)

-- The running process is an entry in use.
abbrev pub RunsInTable : Kernel → Type 0
RunsInTable k =
    (c : ℕ) → k.current ≡ some c → (c < max_processes) × (is_unused (pcb_at k c).state ≡ false)

pub sched_yield-HasUniquePids :
    (k : Kernel) → RunsInTable k → HasUniquePids k → HasUniquePids (sched_yield k)
unfolding sched_yield
sched_yield-HasUniquePids k r u = elim (Option-cases k.current) [
  | inl e ↦ ground (arith, e, u)
  | inr (c, e) ↦
      let p = pcb_at k c in
      let q : Pcb = record p { time_slice = 0 } in
      let w = set_pcb-HasUniquePids k c q (r c e).0 u (λ _. ((r c e).1, refl)) in
      ground (arith, e, w)
]

-- The process that ends stays in its entry, and running.
end_process-set_pcb :
    (k : Kernel) (i code : ℕ)
    → i < length k.table
    → (is_unused (pcb_at (end_process k i code) i).state ≡ false)
      × ((end_process k i code).current ≡ k.current)
unfolding end_process
end_process-set_pcb k i code h =
    let p = pcb_at k i in
    let dead : Pcb = record p { state = zombie; exit_code = code } in
    let bare : Pcb = record p { state = zombie; exit_code = code; cr3 = vmm_get_kernel_pml4 k } in
    let k' : Kernel = vmm_destroy_user_pml4 (set_pcb k i dead) p.cr3 in
    let (t, n, same) = table-vmm_destroy_user_pml4 (set_pcb k i dead) p.cr3 in
    let there = get_or-set_self k.table i dead unused_pcb h in
    let there' =
      get_or-set_self k'.table i bare unused_pcb
        (omega (arith, ap length t, length-set k.table i dead)) in
    (ground (arith, there, there'), ground (arith, same))

pub process_exit-HasUniquePids :
    (k : Kernel) (code : ℕ) → RunsInTable k → HasUniquePids k → HasUniquePids (process_exit k code)
unfolding process_exit
process_exit-HasUniquePids k code r u = elim (Option-cases k.current) [
  | inl e ↦ ground (arith, e, u)
  | inr (c, e) ↦
      let (h, used) = r c e in
      let (used', same) = end_process-set_pcb k c code (omega (arith, u.size)) in
      let r' : RunsInTable (end_process k c code) =
        λ c' e'. ground (arith, e, e', same, h, used') in
      ground (
        arith,
        e,
        sched_yield-HasUniquePids (end_process k c code) r'
            (end_process-HasUniquePids k c code h used u),
      )
]

pub process_kill-HasUniquePids :
    (k : Kernel) (pid : ℕ) → HasUniquePids k → HasUniquePids (process_kill k pid).1
unfolding process_kill process_get_by_pid
process_kill-HasUniquePids k pid u = elim (Option-cases (find_pid k.table pid 0)) [
  | inl e ↦ ground (arith, e, u)
  | inr (i, e) ↦
      let (d, at, inside, used, eq) = find_pid_lem k.table pid 0 i e in
      let here : d ≡ i = omega arith in
      let w =
        end_process-HasUniquePids k i (2 ^ 64 - 9) (ground (arith, at, inside, u.size))
          (subst (λ x. is_unused (pcb_at k x).state ≡ false) here used) u in
      ground (arith, e, u, w)
]

pub wait_round-HasUniquePids :
    (k : Kernel) (pid : ℤ) (options : ℕ)
    → RunsInTable k
    → HasUniquePids k
    → HasUniquePids (wait_round k pid options).1
wait_round-HasUniquePids k pid options r u = elim (wait_round_lem k pid options u.size) [
  | inl (i, some_i, inside, f, least, e) ↦
      subst (λ x. HasUniquePids x) (ap (λ x. x.1) (sym e))
        (set_pcb-HasUniquePids k i (record (pcb_at k i) { state = unused; pid = 0 }) inside u
          (λ used. cc))
  | inr (no_zombie, inl (no_child, e)) ↦ subst (λ x. HasUniquePids x) (ap (λ x. x.1) (sym e)) u
  | inr (no_zombie, inr (child, e)) ↦
      subst (λ x. HasUniquePids x) (ap (λ x. x.1) (sym e))
        (elim (Bool-cases (options % 2 == 1)) [
          | inl h ↦ ground (arith, h, u)
          | inr h ↦ ground (arith, h, sched_yield-HasUniquePids k r u)
        ])
]
