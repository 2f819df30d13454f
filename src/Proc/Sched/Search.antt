-- ===== src/Proc/Sched/Search.antt =====
-- The search loop of `sched_pick_next`.
use zwei_os.Base.{
  ℕ, zero, suc, ◌+◌, ◌-◌, ◌≤◌, ◌<◌, ◌%◌, ◌≡◌, refl, ap, sym, subst, ◌∙◌, ◌≢◌, inl, inr, true, false,
  Option, none, some, List, [], ◌∷◌, arith, length, get_or, Option-cases, Bool-cases, ℕ_discrete,
  dec_lt,
}
use native.Mathlib.Nat.{mod-lt, mod-eq_of_lt, add-mod_right}
use zwei_os.Proc.Table.{
  ProcessState, unused, ready, running, blocked, zombie, is_ready, is_unused, Pcb, unused_pcb,
  Kernel, pcb_at, max_processes,
}
use zwei_os.Proc.Process.{process_get_all}
use zwei_os.Proc.Process.Pids.{HasUniquePids}
use zwei_os.Proc.Process.Lookup.{process_get_by_pid_lem}
use zwei_os.Proc.Sched.{start_after, candidate, ready_candidate, pick_loop, start_idx}
use zwei_os.Proc.Sched.Listed.{process_get_all_sound, process_get_all_complete}

-- The place of the list that the search looks at in a step.
abbrev pub at_step : Kernel → ℕ → ℕ → ℕ
at_step k start step = (start + step) % length (process_get_all k.table)

pub pick_loop-some :
    (k : Kernel) (all : List Pcb) (start left i : ℕ)
    → left ≤ length all
    → pick_loop k all start left ≡ some i
    → (step : ℕ) × (length all - left ≤ step)
      × (step < length all)
      × (candidate k all ((start + step) % length all) ≡ some i)
      × (ready_candidate k (candidate k all ((start + step) % length all)) ≡ true)
      × ((s : ℕ)
          → length all - left ≤ s
          → s < step
          → ready_candidate k (candidate k all ((start + s) % length all)) ≡ false)
unfolding pick_loop
pick_loop-some k all start zero i h e = cc
pick_loop-some k all start (suc left) i h e =
    let now = length all - suc left in
    elim (Bool-cases (ready_candidate k (candidate k all ((start + now) % length all)))) [
      | inl r ↦
          (now, omega arith, omega arith, ground (arith, e, r), r, λ s l g. absurd (omega arith))
      | inr r ↦
          let (step, from, to, c, rc, before) =
            pick_loop-some k all start left i (omega arith) (ground (arith, e, r)) in
          (
            step,
            omega arith,
            to,
            c,
            rc,
            λ s l g. elim (ℕ_discrete s now) [
              | yes eq ↦
                  subst
                    (λ s. ready_candidate k (candidate k all ((start + s) % length all)) ≡ false)
                    (sym eq) r
              | no ne ↦ before s (omega (arith, ne)) g
            ],
          )
    ]

ready_candidate-some : (k : Kernel) (o : Option ℕ) → ready_candidate k o ≡ true → o ≢ none
unfolding ready_candidate
ready_candidate-some k none r = λ e. cc
ready_candidate-some k (some i) r = λ e. cc

pick_loop-none :
    (k : Kernel) (all : List Pcb) (start left s : ℕ)
    → left ≤ length all
    → pick_loop k all start left ≡ none
    → length all - left ≤ s
    → s < length all
    → ready_candidate k (candidate k all ((start + s) % length all)) ≡ false
unfolding pick_loop
pick_loop-none k all start zero s h e l g = absurd (omega arith)
pick_loop-none k all start (suc left) s h e l g =
    let now = length all - suc left in
    elim (Bool-cases (ready_candidate k (candidate k all ((start + now) % length all)))) [
      | inl r ↦ absurd (ready_candidate-some k _ r (ground (arith, e, r)))
      | inr r ↦ elim (ℕ_discrete s now) [
        | yes eq ↦
            subst (λ s. ready_candidate k (candidate k all ((start + s) % length all)) ≡ false)
              (sym eq) r
        | no ne ↦
            pick_loop-none k all start left s (omega arith) (ground (arith, e, r))
              (omega (arith, ne)) g
      ]
    ]

start_after-bound :
    (ps : List Pcb) (pid i total : ℕ) → 0 < total → start_after ps pid i total < total
unfolding start_after
start_after-bound [] pid i total h = h
start_after-bound (p ∷ ps) pid i total h =
    ground (arith, start_after-bound ps pid (i + 1) total h, mod-lt (i + 1) h)

start_idx-bound :
    (k : Kernel)
    → 0 < length (process_get_all k.table)
    → start_idx k < length (process_get_all k.table)
start_idx-bound k h = elim (Option-cases k.current) [
  | inl e ↦ ground (arith, e, h)
  | inr (c, e) ↦ ground (
    arith,
    e,
    start_after-bound (process_get_all k.table) (pcb_at k c).pid 0
        (length (process_get_all k.table)) h,
  )
]

-- Every place is reached in some step.
rotation :
    (start q total : ℕ)
    → start < total
    → q < total
    → (step : ℕ) × (step < total) × ((start + step) % total ≡ q)
rotation start q total s h = elim (dec_lt q start) [
  | yes l ↦ (
    q + total - start,
    omega (arith, l),
    ap (λ x. x % total) {x = start + (q + total - start)} {y = q + total} (omega (arith, l))
        ∙ add-mod_right q total
        ∙ mod-eq_of_lt h,
  )
  | no l ↦ (
    q - start,
    omega (arith, l),
    ap (λ x. x % total) {x = start + (q - start)} {y = q} (omega (arith, l)) ∙ mod-eq_of_lt h,
  )
]

-- The table's entry at a place of the list.
pub found_at :
    (k : Kernel) (q : ℕ)
    → HasUniquePids k
    → q < length (process_get_all k.table)
    → (i : ℕ) × (i < max_processes)
      × (get_or (process_get_all k.table) q unused_pcb ≡ pcb_at k i)
      × (candidate k (process_get_all k.table) q ≡ some i)
unfolding candidate
found_at k q u h =
    let (i, l, used, eq) = process_get_all_sound k.table q h in
    let l' : i < max_processes = omega (arith, u.size) in
    (i, l', eq, (process_get_by_pid_lem k _ u).0 i l' used (ap (λ p. p.pid) (sym eq)))

-- With unique pids the candidate of a place is ready if and only if the list's copy is.
pub ready_at :
    (k : Kernel) (q : ℕ)
    → HasUniquePids k
    → q < length (process_get_all k.table)
    → ready_candidate k (candidate k (process_get_all k.table) q)
      ≡ is_ready (get_or (process_get_all k.table) q unused_pcb).state
unfolding ready_candidate
ready_at k q u h =
    let (i, l, eq, c) = found_at k q u h in
    ap (ready_candidate k) c ∙ ap (λ p. is_ready p.state) (sym eq)

unused_or_ready : (s : ProcessState) → is_unused s ≡ true → is_ready s ≡ false
unused_or_ready unused e = refl
unused_or_ready ready e = cc
unused_or_ready running e = refl
unused_or_ready blocked e = refl
unused_or_ready zombie e = refl

-- A search in vain means that no process is ready.
pub none-ready :
    (k : Kernel)
    → HasUniquePids k
    → pick_loop k (process_get_all k.table) (start_idx k) (length (process_get_all k.table)) ≡ none
    → (i : ℕ) → i < max_processes
    → is_ready (pcb_at k i).state ≡ false
none-ready k u e i h = elim (Bool-cases (is_unused (pcb_at k i).state)) [
  | inl f ↦ unused_or_ready _ f
  | inr f ↦
      let all = process_get_all k.table in
      let (q, l, eq) = process_get_all_complete k.table i (omega (arith, u.size)) f in
      let (step, g, reached) =
        rotation (start_idx k) q (length all) (start_idx-bound k (omega arith)) l in
      ap (λ p. is_ready p.state) (sym eq)
      ∙ sym (ready_at k q u l)
      ∙ ap (λ x. ready_candidate k (candidate k all x)) (sym reached)
      ∙ pick_loop-none k all (start_idx k) (length all) step (omega arith) e (omega arith) g
]
