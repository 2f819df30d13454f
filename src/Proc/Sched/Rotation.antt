-- ===== src/Proc/Sched/Rotation.antt =====
-- Where the search of `sched_pick_next` starts, and the list that it goes through.
use zwei_os.Base.{
  some_injective, ℕ, zero, suc, ◌+◌, ◌<◌, ◌%◌, ◌≡◌, refl, ap, sym, subst, ◌∙◌, ◌≢◌, ◌⊎◌, inl, inr,
  some, List, [], ◌∷◌, ◌++◌, arith, length, get_or, Option-cases, ℕ_discrete, not, ==_iff, ne→==,
  if◌then◌else◌,
}
use zwei_os.Proc.Table.{
  ProcessState, unused, ready, running, blocked, zombie, is_unused, Pcb, unused_pcb, Kernel, pcb_at,
}
use zwei_os.Proc.Process.{process_get_all}
use zwei_os.Proc.Sched.{start_after, start_idx}

-- The processes in use, in the order of the table.
abbrev pub in_use : List Pcb → List Pcb
in_use [] = []
in_use (p ∷ ps) = (elim p.state [ unused ↦ [] | _ ↦ p ∷ [] ]) ++ in_use ps

pub process_get_all_lem : (ps : List Pcb) → process_get_all ps ≡ in_use ps
unfolding process_get_all
process_get_all_lem [] = refl
process_get_all_lem (p ∷ ps) = by_state p (process_get_all_lem ps) p.state
  where
    by_state :
        (p : Pcb) {xs ys : List Pcb} (e : xs ≡ ys) (s : ProcessState)
        → (if not (is_unused s) then p ∷ xs else xs) ≡ (elim s [ unused ↦ [] | _ ↦ p ∷ [] ]) ++ ys
    by_state p e unused = e
    by_state p e ready = ap (λ l. p ∷ l) e
    by_state p e running = ap (λ l. p ∷ l) e
    by_state p e blocked = ap (λ l. p ∷ l) e
    by_state p e zombie = ap (λ l. p ∷ l) e

-- The place of a pid in a list.
abbrev pub IsPlace : List Pcb → ℕ → ℕ → Type 0
IsPlace ps pid place = (place < length ps) × ((get_or ps place unused_pcb).pid ≡ pid)

-- Where the rotation of a list starts: behind the running process, if one is running and in the list,
-- and else at the front.
pub StartsBehind : List Pcb → Kernel → ℕ → Type 0
StartsBehind ps k start =
    ((c : ℕ) × (place : ℕ) × (k.current ≡ some c)
      × IsPlace ps (pcb_at k c).pid place
      × (start ≡ (place + 1) % length ps))
    ⊎ (((c : ℕ) → k.current ≡ some c → (place : ℕ) → ¬ IsPlace ps (pcb_at k c).pid place)
        × (start ≡ 0))

start_after_lem :
    (ps : List Pcb) (pid i total : ℕ)
    → ((place : ℕ) × IsPlace ps pid place × (start_after ps pid i total ≡ (i + place + 1) % total))
      ⊎ (((place : ℕ) → ¬ IsPlace ps pid place) × (start_after ps pid i total ≡ 0))
unfolding start_after
start_after_lem [] pid i total = inr (λ place e. absurd (omega (arith, e.0)), refl)
start_after_lem (p ∷ ps) pid i total = elim (ℕ_discrete p.pid pid) [
  | yes e ↦ inl (
    0,
    (omega arith, e),
    rw ((==_iff p.pid pid).1 e) (ap (λ n. n % total) {x = i + 1} {y = i + 0 + 1} (omega arith)),
  )
  | no ne ↦ elim (start_after_lem ps pid (i + 1) total) [
    | inl (place, (l, e), r) ↦ inl (
      suc place,
      (omega arith, e),
      rw (ne→== p.pid pid ne)
          (r ∙ ap (λ n. n % total) {x = i + 1 + place + 1} {y = i + suc place + 1} (omega arith)),
    )
    | inr (all, r) ↦ inr (nowhere p ps pid ne all, rw (ne→== p.pid pid ne) r)
  ]
]
  where
    nowhere :
        (p : Pcb) (ps : List Pcb) (pid : ℕ)
        → p.pid ≢ pid
        → ((place : ℕ) → ¬ IsPlace ps pid place)
        → (place : ℕ) → ¬ IsPlace (p ∷ ps) pid place
    nowhere p ps pid ne all zero e = ne e.1
    nowhere p ps pid ne all (suc place) e = all place (omega (arith, e.0), e.1)

pub start_idx-StartsBehind : (k : Kernel) → StartsBehind (process_get_all k.table) k (start_idx k)
unfolding StartsBehind
start_idx-StartsBehind k = elim (Option-cases k.current) [
  | inl e ↦ inr (λ c e'. absurd (ground (arith, e, e')), rw e refl)
  | inr (c, e) ↦
      let all = process_get_all k.table in
      let at : start_idx k ≡ start_after all (pcb_at k c).pid 0 (length all) = rw e refl in
      elim (start_after_lem all (pcb_at k c).pid 0 (length all)) [
        | inl (place, w, r) ↦ inl (
          c,
          place,
          e,
          w,
          at ∙ r ∙ ap (λ n. n % length all) {x = 0 + place + 1} {y = place + 1} (omega arith),
        )
        | inr (nowhere, r) ↦ inr (
          λ c' e' place.
              let same : c ≡ c' = some_injective (sym e ∙ e') in
              subst (λ c. ¬ IsPlace all (pcb_at k c).pid place) same (nowhere place),
          at ∙ r,
        )
      ]
]
