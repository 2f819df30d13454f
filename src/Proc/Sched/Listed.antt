-- ===== src/Proc/Sched/Listed.antt =====
-- What `process_get_all` lists.
use zwei_os.Base.{
  ℕ, zero, suc, ◌<◌, ◌≡◌, inl, inr, false, List, [], ◌∷◌, arith, length, get_or, Bool-cases,
}
use zwei_os.Proc.Table.{is_unused, Pcb, unused_pcb}
use zwei_os.Proc.Process.{process_get_all}

-- The list has the entries in use, and only those.
pub process_get_all_sound :
    (ps : List Pcb) (q : ℕ)
    → q < length (process_get_all ps)
    → (j : ℕ) × (j < length ps)
      × (is_unused (get_or ps j unused_pcb).state ≡ false)
      × (get_or (process_get_all ps) q unused_pcb ≡ get_or ps j unused_pcb)
unfolding process_get_all
process_get_all_sound [] q h = absurd (omega arith)
process_get_all_sound (p ∷ ps) zero h = elim (Bool-cases (is_unused p.state)) [
  | inl f ↦
      let (j, l, used, eq) = process_get_all_sound ps zero (ground (arith, h, f)) in
      (suc j, omega arith, used, ground (arith, f, eq))
  | inr f ↦ (0, omega arith, f, ground (arith, f))
]
process_get_all_sound (p ∷ ps) (suc q) h = elim (Bool-cases (is_unused p.state)) [
  | inl f ↦
      let (j, l, used, eq) = process_get_all_sound ps (suc q) (ground (arith, h, f)) in
      (suc j, omega arith, used, ground (arith, f, eq))
  | inr f ↦
      let (j, l, used, eq) = process_get_all_sound ps q (ground (arith, h, f)) in
      (suc j, omega arith, used, ground (arith, f, eq))
]

pub process_get_all_complete :
    (ps : List Pcb) (j : ℕ)
    → j < length ps
    → is_unused (get_or ps j unused_pcb).state ≡ false
    → (q : ℕ) × (q < length (process_get_all ps))
      × (get_or (process_get_all ps) q unused_pcb ≡ get_or ps j unused_pcb)
unfolding process_get_all
process_get_all_complete [] j h used = absurd (omega arith)
process_get_all_complete (p ∷ ps) zero h used = (0, ground (arith, used), ground (arith, used))
process_get_all_complete (p ∷ ps) (suc j) h used =
    let (q, l, eq) = process_get_all_complete ps j (omega arith) used in
    elim (Bool-cases (is_unused p.state)) [
      | inl f ↦ (q, ground (arith, f, l), ground (arith, f, eq))
      | inr f ↦ (suc q, ground (arith, f, l), ground (arith, f, eq))
    ]
