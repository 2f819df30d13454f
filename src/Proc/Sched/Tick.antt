-- ===== src/Proc/Sched/Tick.antt =====
-- `sched_tick`: a process that is switched out gets its registers back.
use zwei_os.Base.{
  some_injective, ℕ, zero, suc, ◌<◌, ◌≡◌, refl, ap, sym, ◌∙◌, ◌≢◌, ◌⊎◌, inl, inr, true, Option,
  none, some, List, [], ◌∷◌, arith, ◌==◌, if◌then◌else◌, length, get_or, set, length-set,
  get_or-set_self, get_or-set_ne, Bool-cases, ℕ_discrete,
}
use zwei_os.Proc.Table.{
  ready, running, is_running, CpuContext, Pcb, unused_pcb, Kernel, pcb_at, set_pcb,
  sched_default_quantum,
}
use zwei_os.Proc.Sched.{switch, switch_to, count_tick, tick_of, sched_tick, sched_pick_next}

switch_to_lem :
    (k : Kernel) (c : ℕ) (o : Option ℕ) (regs : CpuContext)
    → (switch_to k c o regs ≡ (k, regs))
      ⊎ ((n : ℕ) × (n ≢ c) × (switch_to k c o regs ≡ switch k c n regs))
unfolding switch_to
switch_to_lem k c none regs = inl refl
switch_to_lem k c (some n) regs = elim (ℕ_discrete n c) [
  | yes e ↦ inl (ground (arith, e))
  | no ne ↦ inr (n, ne, ground (arith, ne))
]

-- A tick leaves the process running, or switches to another; its time slice alone has changed before.
tick_cases :
    (k : Kernel) (m : ℕ) (regs : CpuContext)
    → k.current ≡ some m
    → (q : Pcb) × (q.context ≡ (pcb_at k m).context)
      × ((sched_tick true k regs ≡ (set_pcb k m q, regs))
          ⊎ ((n : ℕ) × (n ≢ m) × (sched_tick true k regs ≡ switch (set_pcb k m q) m n regs)))
unfolding sched_tick tick_of count_tick
tick_cases k m regs e =
    let p = count_tick (pcb_at k m) in
    let q : Pcb = record p { time_slice = sched_default_quantum } in
    let fresh : Kernel = set_pcb k m q in
    let run : sched_tick true k regs ≡ tick_of k (some m) regs = ap (λ o. tick_of k o regs) e in
    elim (Bool-cases (p.time_slice == 0)) [
      | inr f ↦ (p, refl, inl (run ∙ ground (arith, f)))
      | inl f ↦
          let over : tick_of k (some m) regs ≡ switch_to fresh m (sched_pick_next fresh) regs =
            ground (arith, f) in
          elim (switch_to_lem fresh m (sched_pick_next fresh) regs) [
            | inl s ↦ (q, refl, inl (run ∙ over ∙ s))
            | inr (n, ne, s) ↦ (q, refl, inr (n, ne, run ∙ over ∙ s))
          ]
    ]

context-set :
    (ps : List Pcb) (i j : ℕ) (v : Pcb)
    → v.context ≡ (get_or ps i unused_pcb).context
    → (get_or (set ps i v) j unused_pcb).context ≡ (get_or ps j unused_pcb).context
context-set [] i j v e = refl
context-set (p ∷ ps) zero zero v e = e
context-set (p ∷ ps) zero (suc j) v e = refl
context-set (p ∷ ps) (suc i) zero v e = refl
context-set (p ∷ ps) (suc i) (suc j) v e = context-set ps i j v e

-- A switch from `m` to `n` writes no other context than that of `m`, which it sets to the registers.
context-switch :
    (k : Kernel) (m n c : ℕ) (regs : CpuContext)
    → n ≢ m
    → (m ≢ c → (pcb_at (switch k m n regs).0 c).context ≡ (pcb_at k c).context)
      × (m < length k.table → (pcb_at (switch k m n regs).0 m).context ≡ regs)
unfolding switch
context-switch k m n c regs away =
    let cur = pcb_at k m in
    let stopped : Pcb = record cur {
      context = regs;
      state = if is_running cur.state then ready else cur.state;
    } in
    let started : Pcb = record (pcb_at k n) {
      state = running;
      time_slice = sched_default_quantum;
    } in
    let same =
      ap (λ p. p.context)
        (sym (get_or-set_ne k.table m n stopped unused_pcb (λ e. away (sym e)))) in
    (
      λ ne.
          context-set (set k.table m stopped) n c started same
          ∙ ap (λ p. p.context) (get_or-set_ne k.table m c stopped unused_pcb ne),
      λ h.
          context-set (set k.table m stopped) n m started same
          ∙ ap (λ p. p.context) (get_or-set_self k.table m stopped unused_pcb h),
    )

-- A process that is not running keeps its context over a tick, and has it in the registers if the tick
-- makes it run.
keeps :
    (k : Kernel) (m c : ℕ) (regs : CpuContext)
    → k.current ≡ some m
    → m ≢ c
    → ((pcb_at (sched_tick true k regs).0 c).context ≡ (pcb_at k c).context)
      × ((sched_tick true k regs).0.current ≡ some c
          → (sched_tick true k regs).1 ≡ (pcb_at k c).context)
unfolding switch
keeps k m c regs e ne =
    let (q, same, how) = tick_cases k m regs e in
    let before = context-set k.table m c q same in
    elim how [
      | inl s ↦ (
        ap (λ r. (pcb_at r.0 c).context) s ∙ before,
        λ now. absurd (ne (some_injective (sym e ∙ sym (ap (λ r. r.0.current) s) ∙ now))),
      )
      | inr (n, away, s) ↦ (
        ap (λ r. (pcb_at r.0 c).context) s
            ∙ (context-switch (set_pcb k m q) m n c regs away).0 ne
            ∙ before,
        λ now.
            let at : n ≡ c = some_injective (sym (ap (λ r. r.0.current) s) ∙ now) in
            ap (λ r. r.1) s ∙ ap (λ x. (pcb_at (set_pcb k m q) x).context) at ∙ before,
      )
    ]

-- The process that a tick stops has its registers in its entry.
saves :
    (k : Kernel) (c : ℕ) (regs : CpuContext)
    → k.current ≡ some c
    → c < length k.table
    → (sched_tick true k regs).0.current ≢ some c
    → (pcb_at (sched_tick true k regs).0 c).context ≡ regs
saves k c regs e h gone =
    let (q, same, how) = tick_cases k c regs e in
    elim how [
      | inl s ↦ absurd (gone (ap (λ r. r.0.current) s ∙ e))
      | inr (n, away, s) ↦
          ap (λ r. (pcb_at r.0 c).context) s
          ∙ (context-switch (set_pcb k c q) c n c regs away).1
              (omega (arith, h, length-set k.table c q))
    ]

-- Ticks while another process than `c` runs.
pub data TicksAway (c : ℕ) : Kernel → Kernel → Type 0 where
  none_yet : (k : Kernel) → TicksAway c k k
  and_tick :
      (k k' : Kernel) (m : ℕ) (regs : CpuContext)
      → TicksAway c k k'
      → k'.current ≡ some m
      → m ≢ c
      → TicksAway c k (sched_tick true k' regs).0

context-TicksAway :
    (c : ℕ) (k k' : Kernel) → TicksAway c k k' → (pcb_at k' c).context ≡ (pcb_at k c).context
context-TicksAway c _ _ (none_yet k) = refl
context-TicksAway c _ _ (and_tick k k' m regs t e ne) =
    (keeps k' m c regs e ne).0 ∙ context-TicksAway c k k' t

-- A tick that stops a process and the tick that resumes it, after any number of ticks of others, give it
-- back the registers that it had.
pub sched_tick-resumes :
    (k k' : Kernel) (c m : ℕ) (regs regs' : CpuContext)
    → k.current ≡ some c
    → c < length k.table
    → (sched_tick true k regs).0.current ≢ some c
    → TicksAway c (sched_tick true k regs).0 k'
    → k'.current ≡ some m
    → m ≢ c
    → (sched_tick true k' regs').0.current ≡ some c
    → (sched_tick true k' regs').1 ≡ regs
sched_tick-resumes k k' c m regs regs' e h gone t e' ne back =
    (keeps k' m c regs' e' ne).1 back ∙ context-TicksAway c _ k' t ∙ saves k c regs e h gone
