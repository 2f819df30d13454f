-- ===== src/Proc/Process/Wait.antt =====
-- One round of `process_waitpid`.
use zwei_os.Base.{
  ℕ, zero, suc, ◌+◌, ◌*◌, ◌<◌, ◌%◌, ◌≡◌, refl, ap, sym, subst, ◌∙◌, ◌⊎◌, inl, inr, Bool, true,
  false, ◌&&◌, ◌||◌, Option, none, some, List, [], ◌∷◌, ℤ, pos, negsuc, arith, ◌==◌, if◌then◌else◌,
  length, get_or, drop, Bool-cases, get_or-drop, length-drop,
}
use zwei_os.Proc.Table.{unused, is_zombie, Pcb, unused_pcb, Kernel, pcb_at, set_pcb, max_processes}
use zwei_os.Proc.Process.{
  is_child, to_int32, scan_children, Found, reaped, children, current_pid, end_round, wait_round,
  sched_yield,
}

-- A zombie that `process_waitpid` of `cur_pid` for `pid` may collect.
abbrev pub is_collectable : ℕ → ℤ → Pcb → Bool
is_collectable cur_pid pid p = is_child cur_pid pid p && is_zombie p.state

every_cons :
    (f : Pcb → Bool) (p : Pcb) (ps : List Pcb) (n : ℕ)
    → f p ≡ false
    → ((j : ℕ) → j < n → f (get_or ps j unused_pcb) ≡ false)
    → (j : ℕ) → j < suc n
    → f (get_or (p ∷ ps) j unused_pcb) ≡ false
every_cons f p ps n head all zero h = head
every_cons f p ps n head all (suc j) h = all j (omega arith)

pub scan_children-reaped :
    (ps : List Pcb) (cur_pid : ℕ) (pid : ℤ) (from i : ℕ) (seen : Bool)
    → scan_children ps cur_pid pid from seen ≡ reaped i
    → (d : ℕ) × (i ≡ d + from)
      × (d < length ps)
      × (is_collectable cur_pid pid (get_or ps d unused_pcb) ≡ true)
      × ((j : ℕ) → j < d → is_collectable cur_pid pid (get_or ps j unused_pcb) ≡ false)
unfolding scan_children
scan_children-reaped [] cur_pid pid from i seen e = cc
scan_children-reaped (p ∷ ps) cur_pid pid from i seen e =
    elim (Bool-cases (is_collectable cur_pid pid p)) [
      | inl f ↦ (0, ground (arith, e, f), omega arith, f, λ j h. absurd (omega arith))
      | inr n ↦
          let (d, at, inside, f, least) =
            scan_children-reaped ps cur_pid pid (from + 1) i (is_child cur_pid pid p || seen)
              (ground (arith, e, n)) in
          (
            suc d,
            omega arith,
            omega arith,
            f,
            every_cons (is_collectable cur_pid pid) p ps d n least,
          )
    ]

scan_children-children :
    (ps : List Pcb) (cur_pid : ℕ) (pid : ℤ) (from : ℕ) (seen b : Bool)
    → scan_children ps cur_pid pid from seen ≡ children b
    → (j : ℕ) → j < length ps
    → is_collectable cur_pid pid (get_or ps j unused_pcb) ≡ false
unfolding scan_children
scan_children-children [] cur_pid pid from seen b e j h = absurd (omega arith)
scan_children-children (p ∷ ps) cur_pid pid from seen b e zero h = ground (arith, e)
scan_children-children (p ∷ ps) cur_pid pid from seen b e (suc j) h =
    scan_children-children ps cur_pid pid (from + 1) (is_child cur_pid pid p || seen) b
      (ground (arith, e)) j (omega arith)

-- The flag says whether a child was seen.
scan_children-seen :
    (ps : List Pcb) (cur_pid : ℕ) (pid : ℤ) (from : ℕ) (seen : Bool)
    → scan_children ps cur_pid pid from seen ≡ children true
    → (seen ≡ true)
      ⊎ ((j : ℕ) × (j < length ps) × (is_child cur_pid pid (get_or ps j unused_pcb) ≡ true))
unfolding scan_children
scan_children-seen [] cur_pid pid from seen e = inl (ground (arith, e))
scan_children-seen (p ∷ ps) cur_pid pid from seen e = elim (Bool-cases (is_child cur_pid pid p)) [
  | inl c ↦ inr (0, omega arith, c)
  | inr c ↦
      elim (scan_children-seen ps cur_pid pid (from + 1) (is_child cur_pid pid p || seen)
        (ground (arith, e))) [
          | inl f ↦ inl (ground (arith, c, f))
          | inr (j, h, f) ↦ inr (suc j, omega arith, f)
        ]
]

scan_children-unseen :
    (ps : List Pcb) (cur_pid : ℕ) (pid : ℤ) (from : ℕ) (seen : Bool)
    → scan_children ps cur_pid pid from seen ≡ children false
    → (seen ≡ false)
      × ((j : ℕ) → j < length ps → is_child cur_pid pid (get_or ps j unused_pcb) ≡ false)
unfolding scan_children
scan_children-unseen [] cur_pid pid from seen e = (ground (arith, e), λ j h. absurd (omega arith))
scan_children-unseen (p ∷ ps) cur_pid pid from seen e =
    let (f, all) =
      scan_children-unseen ps cur_pid pid (from + 1) (is_child cur_pid pid p || seen)
        (ground (arith, e)) in
    (ground (arith, f), every_cons (is_child cur_pid pid) p ps (length ps) (ground (arith, f)) all)

Found-cases :
    (f : Found) → ((i : ℕ) × (f ≡ reaped i)) ⊎ ((f ≡ children false) ⊎ (f ≡ children true))
Found-cases (reaped i) = inl (i, refl)
Found-cases (children false) = inr (inl refl)
Found-cases (children true) = inr (inr refl)

-- What holds of the list behind the first entry holds of the table from entry 1 on.
behind :
    (ps : List Pcb) (f : Pcb → Bool) (n : ℕ)
    → ((j : ℕ) → j < n → f (get_or (drop 1 ps) j unused_pcb) ≡ false)
    → (j : ℕ) → 0 < j
    → j < suc n
    → f (get_or ps j unused_pcb) ≡ false
behind ps f n all zero h l = absurd (omega arith)
behind ps f n all (suc j) h l =
    ap (λ p. f p)
      (ap (λ x. get_or ps x unused_pcb) {x = suc j} {y = 1 + j} (omega arith)
        ∙ sym (get_or-drop 1 ps j unused_pcb))
    ∙ all j (omega arith)

-- The outcomes of a round: a zombie child is collected, there is no such child, or none is a zombie.
abbrev pub WaitOutcome : Kernel → ℤ → ℕ → Option (ℤ × Option ℕ) × Kernel → Type 0
WaitOutcome k pid options result =
    ((i : ℕ) × (0 < i)
      × (i < max_processes)
      × (is_collectable (current_pid k) pid (pcb_at k i) ≡ true)
      × ((j : ℕ) → 0 < j → j < i → is_collectable (current_pid k) pid (pcb_at k j) ≡ false)
      × (result ≡ (
        some (to_int32 (pcb_at k i).pid, some ((pcb_at k i).exit_code % 256 * 256)),
        set_pcb k i (record (pcb_at k i) { state = unused; pid = 0 }),
      )))
    ⊎ (((j : ℕ)
          → 0 < j
          → j < max_processes
          → is_collectable (current_pid k) pid (pcb_at k j) ≡ false)
        × ((((j : ℕ)
                → 0 < j
                → j < max_processes
                → is_child (current_pid k) pid (pcb_at k j) ≡ false)
              × (result ≡ (some (negsuc 9, none), k)))
            ⊎ (((j : ℕ) × (0 < j)
                  × (j < max_processes)
                  × (is_child (current_pid k) pid (pcb_at k j) ≡ true))
                × (result ≡ (
                    if options % 2 == 1 then (some (pos 0, none), k) else (none, sched_yield k))))))

-- `process_waitpid` collects the first zombie child that it asks for: its pid and exit status are
-- returned, and its entry is unused; with no such zombie, it fails if there is no such child, returns 0
-- under WNOHANG, and otherwise yields.
pub wait_round_lem :
    (k : Kernel) (pid : ℤ) (options : ℕ)
    → length k.table ≡ max_processes
    → WaitOutcome k pid options (wait_round k pid options)
unfolding wait_round end_round
wait_round_lem k pid options size =
    let ps = drop 1 k.table in
    let me = current_pid k in
    let n = length-drop 1 k.table in
    let show : (j : ℕ) → get_or ps j unused_pcb ≡ pcb_at k (1 + j) =
      λ j. get_or-drop 1 k.table j unused_pcb in
    elim (Found-cases (scan_children ps me pid 1 false)) [
      | inl (i, e) ↦
          let (d, at, inside, f, least) = scan_children-reaped ps me pid 1 i false e in
          let here : 1 + d ≡ i = omega arith in
          inl (
            i,
            omega arith,
            ground (arith, at, inside, n, size),
            subst (λ x. is_collectable me pid (pcb_at k x) ≡ true) here
                (subst (λ p. is_collectable me pid p ≡ true) (show d) f),
            λ j h l. behind k.table (is_collectable me pid) d least j h (omega arith),
            ap (λ f. end_round k options f) e,
          )
      | inr (inl e) ↦
          let (f, all) = scan_children-unseen ps me pid 1 false e in
          inr (
            λ j h l.
                behind k.table (is_collectable me pid) (length ps)
                  (scan_children-children ps me pid 1 false false e) j h (omega (arith, n, size)),
            inl (
              λ j h l.
                  behind k.table (is_child me pid) (length ps) all j h (omega (arith, n, size)),
              ap (λ f. end_round k options f) e,
            ),
          )
      | inr (inr e) ↦ inr (
        λ j h l.
            behind k.table (is_collectable me pid) (length ps)
              (scan_children-children ps me pid 1 false true e) j h (omega (arith, n, size)),
        elim (scan_children-seen ps me pid 1 false e) [
          | inl f ↦ absurd (ground (arith, f))
          | inr (j, h, f) ↦ inr (
            (
              1 + j,
              omega arith,
              omega (arith, n, size),
              subst (λ p. is_child me pid p ≡ true) (show j) f,
            ),
            ap (λ f. end_round k options f) e,
          )
        ],
      )
    ]
