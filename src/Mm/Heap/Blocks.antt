-- ===== src/Mm/Heap/Blocks.antt =====
-- Histories of heap calls: blocks never overlap, whatever is freed in between.
use zwei_os.Base.{
  ℕ, ◌+◌, ◌-◌, ◌%◌, ◌≤◌, ◌<◌, ◌≡◌, refl, inl, inr, Option, none, some, List, [], ◌∷◌, arith,
}
use zwei_os.Mm.Heap.{
  Heap, heap_init, heap_init_size, header_size, footer_size, word, payload_size, kmalloc, kfree,
  copy_bytes, move_block, krealloc,
}
use zwei_os.Mm.Heap.Alloc.{IsValid, IsSane, needed, placed, kmalloc_cases, placed-IsValid}
use zwei_os.Mm.Heap.Release.{kfree-IsValid, dynamic_offset-kfree}

pub data Call : Type 0 where
  malloc : ℕ → Call
  free : Option ℕ → Call
  realloc : Option ℕ → ℕ → Call

-- The sizes asked for are sane.
abbrev pub AreSane : List Call → Type 0
AreSane [] = Unit {0}
AreSane (malloc size ∷ cs) = IsSane size × AreSane cs
AreSane (free p ∷ cs) = AreSane cs
AreSane (realloc p size ∷ cs) = IsSane size × AreSane cs

unfoldable pub step : Heap → Call → Heap
step s (malloc size) = (kmalloc s size).1
step s (free p) = kfree s p
step s (realloc p size) = (krealloc s p size).1

unfoldable pub run : Heap → List Call → Heap
run s [] = s
run s (c ∷ cs) = run (step s c) cs

-- `t` comes after `s`: it is valid, and its blocks end no earlier.
record After (s t : Heap) : Type 0 where
  valid : IsValid t
  grown : s.dynamic_offset ≤ t.dynamic_offset

kmalloc-After : (s : Heap) (size : ℕ) → IsValid s → IsSane size → After s (kmalloc s size).1
unfolding placed
kmalloc-After s size v h = elim (kmalloc_cases s size v h) [
  | inl (e, full) ↦ rw e (record { valid = v; grown = omega arith })
  | inr (e, room) ↦ rw e (record { valid = placed-IsValid s size v room; grown = omega arith })
]

kfree-After : (s : Heap) (p : Option ℕ) → IsValid s → After s (kfree s p)
kfree-After s p v = record {
  valid = kfree-IsValid s p v;
  grown = omega (arith, dynamic_offset-kfree s p);
}

-- Payload bytes do not matter for validity.
copy_bytes-IsValid :
    (s : Heap) (dest src count : ℕ) → IsValid s → IsValid (copy_bytes s dest src count)
copy_bytes-IsValid s dest src count v = record {
  aligned = v.aligned;
  within = v.within;
  blocks = v.blocks;
}

move_block-After :
    (s : Heap) (ptr old size : ℕ) → IsValid s → IsSane size → After s (move_block s ptr old size).1
unfolding move_block placed
move_block-After s ptr old size v h = elim (kmalloc_cases s size v h) [
  | inl (e, full) ↦ ground (arith, e)
  | inr (e, room) ↦
      let p : ℕ = s.dynamic_offset + header_size in
      let w = copy_bytes-IsValid (placed s size) p ptr old (placed-IsValid s size v room) in
      ground (arith, e, kfree-After (copy_bytes (placed s size) p ptr old) (some ptr) w)
]

krealloc-After :
    (s : Heap) (p : Option ℕ) (size : ℕ) → IsValid s → IsSane size → After s (krealloc s p size).1
unfolding krealloc
krealloc-After s none size v h = kmalloc-After s size v h
krealloc-After s (some ptr) size v h = ground (
  arith,
  kfree-After s (some ptr) v,
  move_block-After s ptr (payload_size (s.headers ((ptr + word - header_size) % word))) size v h,
)

run-After : (s : Heap) (cs : List Call) → IsValid s → AreSane cs → After s (run s cs)
unfolding run step
run-After s [] v h = record { valid = v; grown = omega arith }
run-After s (malloc size ∷ cs) v h =
    let a = kmalloc-After s size v h.0 in
    let b = run-After (kmalloc s size).1 cs a.valid h.1 in
    record { valid = b.valid; grown = omega (arith, a.grown, b.grown) }
run-After s (free p ∷ cs) v h =
    let a = kfree-After s p v in
    let b = run-After (kfree s p) cs a.valid h in
    record { valid = b.valid; grown = omega (arith, a.grown, b.grown) }
run-After s (realloc p size ∷ cs) v h =
    let a = krealloc-After s p size v h.0 in
    let b = run-After (krealloc s p size).1 cs a.valid h.1 in
    record { valid = b.valid; grown = omega (arith, a.grown, b.grown) }

pub heap_init-IsValid : IsValid heap_init
unfolding heap_init
heap_init-IsValid = record {
  aligned = refl;
  within = omega arith;
  blocks = λ a m. absurd (omega arith);
}

-- From the initial heap, by any history of requests of sane sizes, frees and reallocations: of two
-- requests that succeed, the payload, with its footer, of the earlier one ends before the header of the
-- later one, whatever happened in between, and the later one lies in the storage.
pub blocks_disjoint :
    (before between : List Call) (size size' p q : ℕ)
    → AreSane before
    → AreSane between
    → IsSane size
    → IsSane size'
    → (kmalloc (run heap_init before) size).0 ≡ some p
    → (kmalloc (run (kmalloc (run heap_init before) size).1 between) size').0 ≡ some q
    → (p + size + footer_size + header_size ≤ q) × (q + size' + footer_size < heap_init_size)
unfolding placed
blocks_disjoint before between size size' p q hb hm h h' first second =
    let s = run heap_init before in
    let a = run-After heap_init before heap_init-IsValid hb in
    let b = kmalloc-After s size a.valid h in
    let t = run (kmalloc s size).1 between in
    let c = run-After (kmalloc s size).1 between b.valid hm in
    elim (kmalloc_cases s size a.valid h) [
      | inl (e, full) ↦ absurd (ground (arith, e, first))
      | inr (e, room) ↦ elim (kmalloc_cases t size' c.valid h') [
        | inl (e', full) ↦ absurd (ground (arith, e', second))
        | inr (e', room') ↦
            let p_at : p ≡ s.dynamic_offset + header_size = ground (arith, e, first) in
            let q_at : q ≡ t.dynamic_offset + header_size = ground (arith, e', second) in
            let ends : (kmalloc s size).1.dynamic_offset ≡ s.dynamic_offset + needed size =
              ground (arith, e) in
            (ground (arith, c.grown), ground arith)
      ]
    ]
