-- ===== src/Mm/Heap/Tests.antt =====
-- The theorems on the heap at the initial heap and a block in it.
use zwei_os.Base.{
  ℕ, ◌+◌, ◌-◌, ◌%◌, ◌≤◌, ◌<◌, ◌≡◌, refl, ◌⊎◌, true, false, none, some, [], ◌∷◌, arith,
}
use zwei_os.Mm.Heap.{heap_init, heap_init_size, header_size, footer_size, kmalloc, kfree, krealloc}
use zwei_os.Mm.Heap.Alloc.{IsValid, needed, placed, kmalloc_lem, placed-IsValid}
use zwei_os.Mm.Heap.Blocks.{free, run, step, heap_init-IsValid, blocks_disjoint}
use zwei_os.Mm.Heap.Release.{header_of, kfree-kmalloc, krealloc_grow}

-- The first block begins at 512 KB.
first_block : (kmalloc heap_init 100).0 ≡ some 524320
unfolding kmalloc heap_init
first_block = refl

kmalloc_lem_example :
    let (p, t) = kmalloc heap_init 100 in
    ((p ≡ none) × (t ≡ heap_init) × (heap_init_size ≤ heap_init.dynamic_offset + needed 100))
    ⊎ ((ptr : ℕ) × (p ≡ some ptr)
        × (ptr ≡ heap_init.dynamic_offset + header_size)
        × (ptr % 16 ≡ 0)
        × (ptr + 100 + footer_size ≤ t.dynamic_offset)
        × (t.dynamic_offset ≡ heap_init.dynamic_offset + needed 100)
        × IsValid t)
kmalloc_lem_example = kmalloc_lem heap_init 100 heap_init-IsValid (omega arith)

blocks_disjoint_example :
    (524320 + 100 + footer_size + header_size ≤ 524480)
    × (524480 + 8 + footer_size < heap_init_size)
unfolding run step kmalloc kfree heap_init
blocks_disjoint_example =
    blocks_disjoint [] (free (some 524320) ∷ []) 100 8 524320 524480 tt tt (omega arith)
      (omega arith) refl refl

kfree-kmalloc_example :
    let u = kfree (kmalloc heap_init 100).1 (some 524320) in
    (u.allocated_bytes ≡ heap_init.allocated_bytes)
    × (u.allocated_blocks ≡ heap_init.allocated_blocks)
    × (u.free_bytes ≡ heap_init.free_bytes)
unfolding kmalloc heap_init
kfree-kmalloc_example =
    kfree-kmalloc heap_init 100 524320 (kmalloc heap_init 100).1 heap_init-IsValid (omega arith)
      refl (omega arith) (omega arith) (omega arith) (omega arith)

krealloc_grow_example :
    let s = placed heap_init 100 in
    let (p, t) = krealloc s (some 524320) 200 in
    ((p ≡ none) × (t ≡ s) × (heap_init_size ≤ s.dynamic_offset + needed 200))
    ⊎ ((new_ptr : ℕ) × (p ≡ some new_ptr)
        × (new_ptr ≡ s.dynamic_offset + header_size)
        × ((i : ℕ)
            → i < (header_of s 524320).size - 48
            → t.bytes (new_ptr + i) ≡ s.bytes (524320 + i))
        × ((a : ℕ) → a < s.dynamic_offset → t.bytes a ≡ s.bytes a)
        × ((header_of t 524320).is_allocated ≡ false)
        × ((header_of t new_ptr).is_allocated ≡ true))
unfolding placed heap_init
krealloc_grow_example =
    krealloc_grow (placed heap_init 100) 524320 200
      (placed-IsValid heap_init 100 heap_init-IsValid (omega arith)) (omega arith) (omega arith)
      (omega arith) refl (omega arith)
