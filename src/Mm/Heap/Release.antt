-- ===== src/Mm/Heap/Release.antt =====
-- `kfree` and `krealloc`.
use zwei_os.Base.{
  ℕ, ◌+◌, ◌-◌, ◌%◌, ◌≤◌, ◌<◌, ◌≡◌, refl, ap, ◌∙◌, ◌⊎◌, inl, inr, true, false, Option, none, some,
  arith,
}
use zwei_os.Mm.Heap.{
  heap_init_size, Header, Heap, heap_header_magic, header_size, word, payload_size, kmalloc, kfree,
  copy_bytes, move_block, krealloc,
}
use zwei_os.Mm.Heap.Alloc.{IsValid, IsSane, needed, placed, kmalloc_cases}

pub kfree-IsValid : (s : Heap) (p : Option ℕ) → IsValid s → IsValid (kfree s p)
unfolding kfree
kfree-IsValid s none v = v
kfree-IsValid s (some ptr) v = record {
  aligned = ground (arith, v.aligned);
  within = ground (arith, v.within);
  blocks = λ a m. ground (arith, v.blocks a);
}

pub dynamic_offset-kfree : (s : Heap) (p : Option ℕ) → (kfree s p).dynamic_offset ≡ s.dynamic_offset
unfolding kfree
dynamic_offset-kfree s none = refl
dynamic_offset-kfree s (some ptr) = ground arith

-- Freeing a pointer a second time changes nothing.
pub kfree_twice : (s : Heap) (p : Option ℕ) → kfree (kfree s p) p ≡ kfree s p
unfolding kfree
kfree_twice s none = refl
kfree_twice s (some ptr) = ground arith

-- Freeing what a sane request returned restores the three counters, if their values lie in the
-- range of a size_t, the request does not overflow them, and `free_bytes` covers the block.
pub kfree-kmalloc :
    (s : Heap) (size ptr : ℕ) (t : Heap)
    → IsValid s
    → IsSane size
    → kmalloc s size ≡ (some ptr, t)
    → needed size ≤ s.free_bytes
    → s.free_bytes < word
    → s.allocated_bytes + needed size < word
    → s.allocated_blocks + 1 < word
    → let u = kfree t (some ptr) in
      (u.allocated_bytes ≡ s.allocated_bytes)
      × (u.allocated_blocks ≡ s.allocated_blocks)
      × (u.free_bytes ≡ s.free_bytes)
unfolding kfree placed
kfree-kmalloc s size ptr t v h made fits hf ha hb = elim (kmalloc_cases s size v h) [
  | inl (e, full) ↦ absurd (ground (arith, e))
  | inr (e, room) ↦ ground (arith, e, v.within)
]

-- The header that `krealloc` reads.
abbrev pub header_of : Heap → ℕ → Header
header_of s ptr = s.headers (ptr - header_size)

pub bytes-kfree : (s : Heap) (p : Option ℕ) (a : ℕ) → (kfree s p).bytes a ≡ s.bytes a
unfolding kfree
bytes-kfree s none a = refl
bytes-kfree s (some ptr) a = ground arith

module _ (s : Heap) (ptr size : ℕ) (v : IsValid s) (h : IsSane size) (lo : header_size ≤ ptr)
    (hi : ptr < word) (m : (header_of s ptr).magic ≡ heap_header_magic)
    (small : (header_of s ptr).size - 48 < size) where
  at_header : (ptr + word - header_size) % word ≡ ptr - header_size
  at_header = omega arith

  old_size : payload_size (header_of s ptr) ≡ (header_of s ptr).size - 48
  old_size = ground (arith, v.blocks (ptr - header_size), v.within)

  abbrev copied : Heap
  copied =
      copy_bytes (placed s size) (s.dynamic_offset + header_size) ptr ((header_of s ptr).size - 48)

  krealloc_eq_move :
      krealloc s (some ptr) size ≡ move_block s ptr ((header_of s ptr).size - 48) size
  unfolding krealloc
  krealloc_eq_move = ground (arith, at_header, old_size)

  krealloc-none : kmalloc s size ≡ (none, s) → krealloc s (some ptr) size ≡ (none, s)
  unfolding move_block
  krealloc-none e = ground (arith, krealloc_eq_move, e)

  krealloc-some :
      kmalloc s size ≡ (some (s.dynamic_offset + header_size), placed s size)
      → krealloc s (some ptr) size
        ≡ (some (s.dynamic_offset + header_size), kfree copied (some ptr))
  unfolding move_block
  krealloc-some e = ground (arith, krealloc_eq_move, e)

  freed_old : (header_of (kfree copied (some ptr)) ptr).is_allocated ≡ false
  unfolding kfree placed
  freed_old = ground (arith, at_header, v.blocks (ptr - header_size))

  kept_new :
      (header_of (kfree copied (some ptr)) (s.dynamic_offset + header_size)).is_allocated ≡ true
  unfolding kfree placed
  kept_new = ground (arith, at_header, v.blocks (ptr - header_size))

  moved_bytes :
      (i : ℕ)
      → i < (header_of s ptr).size - 48
      → (kfree copied (some ptr)).bytes (s.dynamic_offset + header_size + i) ≡ s.bytes (ptr + i)
  unfolding placed
  moved_bytes i hi' =
      bytes-kfree copied (some ptr) (s.dynamic_offset + header_size + i)
      ∙ ground (
        arith,
        ap (λ k. s.bytes k)
            {x = ptr + (s.dynamic_offset + header_size + i - (s.dynamic_offset + header_size))}
            {y = ptr + i} (omega arith),
      )

  other_bytes : (a : ℕ) → a < s.dynamic_offset → (kfree copied (some ptr)).bytes a ≡ s.bytes a
  unfolding placed
  other_bytes a h' = bytes-kfree copied (some ptr) a ∙ ground arith

-- In a valid heap, with a size for which no sum wraps, a block whose payload is smaller than the new
-- size: null is returned, and nothing changes, only if the storage behind the last block has no room
-- for the new one. If not, the payload is copied to a block behind all others, no other byte below
-- that block changes, and the old block is freed.
pub krealloc_grow :
    (s : Heap) (ptr size : ℕ)
    → IsValid s
    → IsSane size
    → header_size ≤ ptr
    → ptr < word
    → (header_of s ptr).magic ≡ heap_header_magic
    → (header_of s ptr).size - 48 < size
    → let (p, t) = krealloc s (some ptr) size in
      let old = (header_of s ptr).size - 48 in
      ((p ≡ none) × (t ≡ s) × (heap_init_size ≤ s.dynamic_offset + needed size))
      ⊎ ((new_ptr : ℕ) × (p ≡ some new_ptr)
          × (new_ptr ≡ s.dynamic_offset + header_size)
          × ((i : ℕ) → i < old → t.bytes (new_ptr + i) ≡ s.bytes (ptr + i))
          × ((a : ℕ) → a < s.dynamic_offset → t.bytes a ≡ s.bytes a)
          × ((header_of t ptr).is_allocated ≡ false)
          × ((header_of t new_ptr).is_allocated ≡ true))
krealloc_grow s ptr size v h lo hi m small = elim (kmalloc_cases s size v h) [
  | inl (e, full) ↦
      let k = krealloc-none s ptr size v h lo hi m small e in
      inl (ground (arith, k), ground (arith, k), full)
  | inr (e, room) ↦
      let k = krealloc-some s ptr size v h lo hi m small e in
      inr (
        s.dynamic_offset + header_size,
        ground (arith, k),
        refl,
        λ i hi'. rw k (moved_bytes s ptr size v h lo hi m small i hi'),
        λ a ha. rw k (other_bytes s ptr size v h lo hi m small a ha),
        rw k (freed_old s ptr size v h lo hi m small),
        rw k (kept_new s ptr size v h lo hi m small),
      )
]
