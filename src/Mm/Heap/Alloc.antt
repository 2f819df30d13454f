-- ===== src/Mm/Heap/Alloc.antt =====
-- `kmalloc`: where blocks lie, and the sizes for which the arithmetic wraps.
use zwei_os.Base.{
  ℕ, ◌+◌, ◌-◌, ◌*◌, ◌/◌, ◌%◌, ◌^◌, ◌≤◌, ◌<◌, ◌≡◌, refl, ◌⊎◌, inl, inr, true, none, some, arith, leb,
  ◌==◌, if◌then◌else◌, dec_lt,
}
use zwei_os.Mm.Heap.{
  Heap, heap_init_size, heap_header_magic, header_size, footer_size, word, payload_of, total_of,
  write_header, place, kmalloc,
}

-- Blocks fill the storage up to `dynamic_offset`, in steps of 16 bytes. What carries the magic is a
-- block's header.
pub record IsValid (s : Heap) : Type 0 where
  pub aligned : s.dynamic_offset % 16 ≡ 0
  pub within : s.dynamic_offset < heap_init_size
  pub blocks :
      (a : ℕ)
      → (s.headers a).magic ≡ heap_header_magic
      → (a + (s.headers a).size ≤ s.dynamic_offset) × (48 ≤ (s.headers a).size)

-- Requests for which no sum wraps: all but the last 128 MB of the size_t range.
abbrev pub IsSane : ℕ → Type 0
IsSane size = size ≤ 2 ^ 64 - 2 ^ 27

abbrev pub needed : ℕ → ℕ
needed size = ((if size == 0 then 16 else size) + 15) / 16 * 16 + 48

sizes :
    (size : ℕ) → IsSane size → (total_of size ≡ needed size) × (payload_of size + 48 ≡ needed size)
unfolding total_of
sizes size h = ground arith

-- The state behind a successful request, without its remainders.
unfoldable pub placed : Heap → ℕ → Heap
placed s size = record s {
  headers =
      write_header s.headers s.dynamic_offset
        (record { magic = heap_header_magic; is_allocated = true; size = needed size });
  dynamic_offset = s.dynamic_offset + needed size;
  allocated_bytes = (s.allocated_bytes + (needed size - 48)) % word;
  allocated_blocks = (s.allocated_blocks + 1) % word;
  free_bytes = if leb (needed size) s.free_bytes then s.free_bytes - needed size else s.free_bytes;
}

-- `kmalloc` with the shut helpers.
pub kmalloc_unfolded :
    (s : Heap) (size : ℕ)
    → kmalloc s size ≡ (
        if leb heap_init_size ((s.dynamic_offset + total_of size) % word) then (none, s) else (
          some ((s.dynamic_offset + header_size) % word),
          place s (payload_of size) (total_of size),
        ))
unfolding kmalloc
kmalloc_unfolded s size = refl

pub kmalloc_cases :
    (s : Heap) (size : ℕ)
    → IsValid s
    → IsSane size
    → ((kmalloc s size ≡ (none, s)) × (heap_init_size ≤ s.dynamic_offset + needed size))
      ⊎ ((kmalloc s size ≡ (some (s.dynamic_offset + header_size), placed s size))
          × (s.dynamic_offset + needed size < heap_init_size))
unfolding placed place
kmalloc_cases s size v h =
    rw (kmalloc_unfolded s size) (elim (dec_lt (s.dynamic_offset + needed size) heap_init_size) [
      | yes room ↦ inr (ground (arith, sizes size h, v.within), room)
      | no full ↦ inl (ground (arith, sizes size h, v.within), omega arith)
    ])

pub placed-IsValid :
    (s : Heap) (size : ℕ)
    → IsValid s
    → s.dynamic_offset + needed size < heap_init_size
    → IsValid (placed s size)
unfolding placed
placed-IsValid s size v room = record {
  aligned = ground (arith, v.aligned);
  within = room;
  blocks = λ a m. ground (arith, v.blocks a);
}

-- A sane request fails, and changes nothing, exactly when the storage behind `dynamic_offset` is too
-- small for it. If not, it returns a 16-byte aligned pointer behind the header, all of the payload
-- lies in the block and the block in the storage, and the next block begins behind it.
pub kmalloc_lem :
    (s : Heap) (size : ℕ)
    → IsValid s
    → IsSane size
    → let (p, t) = kmalloc s size in
      ((p ≡ none) × (t ≡ s) × (heap_init_size ≤ s.dynamic_offset + needed size))
      ⊎ ((ptr : ℕ) × (p ≡ some ptr)
          × (ptr ≡ s.dynamic_offset + header_size)
          × (ptr % 16 ≡ 0)
          × (ptr + size + footer_size ≤ t.dynamic_offset)
          × (t.dynamic_offset ≡ s.dynamic_offset + needed size)
          × IsValid t)
unfolding placed
kmalloc_lem s size v h = elim (kmalloc_cases s size v h) [
  | inl (e, full) ↦ inl (ground (arith, e), ground (arith, e), full)
  | inr (e, room) ↦
      let w = placed-IsValid s size v room in
      inr (
        s.dynamic_offset + header_size,
        ground (arith, e),
        refl,
        omega (arith, v.aligned),
        ground (arith, e),
        ground (arith, e),
        rw e w,
      )
]
