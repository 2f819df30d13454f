-- ===== src/Mm/Heap/Wrap.antt =====
-- Requests near the top of the size_t range: the arithmetic of `kmalloc` wraps.
use zwei_os.Base.{ℕ, ◌+◌, ◌-◌, ◌^◌, ◌≤◌, ◌<◌, ◌≡◌, some, arith}
use zwei_os.Mm.Heap.{
  Heap, heap_init_size, header_size, footer_size, payload_of, total_of, place, kmalloc,
  payload_size,
}
use zwei_os.Mm.Heap.Alloc.{IsValid, kmalloc_unfolded}

wrapped_sizes :
    (size : ℕ) → 2 ^ 64 - 15 ≤ size → size < 2 ^ 64 → (payload_of size ≡ 0) × (total_of size ≡ 48)
unfolding total_of
wrapped_sizes size lo hi = ground arith

-- A request for one of the 15 largest sizes of a size_t is granted while 48 bytes are left: the
-- pointer returned has no payload at all, and the next block begins 16 bytes behind it.
pub kmalloc_wraps :
    (s : Heap) (size : ℕ)
    → IsValid s
    → 2 ^ 64 - 15 ≤ size
    → size < 2 ^ 64
    → s.dynamic_offset + 48 < heap_init_size
    → let (p, t) = kmalloc s size in
      (p ≡ some (s.dynamic_offset + header_size))
      × (payload_size (t.headers s.dynamic_offset) ≡ 0)
      × (t.dynamic_offset ≡ s.dynamic_offset + header_size + footer_size)
unfolding place
kmalloc_wraps s size v lo hi room =
    rw (kmalloc_unfolded s size) (ground (arith, wrapped_sizes size lo hi, v.within))
