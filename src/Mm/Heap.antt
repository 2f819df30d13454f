-- ===== src/Mm/Heap.antt =====
-- kernel/mm/heap.cpp. A pointer into `heap_storage` is its offset there, and null is `none`.
-- `headers` gives the header that the code reads at an offset, and `bytes` the payload: the two
-- stores are apart because blocks are (`Heap.Blocks`). A `size_t` wraps at 2 ^ 64. The footer and the
-- links are written and never read, and are left out.
pub mod Alloc
pub mod Blocks
pub mod Release
pub mod Wrap
mod Tests
use zwei_os.Base.{
  ℕ, ◌+◌, ◌-◌, ◌*◌, ◌/◌, ◌%◌, ◌^◌, Bool, true, false, not, ◌&&◌, Option, none, some, ltb, leb, ◌==◌,
  if◌then◌else◌,
}

abbrev pub heap_init_size : ℕ
heap_init_size = 64 * 1024 * 1024

abbrev pub heap_header_magic : ℕ
heap_header_magic = 0xDEADBEEF

-- `sizeof(heap_header_t)` and `sizeof(heap_footer_t)`, both packed.
abbrev pub header_size : ℕ
header_size = 32

abbrev pub footer_size : ℕ
footer_size = 16

abbrev pub word : ℕ
word = 2 ^ 64

pub record Header : Type 0 where
  pub magic : ℕ
  pub is_allocated : Bool
  pub size : ℕ

pub record Heap : Type 0 where
  pub headers : ℕ → Header
  pub bytes : ℕ → ℕ
  pub dynamic_offset : ℕ
  pub allocated_bytes : ℕ
  pub allocated_blocks : ℕ
  pub free_bytes : ℕ

-- The static initialisers; the storage is zero.
unfoldable pub heap_init : Heap
heap_init = record {
  headers = λ a. record { magic = 0; is_allocated = false; size = 0 };
  bytes = λ a. 0;
  dynamic_offset = 512 * 1024;
  allocated_bytes = 342 * 1024;
  allocated_blocks = 85;
  free_bytes = heap_init_size - 342 * 1024;
}

-- `(n + 15) & ~15`
abbrev pub align_16 : ℕ → ℕ
align_16 n = (n + 15) % word / 16 * 16

-- The payload that a request is rounded up to, and the block with its header and footer.
pub payload_of : ℕ → ℕ
payload_of size = align_16 (if size == 0 then 16 else size)

pub total_of : ℕ → ℕ
unfolding payload_of
total_of size = align_16 ((header_size + payload_of size + footer_size) % word)

abbrev pub write_header : (ℕ → Header) → ℕ → Header → ℕ → Header
write_header hs a h b = if b == a then h else hs b

-- The block at `dynamic_offset`.
pub place : Heap → ℕ → ℕ → Heap
place s size total_size = record s {
  headers =
      write_header s.headers s.dynamic_offset
        (record { magic = heap_header_magic; is_allocated = true; size = total_size });
  dynamic_offset = (s.dynamic_offset + total_size) % word;
  allocated_bytes = (s.allocated_bytes + size) % word;
  allocated_blocks = (s.allocated_blocks + 1) % word;
  free_bytes = if leb total_size s.free_bytes then s.free_bytes - total_size else s.free_bytes;
}

pub kmalloc : Heap → ℕ → Option ℕ × Heap
unfolding place payload_of total_of
kmalloc s size =
    if leb heap_init_size ((s.dynamic_offset + total_of size) % word)
    then (none, s)
    else (some ((s.dynamic_offset + header_size) % word), place s (payload_of size) (total_of size))

-- `hdr->size - sizeof(heap_header_t) - sizeof(heap_footer_t)`
abbrev pub payload_size : Header → ℕ
payload_size h = (h.size + 2 * word - header_size - footer_size) % word

pub kfree : Heap → Option ℕ → Heap
kfree s none = s
kfree s (some ptr) =
    let at = (ptr + word - header_size) % word in
    let hdr = s.headers at in
    if not (hdr.magic == heap_header_magic)
    then s
    else if hdr.is_allocated
    then record s {
      headers = write_header s.headers at (record hdr { is_allocated = false });
      allocated_bytes =
          if leb (payload_size hdr) s.allocated_bytes
          then s.allocated_bytes - payload_size hdr
          else s.allocated_bytes;
      allocated_blocks =
          if ltb 0 s.allocated_blocks then s.allocated_blocks - 1 else s.allocated_blocks;
      free_bytes = (s.free_bytes + hdr.size) % word;
    }
    else s

-- `lib::memcpy(dest, src, count)` between payloads.
abbrev pub copy_bytes : Heap → ℕ → ℕ → ℕ → Heap
copy_bytes s dest src count = record s {
  bytes = λ a. if leb dest a && ltb a (dest + count) then s.bytes (src + (a - dest)) else s.bytes a;
}

-- A block that is too small moves.
move_block : Heap → ℕ → ℕ → ℕ → Option ℕ × Heap
move_block s ptr old_payload new_size =
    let (new_ptr, t) = kmalloc s new_size in
    elim new_ptr [
      | none ↦ (none, t)
      | some p ↦ (some p, kfree (copy_bytes t p ptr old_payload) (some ptr))
    ]

pub krealloc : Heap → Option ℕ → ℕ → Option ℕ × Heap
unfolding move_block
krealloc s none new_size = kmalloc s new_size
krealloc s (some ptr) new_size =
    if new_size == 0
    then (none, kfree s (some ptr))
    else let hdr = s.headers ((ptr + word - header_size) % word) in
      if not (hdr.magic == heap_header_magic)
      then (none, s)
      else if leb new_size (payload_size hdr)
      then (some ptr, s)
      else move_block s ptr (payload_size hdr) new_size

-- Total, used and free bytes, and allocated and free blocks.
pub heap_get_stats : Heap → ℕ × ℕ × ℕ × ℕ × ℕ
heap_get_stats s = (heap_init_size, align_16 s.allocated_bytes, s.free_bytes, s.allocated_blocks, 3)
