-- ===== src/Fs/Ramfs.antt =====
-- kernel/fs/ramfs.cpp, files: what `read` and `write` of a ramfs node do, over the kernel heap that
-- holds their bytes. A pointer is an offset into the heap's storage, and null is `none`.
pub mod Bytes
pub mod Held
pub mod Grow
pub mod Put
pub mod Overwrite
pub mod Read
mod Tests
use zwei_os.Base.{
  ℕ, zero, suc, ◌+◌, ◌-◌, ◌*◌, ◌%◌, ◌^◌, min, Bool, true, false, ◌&&◌, Option, none, some, List, [],
  ◌∷◌, ℤ, pos, negsuc, to_int, leb, ltb, ◌==◌, if◌then◌else◌, get_or,
}
use zwei_os.Mm.Heap.{Heap, word, kmalloc, kfree, copy_bytes}

pub data VNodeType : Type 0 where
  unknown : VNodeType
  file : VNodeType
  directory : VNodeType
  device : VNodeType
  pipe : VNodeType

pub record RamfsFile : Type 0 where
  pub data_at : Option ℕ
  pub capacity : ℕ
  pub size : ℕ

-- A vnode, less its name, its permissions and its operations.
pub record FileNode : Type 0 where
  pub type : VNodeType
  pub size : ℕ
  pub fs_data : Option RamfsFile

-- The bytes that a `memcpy` of `n` bytes from `p` finds.
pub read_bytes : (ℕ → ℕ) → ℕ → ℕ → List ℕ
read_bytes m p zero = []
read_bytes m p (suc n) = m p ∷ read_bytes m (p + 1) n

-- A `memcpy` of `count` bytes of a caller's buffer.
abbrev pub store_bytes : Heap → ℕ → ℕ → List ℕ → Heap
store_bytes s dest count buffer = record s {
  bytes = λ a. if leb dest a && ltb a (dest + count) then get_or buffer (a - dest) 0 else s.bytes a;
}

-- The result, and the bytes that the caller's buffer receives.
pub read_data : Heap → Option ℕ → ℕ → ℕ → ℤ × List ℕ
read_data s none offset to_read = (to_int to_read, [])
read_data s (some p) offset to_read = (to_int to_read, read_bytes s.bytes (p + offset) to_read)

pub ramfs_file_read : Heap → FileNode → ℕ → ℕ → ℤ × List ℕ
unfolding read_data
ramfs_file_read s node offset size = elim node.type [
  | file ↦ elim node.fs_data [
    | none ↦ (pos 0, [])
    | some f ↦
        if leb f.size offset
        then (pos 0, [])
        else read_data s f.data_at offset (min size (f.size - offset))
  ]
  | _ ↦ (negsuc 0, [])
]

-- The new buffer receives what the file holds, and the old one is freed if the file holds anything.
move_data : Heap → RamfsFile → ℕ → Heap
move_data s f new_buf = elim f.data_at [
  | none ↦ s
  | some p ↦ if ltb 0 f.size then kfree (copy_bytes s new_buf p f.size) (some p) else s
]

abbrev pub new_cap : ℕ → ℕ
new_cap required = if ltb required 64 then 64 else required * 2 % word

-- The file with room for `required` bytes, unless the heap has none.
pub grow : Heap → RamfsFile → ℕ → Option RamfsFile × Heap
unfolding move_data
grow s f required =
    if leb required f.capacity
    then (some f, s)
    else let (new_buf, t) = kmalloc s (new_cap required) in
      elim new_buf [
        | none ↦ (none, t)
        | some p ↦
            (some (record f { data_at = some p; capacity = new_cap required }), move_data t f p)
      ]

-- `memcpy(file->data + offset, buffer, size)`; behind null is no storage of the heap.
pub put_buffer : Heap → RamfsFile → ℕ → ℕ → Option (List ℕ) → Heap
put_buffer s f offset size none = s
put_buffer s f offset size (some buffer) = elim f.data_at [
  | none ↦ s
  | some p ↦ if ltb 0 size then store_bytes s ((p + offset) % word) size buffer else s
]

pub extended : FileNode → RamfsFile → ℕ → FileNode
extended node f required =
    if ltb f.size required
    then record node { size = required; fs_data = some (record f { size = required }) }
    else record node { fs_data = some f }

pub write_file : Heap → FileNode → RamfsFile → ℕ → ℕ → Option (List ℕ) → ℤ × FileNode × Heap
unfolding put_buffer extended
write_file s node f offset size buffer =
    let required = (offset + size) % word in
    let (grown, t) = grow s f required in
    elim grown [
      | none ↦ (negsuc 0, node, t)
      | some g ↦ (to_int size, extended node g required, put_buffer t g offset size buffer)
    ]

-- The request for a truncation: no buffer, no bytes, at offset 0.
abbrev is_truncation : ℕ → ℕ → Option (List ℕ) → Bool
is_truncation offset size none = size == 0 && offset == 0
is_truncation offset size (some buffer) = false

-- The result, the node and the heap.
pub ramfs_file_write : Heap → FileNode → ℕ → ℕ → Option (List ℕ) → ℤ × FileNode × Heap
unfolding write_file
ramfs_file_write s node offset size buffer = elim node.type [
  | file ↦ elim node.fs_data [
    | none ↦ (negsuc 0, node, s)
    | some f ↦
        if is_truncation offset size buffer
        then (pos 0, record node { size = 0; fs_data = some (record f { size = 0 }) }, s)
        else write_file s node f offset size buffer
  ]
  | _ ↦ (negsuc 0, node, s)
]
