-- ===== src/Fs/Fat32/Read.antt =====
-- `fat32_vnode_read`: its result, and the bytes that the caller's buffer receives. `none` is a write past
-- the end of `cluster_buf`, which holds 4096 bytes.
pub mod Content
pub mod Slice
use mathlib.Core.Option
use zwei_os.Base.{
  ℕ, zero, suc, ◌+◌, ◌-◌, ◌*◌, ◌/◌, ◌%◌, ◌^◌, ◌<◌, Bool, true, false, not, ◌&&◌, ◌||◌, Option, none,
  some, List, [], ◌∷◌, ◌++◌, min, ltb, leb, ◌==◌, if◌then◌else◌, take, drop, length, ℤ, to_int,
}
use zwei_os.Fs.Fat32.{
  Disk, read_sector, Fat32Instance, cluster_eoc, cluster_to_lba, get_next_cluster,
}

-- The node with its `FatNodeData`.
pub record FatNode : Type 0 where
  pub size : ℕ
  pub first_cluster : ℕ
  pub dir_cluster : ℕ
  pub dir_entry_offset : ℕ
  pub is_directory : Bool

abbrev pub is_data : ℕ → Bool
is_data c = leb 2 c && ltb c cluster_eoc

-- What `cluster_buf` holds when a cluster has been read into it, unless a sector could not be read, or
-- was written past the end of the buffer.
pub data ClusterBuf : Type 0 where
  holding : List ℕ → ClusterBuf
  unreadable : ClusterBuf
  overrun : ClusterBuf

joined : List ℕ → ClusterBuf → ClusterBuf
joined bytes (holding rest) = holding (bytes ++ rest)
joined bytes unreadable = unreadable
joined bytes overrun = overrun

-- `sizeof(cluster_buf)`, in sectors.
abbrev pub cluster_buf_sectors : ℕ
cluster_buf_sectors = 8

-- The sectors that are left, and the room for sectors that the buffer has left.
pub read_cluster : Disk → ℕ → ℕ → ℕ → ClusterBuf
unfolding joined
read_cluster d zero room lba = holding []
read_cluster d (suc left) room lba =
    let rest = joined (d.sector (lba % 2 ^ 32)) (read_cluster d left (room - 1) (lba + 1)) in
    if d.is_bad (lba % 2 ^ 32) then unreadable else if room == 0 then overrun else rest

-- The clusters before the offset; `none` is the return of 0.
pub skip_clusters : Fat32Instance → Disk → ℕ → ℕ → Option ℕ
skip_clusters fs d zero curr = some curr
skip_clusters fs d (suc left) curr =
    let rest = skip_clusters fs d left (get_next_cluster fs d curr) in
    if is_data curr then rest else none

copied : ClusterBuf → ℕ → ℕ → Option (List ℕ) → Option (List ℕ)
copied (holding cluster_buf) cluster_offset to_copy rest =
    Option.map (λ bytes. take to_copy (drop cluster_offset cluster_buf) ++ bytes) rest
copied unreadable cluster_offset to_copy rest = some []
copied overrun cluster_offset to_copy rest = none

-- The loop, on fuel; `left` is `size - bytes_read`. `none` where it writes past the end of its buffer,
-- or still runs when the fuel is out.
pub read_loop : ℕ → Fat32Instance → Disk → ℕ → ℕ → ℕ → Option (List ℕ)
unfolding copied
read_loop zero fs d curr cluster_offset left = if ltb 0 left && is_data curr then none else some []
read_loop (suc fuel) fs d curr cluster_offset left =
    let to_copy = min left (fs.bytes_per_cluster - cluster_offset) in
    let rest = read_loop fuel fs d (get_next_cluster fs d curr) 0 (left - to_copy) in
    let buf = read_cluster d fs.sectors_per_cluster cluster_buf_sectors (cluster_to_lba fs curr) in
    let round = copied buf cluster_offset to_copy rest in
    if ltb 0 left && is_data curr then round else some []

read_from : Fat32Instance → Disk → ℕ → ℕ → Option ℕ → Option (List ℕ)
read_from fs d cluster_offset size none = some []
read_from fs d cluster_offset size (some curr) = read_loop size fs d curr cluster_offset size

-- `static_cast<int>(bytes_read)`, with the bytes.
abbrev pub counted : List ℕ → ℤ × List ℕ
counted bytes = (to_int (length bytes), bytes)

-- `offset + size` is a number of 64 bits, and the index of a cluster one of 32. A size of 0 stands for
-- every null argument too.
pub fat32_vnode_read : Fat32Instance → Disk → FatNode → ℕ → ℕ → Option (ℤ × List ℕ)
unfolding read_from
fat32_vnode_read fs d node offset size =
    let size' =
      if not node.is_directory && ltb node.size ((offset + size) % 2 ^ 64)
      then node.size - offset
      else size in
    if size == 0
    then some (counted [])
    else if not node.is_directory && leb node.size offset
    then some (counted [])
    else Option.map counted (
        read_from fs d (offset % fs.bytes_per_cluster) size'
          (skip_clusters fs d (offset / fs.bytes_per_cluster % 2 ^ 32) node.first_cluster))
