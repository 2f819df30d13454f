-- ===== src/Fs/Fat32.antt =====
-- kernel/fs/fat32.cpp: the file allocation table on the disk. A disk is what `ata_read_sectors` reads of
-- it, sector by sector, with the sectors for which the drive fails.
pub mod Sector
pub mod Names
pub mod Table
pub mod Update
pub mod Clear
pub mod Chain
pub mod Allocate
pub mod Read
pub mod Search
pub mod Free
mod Tests
use zwei_os.Base.{
  ℕ, zero, suc, ◌+◌, ◌-◌, ◌*◌, ◌/◌, ◌%◌, ◌^◌, ◌≤◌, ◌<◌, ◌≡◌, Bool, true, false, not, ◌&&◌, ◌||◌,
  Option, none, some, List, [], ◌∷◌, ltb, leb, ◌==◌, if◌then◌else◌, length, set, replicate,
}
use zwei_os.Net.Bytes.{le32_at}

pub record Disk : Type 0 where
  pub sector : ℕ → List ℕ
  pub is_bad : ℕ → Bool

abbrev pub read_sector : Disk → ℕ → Option (List ℕ)
read_sector d lba = if d.is_bad lba then none else some (d.sector lba)

abbrev pub store : Disk → ℕ → List ℕ → Disk
store d lba bytes = record d { sector = λ l. if l == lba then bytes else d.sector l }

abbrev pub write_sector : Disk → ℕ → List ℕ → Bool × Disk
write_sector d lba bytes = if d.is_bad lba then (false, d) else (true, store d lba bytes)

-- The fields that the operations read.
pub record Fat32Instance : Type 0 where
  pub sectors_per_cluster : ℕ
  pub bytes_per_cluster : ℕ
  pub fat_count : ℕ
  pub fat_size_sectors : ℕ
  pub fat_start_lba : ℕ
  pub data_start_lba : ℕ
  pub root_cluster : ℕ

abbrev pub cluster_free : ℕ
cluster_free = 0

abbrev pub cluster_bad : ℕ
cluster_bad = 0x0ffffff7

abbrev pub cluster_eoc : ℕ
cluster_eoc = 0x0ffffff8

-- `cluster - 2` wraps in 32 bits.
pub cluster_to_lba : Fat32Instance → ℕ → ℕ
cluster_to_lba fs cluster =
    (fs.data_start_lba + (cluster + 2 ^ 32 - 2) % 2 ^ 32 * fs.sectors_per_cluster) % 2 ^ 32

-- A cluster's entry in a copy of the table: its sector within the copy, and its place there.
abbrev pub fat_sector_rel : ℕ → ℕ
fat_sector_rel cluster = cluster * 4 % 2 ^ 32 / 512

abbrev pub ent_offset : ℕ → ℕ
ent_offset cluster = cluster * 4 % 2 ^ 32 % 512

entry_of : Option (List ℕ) → ℕ → ℕ
entry_of none cluster = cluster_bad
entry_of (some sector_buf) cluster = le32_at sector_buf (ent_offset cluster) % 2 ^ 28

pub get_next_cluster : Fat32Instance → Disk → ℕ → ℕ
unfolding entry_of
get_next_cluster fs d cluster =
    if ltb cluster 2 || leb cluster_bad cluster
    then cluster_eoc
    else entry_of (read_sector d ((fs.fat_start_lba + fat_sector_rel cluster) % 2 ^ 32)) cluster

-- `*reinterpret_cast<uint32_t*>(&bytes[i]) = v`
pub put32 : List ℕ → ℕ → ℕ → List ℕ
put32 bytes i v =
    set (set (set (set bytes i (v % 256)) (i + 1) (v / 256 % 256)) (i + 2) (v / 65536 % 256))
      (i + 3) (v / 16777216 % 256)

pub patched : List ℕ → ℕ → ℕ → List ℕ
unfolding put32
patched sector_buf cluster next =
    put32 sector_buf (ent_offset cluster)
      (le32_at sector_buf (ent_offset cluster) / 2 ^ 28 * 2 ^ 28 + next % 2 ^ 28)

-- One copy of the table: it is read, changed and written.
pub set_copy : Disk → ℕ → ℕ → ℕ → Bool × Disk
unfolding patched
set_copy d lba cluster next =
    if d.is_bad lba then (false, d) else write_sector d lba (patched (d.sector lba) cluster next)

-- The loop over the copies that are left, from the copy `f`.
pub set_loop : Fat32Instance → ℕ → ℕ → ℕ → ℕ → Disk → Bool × Disk
unfolding set_copy
set_loop fs zero f cluster next d = (true, d)
set_loop fs (suc left) f cluster next d =
    let (ok, d') =
      set_copy d ((fs.fat_start_lba + f * fs.fat_size_sectors + fat_sector_rel cluster) % 2 ^ 32)
        cluster next in
    let rest = set_loop fs left (f + 1) cluster next d' in if ok then rest else (false, d')

pub set_next_cluster : Fat32Instance → ℕ → ℕ → Disk → Bool × Disk
unfolding set_loop
set_next_cluster fs cluster next d =
    if ltb cluster 2 then (false, d) else set_loop fs fs.fat_count 0 cluster next d

-- The entries of a sector that are left, from the entry `k`; 0 if none is free.
pub find_in_sector : ℕ → ℕ → List ℕ → ℕ → ℕ
find_in_sector zero k sector_buf sec = 0
find_in_sector (suc left) k sector_buf sec =
    let cluster_idx = (sec * 128 + k) % 2 ^ 32 in
    let rest = find_in_sector left (k + 1) sector_buf sec in
    if not (ltb cluster_idx 2) && le32_at sector_buf (k * 4) % 2 ^ 28 == cluster_free
    then cluster_idx
    else rest

-- The sectors of the table that are left, from `sec`; a sector that cannot be read ends the search.
pub find_free : Fat32Instance → Disk → ℕ → ℕ → ℕ
find_free fs d zero sec = 0
find_free fs d (suc left) sec =
    let lba = (fs.fat_start_lba + sec) % 2 ^ 32 in
    let here = find_in_sector 128 0 (d.sector lba) sec in
    let rest = find_free fs d left (sec + 1) in
    if d.is_bad lba then 0 else if here == 0 then rest else here

-- The sectors of a cluster that are left are filled with zeros.
pub clear_loop : ℕ → ℕ → Disk → Disk
clear_loop zero lba d = d
clear_loop (suc left) lba d =
    clear_loop left (lba + 1) (write_sector d (lba % 2 ^ 32) (replicate 512 0)).1

-- 0 is a full disk, or one whose table cannot be read.
pub allocate_cluster : Fat32Instance → ℕ → Disk → ℕ × Disk
allocate_cluster fs prev_cluster d =
    let found = find_free fs d fs.fat_size_sectors 0 in
    let d1 = (set_next_cluster fs found cluster_eoc d).1 in
    let d2 = if leb 2 prev_cluster then (set_next_cluster fs prev_cluster found d1).1 else d1 in
    if found == 0
    then (0, d)
    else (found, clear_loop fs.sectors_per_cluster (cluster_to_lba fs found) d2)

-- The loop, on fuel; `none` where it is still running when the fuel is out.
pub free_cluster_chain : ℕ → Fat32Instance → ℕ → Disk → Option Disk
free_cluster_chain zero fs curr d = if leb 2 curr && ltb curr cluster_eoc then none else some d
free_cluster_chain (suc fuel) fs curr d =
    let rest =
      free_cluster_chain fuel fs (get_next_cluster fs d curr)
        (set_next_cluster fs curr cluster_free d).1 in
    if leb 2 curr && ltb curr cluster_eoc then rest else some d
