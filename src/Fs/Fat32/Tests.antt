-- ===== src/Fs/Fat32/Tests.antt =====
-- A small volume: its table in sectors 1 and 2, and a file of the clusters 2 and 3.
use zwei_os.Base.{
  ℕ, ◌-◌, ◌≡◌, ◌≢◌, refl, ap, ◌∙◌, ◌⊎◌, inl, inr, some, to_int, Bool, true, false, ◌&&◌, ◌||◌, List,
  [], ◌∷◌, ◌++◌, min, arith, ltb, leb, ◌==◌, if◌then◌else◌, length, length-replicate, take, drop,
  replicate, Bool-cases, all_below, all_below_sound,
}
use zwei_os.Fs.Fat32.{
  Disk, Fat32Instance, get_next_cluster, put32, allocate_cluster, free_cluster_chain,
}
use zwei_os.Fs.Fat32.Sector.{length-put32}
use zwei_os.Fs.Fat32.Table.{IsVolume, IsWhole, IsCluster}
use zwei_os.Fs.Fat32.Chain.{IsClosed, IsLink, free_cluster_chain_ends}
use zwei_os.Fs.Fat32.Free.{IsChain, IsFreed, free_cluster_chain_lem}
use zwei_os.Fs.Fat32.Allocate.{IsAllocated, allocate_cluster_lem}
use zwei_os.Fs.Fat32.Names.{format_8_3_name, create_8_3_name, with_dot}
use zwei_os.Fs.Fat32.Names.Short.{format_8_3_name-create_8_3_name}
use zwei_os.Fs.Fat32.Read.{FatNode, fat32_vnode_read}
use zwei_os.Fs.Fat32.Read.Content.{content, HasClusters}
use zwei_os.Fs.Fat32.Read.Slice.{fat32_vnode_read_lem}

abbrev volume : Fat32Instance
volume = record {
  sectors_per_cluster = 1;
  bytes_per_cluster = 512;
  fat_count = 2;
  fat_size_sectors = 1;
  fat_start_lba = 1;
  data_start_lba = 3;
  root_cluster = 2;
}

volume-IsVolume : IsVolume volume
volume-IsVolume = record {
  copies = omega arith;
  bounded = omega arith;
  behind = omega arith;
  room = omega arith;
}

volume-HasClusters : HasClusters volume
volume-HasClusters = record { some_sectors = omega arith; few_sectors = omega arith; bytes = refl }

table : List ℕ
table = put32 (put32 (replicate 512 0) 8 3) 12 0x0fffffff

length-table : length table ≡ 512
unfolding table
length-table =
    length-put32 (put32 (replicate 512 0) 8 3) 12 0x0fffffff
    ∙ length-put32 (replicate 512 0) 8 3
    ∙ length-replicate {A = ℕ} 512 0

disk : Disk
disk = record {
  sector = λ l. if l == 1 || l == 2 then table else replicate 512 l;
  is_bad = λ l. false;
}

disk-IsWhole : IsWhole disk
unfolding disk
disk-IsWhole = record {
  whole = λ l. elim (Bool-cases (l == 1 || l == 2)) [
    | inl t ↦ ap (λ t. length (if t then table else replicate 512 l)) t ∙ length-table
    | inr n ↦
        ap (λ t. length (if t then table else replicate 512 l)) n ∙ length-replicate {A = ℕ} 512 l
  ];
  good = λ l. refl;
}

links : (get_next_cluster volume disk 2 ≡ 3) × (get_next_cluster volume disk 3 ≡ 0x0fffffff)
unfolding get_next_cluster disk table put32
links = (refl, refl)

file-IsChain : IsChain volume disk 2 (2 ∷ 3 ∷ [])
file-IsChain = (
  refl,
  (omega arith, omega arith),
  (links.0, (omega arith, omega arith), inr (omega (arith, links.1))),
)

is_link : ℕ → Bool
is_link next = ltb next 2 || (leb 2 next && ltb next 128 || leb 0x0ffffff8 next)

all_links : all_below 128 (λ c. ltb c 2 || is_link (get_next_cluster volume disk c)) ≡ true
unfolding all_below is_link get_next_cluster disk table put32
all_links = refl

disk-IsClosed : IsClosed volume disk
unfolding is_link
disk-IsClosed c h =
    let e =
      all_below_sound 128 (λ c. ltb c 2 || is_link (get_next_cluster volume disk c)) c all_links
        h.1 in
    link (get_next_cluster volume disk c) (ground (arith, e, h))
  where
    link :
        (n : ℕ) → (ltb n 2 || (leb 2 n && ltb n 128 || leb 0x0ffffff8 n)) ≡ true → IsLink volume n
    link n e = ground (arith, e)

free_cluster_chain_ends_example : (d' : Disk) × (free_cluster_chain 129 volume 2 disk ≡ some d')
free_cluster_chain_ends_example =
    free_cluster_chain_ends volume 2 disk volume-IsVolume disk-IsWhole disk-IsClosed
      (inr (inl (omega arith)))

free_cluster_chain_lem_example :
    (d' : Disk) × (free_cluster_chain 2 volume 2 disk ≡ some d')
    × IsFreed volume (2 ∷ 3 ∷ []) disk d'
free_cluster_chain_lem_example =
    free_cluster_chain_lem volume 2 2 disk (2 ∷ 3 ∷ []) volume-IsVolume disk-IsWhole file-IsChain
      (refl, (refl, tt)) (omega arith)

allocate_cluster_lem_example :
    ((allocate_cluster volume 3 disk ≡ (0, disk))
      × ((c : ℕ) → IsCluster volume c → get_next_cluster volume disk c ≢ 0))
    ⊎ IsAllocated volume 3
        (allocate_cluster volume 3 disk).0
        disk
        (allocate_cluster volume 3 disk).1
allocate_cluster_lem_example =
    allocate_cluster_lem volume 3 disk volume-IsVolume disk-IsWhole (inr (omega arith))

-- "kernel" and "elf"
format_8_3_name-create_8_3_name_example :
    let name = 107 ∷ 101 ∷ 114 ∷ 110 ∷ 101 ∷ 108 ∷ [] ++ with_dot (101 ∷ 108 ∷ 102 ∷ []) in
    (length (create_8_3_name name) ≡ 11) × (format_8_3_name (create_8_3_name name) 64 ≡ name)
format_8_3_name-create_8_3_name_example =
    format_8_3_name-create_8_3_name (107 ∷ 101 ∷ 114 ∷ 110 ∷ 101 ∷ 108 ∷ []) (101 ∷ 108 ∷ 102 ∷ [])
      (ground arith) (ground arith) (omega arith) (omega arith)

abbrev file : FatNode
file = record {
  size = 600;
  first_cluster = 2;
  dir_cluster = 0;
  dir_entry_offset = 0;
  is_directory = false;
}

fat32_vnode_read_lem_example :
    let bytes = take (min 1000 (600 - 500)) (drop 500 (content volume disk (2 ∷ 3 ∷ []))) in
    fat32_vnode_read volume disk file 500 1000 ≡ some (to_int (length bytes), bytes)
fat32_vnode_read_lem_example =
    fat32_vnode_read_lem volume disk file (2 ∷ 3 ∷ []) 500 1000 volume-IsVolume volume-HasClusters
      disk-IsWhole file-IsChain (omega arith) (omega arith)
