-- ===== src/Fs/Fat32/Table.antt =====
-- The table as a function of the cluster, and the loop over its copies.
use zwei_os.Base.{
  ℕ, zero, suc, ◌+◌, ◌*◌, ◌/◌, ◌%◌, ◌^◌, ◌≤◌, ◌<◌, ◌≡◌, refl, ap, sym, subst, ◌∙◌, Bool, true,
  false, ◌||◌, none, some, List, arith, ltb, leb, if◌then◌else◌, length, ne→==,
}
use zwei_os.Net.Bytes.{le32_at}
use zwei_os.Fs.Fat32.{
  Disk, store, read_sector, Fat32Instance, cluster_bad, fat_sector_rel, ent_offset, entry_of,
  get_next_cluster, patched, set_copy, set_loop,
}
use zwei_os.Fs.Fat32.Sector.{length-put32}

-- A volume whose table has room for no more than the clusters of FAT32, and whose sectors have numbers
-- of 32 bits.
pub record IsVolume (fs : Fat32Instance) : Type 0 where
  pub copies : 0 < fs.fat_count
  pub bounded : fs.fat_size_sectors ≤ 2097151
  pub behind : fs.fat_start_lba + fs.fat_count * fs.fat_size_sectors ≤ fs.data_start_lba
  pub room : fs.data_start_lba + fs.fat_size_sectors * 128 * fs.sectors_per_cluster < 2 ^ 32

-- A disk of whole sectors for which the drive does not fail.
pub record IsWhole (d : Disk) : Type 0 where
  pub whole : (l : ℕ) → length (d.sector l) ≡ 512
  pub good : (l : ℕ) → d.is_bad l ≡ false

-- The clusters that the table has entries for.
abbrev pub IsCluster : Fat32Instance → ℕ → Type 0
IsCluster fs c = (2 ≤ c) × (c < fs.fat_size_sectors * 128)

pub IsWhole-store :
    (d : Disk) (lba : ℕ) (bytes : List ℕ)
    → IsWhole d
    → length bytes ≡ 512
    → IsWhole (store d lba bytes)
IsWhole-store d lba bytes w h = record {
  whole = λ l. ground (arith, h, w.whole l);
  good = λ l. w.good l;
}

pub set_copy_lem :
    (d : Disk) (lba c next : ℕ)
    → IsWhole d
    → set_copy d lba c next ≡ (true, store d lba (patched (d.sector lba) c next))
unfolding set_copy
set_copy_lem d lba c next w = ground (arith, w.good lba)

pub length-patched : (bytes : List ℕ) (c next : ℕ) → length (patched bytes c next) ≡ length bytes
unfolding patched
length-patched bytes c next =
    length-put32 bytes (ent_offset c)
      (le32_at bytes (ent_offset c) / 2 ^ 28 * 2 ^ 28 + next % 2 ^ 28)

-- The copies from `f` on.
pub record IsUpdated (fs : Fat32Instance) (p q : ℕ) (d : Disk) (r : Bool × Disk) : Type 0 where
  pub ok : r.0 ≡ true
  pub intact : IsWhole r.1
  pub before : (l : ℕ) → l < p → r.1.sector l ≡ d.sector l
  pub after : (l : ℕ) → q ≤ l → r.1.sector l ≡ d.sector l

times :
    (f left size : ℕ)
    → ((f + suc left) * size ≡ f * size + size + left * size)
      × ((f + 1 + left) * size ≡ f * size + size + left * size)
      × ((f + 1) * size ≡ f * size + size)
times f left size = (grind arith, grind arith, grind arith)

pub set_loop_lem :
    (fs : Fat32Instance) (left f c next : ℕ) (d : Disk)
    → IsWhole d
    → fat_sector_rel c < fs.fat_size_sectors
    → fs.fat_start_lba + (f + left) * fs.fat_size_sectors < 2 ^ 32
    → IsUpdated fs
        (fs.fat_start_lba + f * fs.fat_size_sectors)
        (fs.fat_start_lba + (f + left) * fs.fat_size_sectors)
        d
        (set_loop fs left f c next d)
unfolding set_loop
set_loop_lem fs zero f c next d w h k = record {
  ok = refl;
  intact = w;
  before = λ l b. refl;
  after = λ l b. refl;
}
set_loop_lem fs (suc left) f c next d w h k =
    let size = fs.fat_size_sectors in
    let lba = (fs.fat_start_lba + f * size + fat_sector_rel c) % 2 ^ 32 in
    let t = times f left size in
    let here : lba ≡ fs.fat_start_lba + f * size + fat_sector_rel c = omega (arith, t.0) in
    let d' = store d lba (patched (d.sector lba) c next) in
    let w' =
      IsWhole-store d lba (patched (d.sector lba) c next) w
        (length-patched (d.sector lba) c next ∙ w.whole lba) in
    let rest = set_loop_lem fs left (f + 1) c next d' w' h (omega (arith, t)) in
    let one : set_copy d lba c next ≡ (true, d') = set_copy_lem d lba c next w in
    let e : set_loop fs (suc left) f c next d ≡ set_loop fs left (f + 1) c next d' =
      ap (λ r. if r.0 then set_loop fs left (f + 1) c next r.1 else (false, r.1)) one in
    let all : IsUpdated fs (fs.fat_start_lba + f * size) (fs.fat_start_lba + (f + suc left) * size)
        d (set_loop fs left (f + 1) c next d') =
      record {
        ok = rest.ok;
        intact = rest.intact;
        before = λ l b.
            rest.before l (omega (arith, t))
            ∙ ap (λ t. if t then patched (d.sector lba) c next else d.sector l)
                (ne→== l lba (λ q. absurd (omega (arith, q, here))));
        after = λ l b.
            rest.after l (omega (arith, t))
            ∙ ap (λ t. if t then patched (d.sector lba) c next else d.sector l)
                (ne→== l lba (λ q. absurd (omega (arith, q, here, t))));
      } in
    subst (IsUpdated fs (fs.fat_start_lba + f * size) (fs.fat_start_lba + (f + suc left) * size) d)
      (sym e) all

-- Where a cluster's entry lies.
module _ (fs : Fat32Instance) (v : IsVolume fs) where
  pub table_size : fs.fat_start_lba + fs.fat_size_sectors < 2 ^ 32
  table_size =
      let one : fs.fat_size_sectors ≤ fs.fat_count * fs.fat_size_sectors =
        grind (arith, v.copies) in
      omega (arith, one, v.behind, v.room)

  pub cluster_place :
      (c : ℕ)
      → IsCluster fs c
      → (fat_sector_rel c < fs.fat_size_sectors)
        × ((fs.fat_start_lba + fat_sector_rel c) % 2 ^ 32 ≡ fs.fat_start_lba + fat_sector_rel c)
        × (ent_offset c + 3 < 512)
        × (ent_offset c % 4 ≡ 0)
        × (c ≡ fat_sector_rel c * 128 + ent_offset c / 4)
  cluster_place c h = (
    omega (arith, v.bounded),
    omega (arith, v.bounded, table_size),
    omega arith,
    omega arith,
    omega (arith, v.bounded),
  )

  pub get_next_cluster_lem :
      (d : Disk) (c : ℕ)
      → IsWhole d
      → IsCluster fs c
      → get_next_cluster fs d c
        ≡ le32_at (d.sector (fs.fat_start_lba + fat_sector_rel c)) (ent_offset c) % 2 ^ 28
  unfolding get_next_cluster
  get_next_cluster_lem d c w h =
      let place = cluster_place c h in
      let range : (ltb c 2 || leb cluster_bad c) ≡ false = ground (arith, v.bounded, h) in
      ap
        (λ t.
          if t
          then 0x0ffffff8
          else entry_of (read_sector d ((fs.fat_start_lba + fat_sector_rel c) % 2 ^ 32)) c)
        range
      ∙ ap (λ l. entry_of (read_sector d l) c) place.1
      ∙ ap
          (λ t.
            entry_of (if t then none else some (d.sector (fs.fat_start_lba + fat_sector_rel c))) c)
          (w.good (fs.fat_start_lba + fat_sector_rel c))
