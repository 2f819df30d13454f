-- ===== src/Fs/Fat32/Allocate.antt =====
-- `fat32_allocate_cluster`.
use zwei_os.Base.{
  ℕ, ◌+◌, ◌*◌, ◌%◌, ◌^◌, ◌≤◌, ◌<◌, ◌≡◌, ◌≢◌, ap, sym, subst, ◌∙◌, ◌⊎◌, inl, inr, true, false, ◌&&◌,
  arith, leb, ◌==◌, if◌then◌else◌, replicate,
}
use zwei_os.Net.Bytes.{le32_at}
use zwei_os.Fs.Fat32.{
  Disk, Fat32Instance, cluster_eoc, fat_sector_rel, ent_offset, cluster_to_lba, get_next_cluster,
  set_next_cluster, find_free, clear_loop, allocate_cluster,
}
use zwei_os.Fs.Fat32.Table.{IsVolume, IsWhole, IsCluster, cluster_place, get_next_cluster_lem}
use zwei_os.Fs.Fat32.Update.{set_next_cluster_lem}
use zwei_os.Fs.Fat32.Clear.{clear_loop_lem, cluster_sectors}
use zwei_os.Fs.Fat32.Search.{find_free_lem}

-- The table lies below the data.
get_next_cluster-data :
    (fs : Fat32Instance) (d d' : Disk) (c : ℕ)
    → IsVolume fs
    → IsWhole d
    → IsWhole d'
    → ((l : ℕ) → l < fs.data_start_lba → d'.sector l ≡ d.sector l)
    → IsCluster fs c
    → get_next_cluster fs d' c ≡ get_next_cluster fs d c
get_next_cluster-data fs d d' c v w w' same h =
    let place = cluster_place fs v c h in
    let one : fs.fat_size_sectors ≤ fs.fat_count * fs.fat_size_sectors = grind (arith, v.copies) in
    let l = fs.fat_start_lba + fat_sector_rel c in
    get_next_cluster_lem fs v d' c w' h
    ∙ ap (λ b. le32_at b (ent_offset c) % 2 ^ 28) (same l (omega (arith, place.0, one, v.behind)))
    ∙ sym (get_next_cluster_lem fs v d c w h)

-- Cluster `c`, the first that was free, ends a chain now, the chain of `prev` if that is a cluster; its
-- sectors are zeros, and nothing else has changed.
pub record IsAllocated (fs : Fat32Instance) (prev c : ℕ) (d d' : Disk) : Type 0 where
  pub intact : IsWhole d'
  pub cluster : IsCluster fs c
  pub was_free : get_next_cluster fs d c ≡ 0
  pub first : (c' : ℕ) → 2 ≤ c' → c' < c → get_next_cluster fs d c' ≢ 0
  pub table :
      (c' : ℕ)
      → IsCluster fs c'
      → get_next_cluster fs d' c' ≡ (
          if leb 2 prev && prev == c'
          then c
          else if c == c'
          then cluster_eoc
          else get_next_cluster fs d c')
  pub zeros :
      (s : ℕ) → s < fs.sectors_per_cluster → d'.sector (cluster_to_lba fs c + s) ≡ replicate 512 0
  pub others :
      (l : ℕ)
      → fs.data_start_lba ≤ l
      → (l < cluster_to_lba fs c) ⊎ (cluster_to_lba fs c + fs.sectors_per_cluster ≤ l)
      → d'.sector l ≡ d.sector l

-- The entry of the cluster before.
link :
    (fs : Fat32Instance) (d : Disk) (prev c : ℕ)
    → IsVolume fs
    → IsWhole d
    → IsCluster fs c
    → (prev < 2) ⊎ IsCluster fs prev
    → let d2 = if leb 2 prev then (set_next_cluster fs prev c d).1 else d in
      IsWhole d2
      × ((c' : ℕ)
          → IsCluster fs c'
          → get_next_cluster fs d2 c'
            ≡ (if leb 2 prev && prev == c' then c else get_next_cluster fs d c'))
      × ((l : ℕ) → fs.data_start_lba ≤ l → d2.sector l ≡ d.sector l)
link fs d prev c v w h (inl low) =
    let no : leb 2 prev ≡ false = ground (arith, low) in
    let same : (if leb 2 prev then (set_next_cluster fs prev c d).1 else d) ≡ d =
      ap (λ t. if t then (set_next_cluster fs prev c d).1 else d) no in
    (
      subst IsWhole (sym same) w,
      λ c' k. ap (λ d. get_next_cluster fs d c') same ∙ ground (arith, no),
      λ l b. ap (λ d. d.sector l) same,
    )
link fs d prev c v w h (inr k) =
    let yes_prev : leb 2 prev ≡ true = ground (arith, k) in
    let d' = (set_next_cluster fs prev c d).1 in
    let u = (set_next_cluster_lem fs v d w prev c k).1 in
    let same : (if leb 2 prev then d' else d) ≡ d' = ap (λ t. if t then d' else d) yes_prev in
    let small : c % 2 ^ 28 ≡ c = omega (arith, h, v.bounded) in
    (
      subst IsWhole (sym same) u.intact,
      λ c' k'.
          ap (λ d. get_next_cluster fs d c') same ∙ u.table c' k' ∙ ground (arith, yes_prev, small),
      λ l b. ap (λ d. d.sector l) same ∙ u.others l b,
    )

allocated :
    (fs : Fat32Instance) (d : Disk) (prev c : ℕ)
    → IsVolume fs
    → IsWhole d
    → (prev < 2) ⊎ IsCluster fs prev
    → IsCluster fs c
    → get_next_cluster fs d c ≡ 0
    → ((c' : ℕ) → 2 ≤ c' → c' < c → get_next_cluster fs d c' ≢ 0)
    → let d1 = (set_next_cluster fs c cluster_eoc d).1 in
      let d2 = if leb 2 prev then (set_next_cluster fs prev c d1).1 else d1 in
      IsAllocated fs prev c d (clear_loop fs.sectors_per_cluster (cluster_to_lba fs c) d2)
allocated fs d prev c v w p h free first =
    let d1 = (set_next_cluster fs c cluster_eoc d).1 in
    let u1 = (set_next_cluster_lem fs v d w c cluster_eoc h).1 in
    let d2 = if leb 2 prev then (set_next_cluster fs prev c d1).1 else d1 in
    let u2 = link fs d1 prev c v u1.intact h p in
    let place = cluster_sectors fs c v h in
    let start : fs.data_start_lba ≤ cluster_to_lba fs c = omega (arith, place.0) in
    let r =
      clear_loop_lem fs.sectors_per_cluster (cluster_to_lba fs c) d2 u2.0 (omega (arith, place)) in
    let d3 = clear_loop fs.sectors_per_cluster (cluster_to_lba fs c) d2 in
    record {
      intact = r.intact;
      cluster = h;
      was_free = free;
      first = first;
      table = λ c' k.
          get_next_cluster-data fs d2 d3 c' v u2.0 r.intact
            (λ l b. r.before l (omega (arith, b, start))) k
          ∙ u2.1 c' k
          ∙ ap (λ n. if leb 2 prev && prev == c' then c else n) (u1.table c' k);
      zeros = λ s b. r.zeros (cluster_to_lba fs c + s) (omega arith) (omega (arith, b));
      others = λ l b o. elim o [
        | inl before ↦ r.before l before ∙ u2.2 l b ∙ u1.others l b
        | inr behind ↦ r.behind l behind ∙ u2.2 l b ∙ u1.others l b
      ];
    }

-- On a drive that does not fail, allocation takes the first free cluster of the table: it becomes the end
-- of a chain, linked behind `prev` if that is a cluster, its sectors are filled with zeros, and no other
-- entry and no other sector of the data changes. If no cluster is free it returns 0 and changes nothing.
pub allocate_cluster_lem :
    (fs : Fat32Instance) (prev : ℕ) (d : Disk)
    → IsVolume fs
    → IsWhole d
    → (prev < 2) ⊎ IsCluster fs prev
    → ((allocate_cluster fs prev d ≡ (0, d))
        × ((c : ℕ) → IsCluster fs c → get_next_cluster fs d c ≢ 0))
      ⊎ IsAllocated fs prev (allocate_cluster fs prev d).0 d (allocate_cluster fs prev d).1
unfolding allocate_cluster
allocate_cluster_lem fs prev d v w p =
    let found = find_free fs d fs.fat_size_sectors 0 in
    let d1 = (set_next_cluster fs found cluster_eoc d).1 in
    let d2 = if leb 2 prev then (set_next_cluster fs prev found d1).1 else d1 in
    let d3 = clear_loop fs.sectors_per_cluster (cluster_to_lba fs found) d2 in
    elim (find_free_lem fs v d w fs.fat_size_sectors 0 (omega arith)) [
      | inl (z, all) ↦
          let full : (found == 0) ≡ true = ground (arith, z) in
          inl (
            ap (λ t. if t then (0, d) else (found, d3)) full,
            λ c k. all c (omega arith) (omega (arith, k)) k.0,
          )
      | inr (a, b, two, free, all) ↦
          let there : (found == 0) ≡ false = ground (arith, two) in
          let took : ℕ × Disk = (found, d3) in
          let e : (if found == 0 then (0, d) else took) ≡ took =
            ap (λ t. if t then (0, d) else (found, d3)) there in
          inr (
            subst (λ r. IsAllocated fs prev r.0 d r.1) (sym e)
              (allocated fs d prev found v w p (two, omega (arith, b)) free
                (λ c' t l. all c' (omega arith) l t)))
    ]
