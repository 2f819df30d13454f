-- ===== src/Fs/Fat32/Update.antt =====
-- An entry that is written is read again, and no other changes.
use zwei_os.Base.{
  ℕ, suc, ◌+◌, ◌-◌, ◌*◌, ◌/◌, ◌%◌, ◌^◌, ◌≤◌, ◌<◌, ◌≡◌, ◌≢◌, ap, sym, subst, ◌∙◌, true, false, List,
  arith, ltb, ◌==◌, if◌then◌else◌, length, ne→==, ℕ_discrete,
}
use zwei_os.Net.Bytes.{le32_at}
use zwei_os.Fs.Fat32.{
  Disk, store, Fat32Instance, fat_sector_rel, ent_offset, get_next_cluster, patched, set_copy,
  set_loop, set_next_cluster,
}
use zwei_os.Fs.Fat32.Sector.{le32_at-put32, le32_at-put32_ne}
use zwei_os.Fs.Fat32.Table.{
  IsVolume, IsWhole, IsWhole-store, IsCluster, set_copy_lem, length-patched, set_loop_lem,
  cluster_place, get_next_cluster_lem,
}

le32_at-patched :
    (bytes : List ℕ) (c next : ℕ)
    → length bytes ≡ 512
    → ent_offset c + 3 < 512
    → le32_at (patched bytes c next) (ent_offset c) % 2 ^ 28 ≡ next % 2 ^ 28
unfolding patched
le32_at-patched bytes c next l h =
    let v = le32_at bytes (ent_offset c) / 2 ^ 28 * 2 ^ 28 + next % 2 ^ 28 in
    omega (arith, le32_at-put32 bytes (ent_offset c) v (omega (arith, l)))

le32_at-patched_ne :
    (bytes : List ℕ) (c c' next : ℕ)
    → length bytes ≡ 512
    → ent_offset c + 3 < 512
    → ent_offset c % 4 ≡ 0
    → ent_offset c' % 4 ≡ 0
    → ent_offset c ≢ ent_offset c'
    → le32_at (patched bytes c next) (ent_offset c') ≡ le32_at bytes (ent_offset c')
unfolding patched
le32_at-patched_ne bytes c c' next l h a a' ne =
    le32_at-put32_ne bytes (ent_offset c) (ent_offset c')
      (le32_at bytes (ent_offset c) / 2 ^ 28 * 2 ^ 28 + next % 2 ^ 28) (omega (arith, l)) a a' ne

-- An entry has changed, and nothing else below the data.
pub record IsUpdate (fs : Fat32Instance) (c next : ℕ) (d d' : Disk) : Type 0 where
  pub intact : IsWhole d'
  pub table :
      (c' : ℕ)
      → IsCluster fs c'
      → get_next_cluster fs d' c' ≡ (if c == c' then next % 2 ^ 28 else get_next_cluster fs d c')
  pub others : (l : ℕ) → fs.data_start_lba ≤ l → d'.sector l ≡ d.sector l

-- The disk behind the first copy.
first_copy : Fat32Instance → ℕ → ℕ → Disk → Disk
first_copy fs c next d =
    let lba = fs.fat_start_lba + fat_sector_rel c in store d lba (patched (d.sector lba) c next)

module _ (fs : Fat32Instance) (v : IsVolume fs) (d : Disk) (w : IsWhole d) (c next : ℕ)
    (h : IsCluster fs c) where
  first_copy-IsWhole : IsWhole (first_copy fs c next d)
  unfolding first_copy
  first_copy-IsWhole =
      let bytes = d.sector (fs.fat_start_lba + fat_sector_rel c) in
      IsWhole-store d (fs.fat_start_lba + fat_sector_rel c) (patched bytes c next) w
        (length-patched bytes c next ∙ w.whole (fs.fat_start_lba + fat_sector_rel c))

  first_copy_entry :
      (c' : ℕ)
      → IsCluster fs c'
      → le32_at
            ((first_copy fs c next d).sector (fs.fat_start_lba + fat_sector_rel c'))
            (ent_offset c')
          % 2 ^ 28
        ≡ (if c == c'
            then next % 2 ^ 28
            else le32_at (d.sector (fs.fat_start_lba + fat_sector_rel c')) (ent_offset c') % 2 ^ 28)
  unfolding first_copy
  first_copy_entry c' h' =
      let place = cluster_place fs v c h in
      let place' = cluster_place fs v c' h' in
      let lba = fs.fat_start_lba + fat_sector_rel c in
      let lba' = fs.fat_start_lba + fat_sector_rel c' in
      let bytes = d.sector lba in
      let read = λ (b : List ℕ). le32_at b (ent_offset c') % 2 ^ 28 in
      elim (ℕ_discrete c c') [
        | yes e ↦
            subst
              (λ c'.
                le32_at
                    (if fs.fat_start_lba + fat_sector_rel c' == lba
                      then patched bytes c next
                      else d.sector (fs.fat_start_lba + fat_sector_rel c'))
                    (ent_offset c')
                  % 2 ^ 28
                ≡ (if c == c'
                    then next % 2 ^ 28
                    else le32_at (d.sector (fs.fat_start_lba + fat_sector_rel c')) (ent_offset c')
                      % 2 ^ 28))
              e (ground (arith, le32_at-patched bytes c next (w.whole lba) place.2))
        | no ne ↦ elim (ℕ_discrete lba' lba) [
          | yes e ↦
              let apart : ent_offset c ≢ ent_offset c' =
                λ q. absurd (omega (arith, q, e, place.4, place'.4, ne)) in
              let old =
                le32_at-patched_ne bytes c c' next (w.whole lba) place.2 place.3 place'.3 apart in
              let same : d.sector lba' ≡ bytes = ap d.sector e in
              ground (arith, e, ne, old, ap read same)
          | no n ↦ ground (arith, n, ne)
        ]
      ]

  first_copy_others :
      (l : ℕ) → fs.data_start_lba ≤ l → (first_copy fs c next d).sector l ≡ d.sector l
  unfolding first_copy
  first_copy_others l b =
      let place = cluster_place fs v c h in
      let lba = fs.fat_start_lba + fat_sector_rel c in
      let one : fs.fat_size_sectors ≤ fs.fat_count * fs.fat_size_sectors =
        grind (arith, v.copies) in
      ap (λ t. if t then patched (d.sector lba) c next else d.sector l)
        (ne→== l lba (λ q. absurd (omega (arith, q, place.0, one, v.behind, b))))

  set_next_cluster-first_copy :
      set_next_cluster fs c next d
      ≡ set_loop fs (fs.fat_count - 1) 1 c next (first_copy fs c next d)
  unfolding set_next_cluster set_loop first_copy
  set_next_cluster-first_copy =
      let place = cluster_place fs v c h in
      let n : fs.fat_count ≡ suc (fs.fat_count - 1) = omega (arith, v.copies) in
      let range : ltb c 2 ≡ false = ground (arith, h) in
      let lba : (fs.fat_start_lba + 0 * fs.fat_size_sectors + fat_sector_rel c) % 2 ^ 32
          ≡ fs.fat_start_lba + fat_sector_rel c =
        omega (arith, place.1) in
      ap (λ t. if t then (false, d) else set_loop fs fs.fat_count 0 c next d) range
      ∙ ap (λ n. set_loop fs n 0 c next d) n
      ∙ ap (λ r. if r.0 then set_loop fs (fs.fat_count - 1) 1 c next r.1 else (false, r.1))
          (ap (λ l. set_copy d l c next) lba
            ∙ set_copy_lem d (fs.fat_start_lba + fat_sector_rel c) c next w)

  -- Writing an entry changes that entry of the table, to the 28 bits of the value, and no other, and
  -- no sector of the data.
  pub set_next_cluster_lem :
      ((set_next_cluster fs c next d).0 ≡ true)
      × IsUpdate fs c next d (set_next_cluster fs c next d).1
  set_next_cluster_lem =
      let d1 = first_copy fs c next d in
      let place = cluster_place fs v c h in
      let n = fs.fat_count - 1 in
      let all : fs.fat_start_lba + (1 + n) * fs.fat_size_sectors ≤ fs.data_start_lba = omega (
        arith,
        v.behind,
        ap (λ n. n * fs.fat_size_sectors) {x = 1 + n} {y = fs.fat_count} (omega (arith, v.copies)),
      ) in
      let r =
        set_loop_lem fs n 1 c next d1 first_copy-IsWhole place.0 (omega (arith, all, v.room)) in
      let low = fs.fat_start_lba + fs.fat_size_sectors in
      let one : ((set_loop fs n 1 c next d1).0 ≡ true)
          × IsUpdate fs c next d (set_loop fs n 1 c next d1).1 =
        (
          r.ok,
          record {
            intact = r.intact;
            table = λ c' h'.
                let place' = cluster_place fs v c' h' in
                get_next_cluster_lem fs v (set_loop fs n 1 c next d1).1 c' r.intact h'
                ∙ ap (λ b. le32_at b (ent_offset c') % 2 ^ 28)
                    (r.before (fs.fat_start_lba + fat_sector_rel c') (omega (arith, place'.0)))
                ∙ first_copy_entry c' h'
                ∙ ap (λ t. if c == c' then next % 2 ^ 28 else t)
                    (sym (get_next_cluster_lem fs v d c' w h'));
            others = λ l b. r.after l (omega (arith, all, b)) ∙ first_copy_others l b;
          },
        ) in
      subst (λ r. (r.0 ≡ true) × IsUpdate fs c next d r.1) (sym set_next_cluster-first_copy) one
