-- ===== src/Fs/Fat32/Search.antt =====
-- The search of the table for a free entry finds the first.
use zwei_os.Base.{
  ℕ, zero, suc, ◌+◌, ◌*◌, ◌%◌, ◌^◌, ◌≤◌, ◌<◌, ◌≡◌, ◌≢◌, refl, ap, sym, subst, ◌∙◌, ◌⊎◌, inl, inr,
  not, ◌&&◌, arith, ltb, ◌==◌, if◌then◌else◌, Bool-cases, ℕ_discrete,
}
use zwei_os.Net.Bytes.{le32_at}
use zwei_os.Fs.Fat32.{
  Disk, Fat32Instance, fat_sector_rel, ent_offset, get_next_cluster, find_in_sector, find_free,
}
use zwei_os.Fs.Fat32.Table.{IsVolume, IsWhole, table_size, get_next_cluster_lem}

-- `r` is the first free cluster between `from` and `to`, or 0 if there is none.
abbrev pub IsFirst : Fat32Instance → Disk → ℕ → ℕ → ℕ → Type 0
IsFirst fs d from to r =
    ((r ≡ 0) × ((c : ℕ) → from ≤ c → c < to → 2 ≤ c → get_next_cluster fs d c ≢ 0))
    ⊎ ((from ≤ r)
        × (r < to)
        × (2 ≤ r)
        × (get_next_cluster fs d r ≡ 0)
        × ((c : ℕ) → from ≤ c → c < r → 2 ≤ c → get_next_cluster fs d c ≢ 0))

-- A cluster that is not free comes before.
IsFirst-later :
    (fs : Fat32Instance) (d : Disk) (from to r : ℕ)
    → (2 ≤ from → get_next_cluster fs d from ≢ 0)
    → IsFirst fs d (from + 1) to r
    → IsFirst fs d from to r
IsFirst-later fs d from to r here (inl (z, all)) = inl (
  z,
  λ c a b two. elim (ℕ_discrete from c) [
    | yes e ↦ subst (λ c. get_next_cluster fs d c ≢ 0) e (here (omega (arith, e, two)))
    | no ne ↦ all c (omega (arith, a, ne)) b two
  ],
)
IsFirst-later fs d from to r here (inr (a, b, two, z, all)) = inr (
  omega (arith, a),
  b,
  two,
  z,
  λ c a' b' two'. elim (ℕ_discrete from c) [
    | yes e ↦ subst (λ c. get_next_cluster fs d c ≢ 0) e (here (omega (arith, e, two')))
    | no ne ↦ all c (omega (arith, a', ne)) b' two'
  ],
)

IsFirst-join :
    (fs : Fat32Instance) (d : Disk) (from mid to r r' : ℕ)
    → from ≤ mid
    → mid ≤ to
    → IsFirst fs d from mid r
    → IsFirst fs d mid to r'
    → IsFirst fs d from to (if r == 0 then r' else r)
IsFirst-join fs d from mid to r r' h k (inr (a, b, two, z, all)) second =
    subst (IsFirst fs d from to) {x = r} {y = if r == 0 then r' else r} (ground (arith, two))
      (inr (a, omega (arith, b, k), two, z, all))
IsFirst-join fs d from mid to r r' h k (inl (none_here, all)) (inl (z, all')) =
    subst (IsFirst fs d from to) {x = r'} {y = if r == 0 then r' else r} (ground (arith, none_here))
      (inl (
        z,
        λ c a b two. elim (Bool-cases (ltb c mid)) [
          | inl before ↦ all c a (ground (arith, before)) two
          | inr behind ↦ all' c (ground (arith, behind)) b two
        ],
      ))
IsFirst-join fs d from mid to r r' h k (inl (none_here, all)) (inr (a, b, two, z, all')) =
    subst (IsFirst fs d from to) {x = r'} {y = if r == 0 then r' else r} (ground (arith, none_here))
      (inr (
        omega (arith, a, h),
        b,
        two,
        z,
        λ c a' b' two'. elim (Bool-cases (ltb c mid)) [
          | inl before ↦ all c a' (ground (arith, before)) two'
          | inr behind ↦ all' c (ground (arith, behind)) b' two'
        ],
      ))

module _ (fs : Fat32Instance) (v : IsVolume fs) (d : Disk) (w : IsWhole d) where
  entry_at :
      (sec k : ℕ)
      → sec < fs.fat_size_sectors
      → k < 128
      → 2 ≤ sec * 128 + k
      → get_next_cluster fs d (sec * 128 + k)
        ≡ le32_at (d.sector (fs.fat_start_lba + sec)) (k * 4) % 2 ^ 28
  entry_at sec k hs hk two =
      let c = sec * 128 + k in
      let rel : fat_sector_rel c ≡ sec = omega (arith, v.bounded, hs, hk) in
      let off : ent_offset c ≡ k * 4 = omega (arith, v.bounded, hs, hk) in
      get_next_cluster_lem fs v d c w (two, omega (arith, hs, hk))
      ∙ ap (λ r. le32_at (d.sector (fs.fat_start_lba + r)) (ent_offset c) % 2 ^ 28) rel
      ∙ ap (λ o. le32_at (d.sector (fs.fat_start_lba + sec)) o % 2 ^ 28) off

  find_in_sector_lem :
      (left k sec : ℕ)
      → sec < fs.fat_size_sectors
      → k + left ≤ 128
      → IsFirst fs d
          (sec * 128 + k)
          (sec * 128 + k + left)
          (find_in_sector left k (d.sector (fs.fat_start_lba + sec)) sec)
  unfolding find_in_sector
  find_in_sector_lem zero k sec hs hk = inl (refl, λ c a b two. absurd (omega (arith, a, b)))
  find_in_sector_lem (suc left) k sec hs hk =
      let c = sec * 128 + k in
      let bytes = d.sector (fs.fat_start_lba + sec) in
      let idx : (sec * 128 + k) % 2 ^ 32 ≡ c = omega (arith, v.bounded, hs, hk) in
      let rest = find_in_sector left (k + 1) bytes sec in
      let ih : IsFirst fs d (c + 1) (c + suc left) rest =
        subst (λ q. IsFirst fs d q (c + suc left) rest) {x = sec * 128 + (k + 1)} {y = c + 1}
          (omega arith)
          (subst (λ q. IsFirst fs d (sec * 128 + (k + 1)) q rest) {x = sec * 128 + (k + 1) + left}
            {y = c + suc left} (omega arith)
            (find_in_sector_lem left (k + 1) sec hs (omega arith))) in
      elim (Bool-cases (not (ltb c 2) && le32_at bytes (k * 4) % 2 ^ 28 == 0)) [
        | inl free ↦
            let e : find_in_sector (suc left) k bytes sec ≡ c = ground (arith, idx, free) in
            let two : 2 ≤ c = ground (arith, free) in
            subst (IsFirst fs d c (c + suc left)) (sym e) (
              inr (
                omega arith,
                omega arith,
                two,
                entry_at sec k hs (omega arith) two ∙ ground (arith, free),
                λ c' a b two'. absurd (omega (arith, a, b)),
              ))
        | inr taken ↦
            let e : find_in_sector (suc left) k bytes sec ≡ rest = ground (arith, idx, taken) in
            subst (IsFirst fs d c (c + suc left)) (sym e) (
              IsFirst-later fs d c (c + suc left) rest
                (λ two z.
                  absurd (ground (arith, taken, two, z, entry_at sec k hs (omega arith) two)))
                ih)
      ]

  -- The search finds the first free cluster of the sectors that are left.
  pub find_free_lem :
      (left sec : ℕ)
      → sec + left ≤ fs.fat_size_sectors
      → IsFirst fs d (sec * 128) ((sec + left) * 128) (find_free fs d left sec)
  unfolding find_free
  find_free_lem zero sec hs = inl (refl, λ c a b two. absurd (omega (arith, a, b)))
  find_free_lem (suc left) sec hs =
      let lba : (fs.fat_start_lba + sec) % 2 ^ 32 ≡ fs.fat_start_lba + sec =
        omega (arith, table_size fs v, hs) in
      let here = find_in_sector 128 0 (d.sector (fs.fat_start_lba + sec)) sec in
      let rest = find_free fs d left (sec + 1) in
      let e : find_free fs d (suc left) sec ≡ (if here == 0 then rest else here) =
        ap
          (λ l.
            if d.is_bad l
            then 0
            else if find_in_sector 128 0 (d.sector l) sec == 0
            then rest
            else find_in_sector 128 0 (d.sector l) sec)
          lba
        ∙ ap (λ t. if t then 0 else if here == 0 then rest else here)
            (w.good (fs.fat_start_lba + sec)) in
      let first : IsFirst fs d (sec * 128) ((sec + 1) * 128) here =
        subst (λ q. IsFirst fs d q ((sec + 1) * 128) here) {x = sec * 128 + 0} {y = sec * 128}
          (omega arith)
          (subst (λ q. IsFirst fs d (sec * 128 + 0) q here) {x = sec * 128 + 0 + 128}
            {y = (sec + 1) * 128} (omega arith)
            (find_in_sector_lem 128 0 sec (omega (arith, hs)) (omega arith))) in
      let second : IsFirst fs d ((sec + 1) * 128) ((sec + suc left) * 128) rest =
        subst (λ q. IsFirst fs d ((sec + 1) * 128) (q * 128) rest) {x = sec + 1 + left}
          {y = sec + suc left} (omega arith) (find_free_lem left (sec + 1) (omega (arith, hs))) in
      subst (IsFirst fs d (sec * 128) ((sec + suc left) * 128)) (sym e) (
        IsFirst-join fs d (sec * 128) ((sec + 1) * 128) ((sec + suc left) * 128) here rest
          (omega arith) (omega arith) first second)
