-- ===== src/Fs/Fat32/Chain.antt =====
-- `fat32_free_cluster_chain` ends on every table, a cyclic one too.
use zwei_os.Base.{
  ℕ, zero, suc, ◌+◌, ◌*◌, ◌≤◌, ◌<◌, ◌≡◌, ◌≢◌, subst, ◌∙◌, ◌⊎◌, inl, inr, true, false, not, ◌&&◌,
  some, arith, ltb, leb, ◌==◌, if◌then◌else◌, Bool-cases, ℕ_discrete,
}
use zwei_os.Fs.Fat32.{
  Disk, Fat32Instance, cluster_free, cluster_eoc, get_next_cluster, set_next_cluster,
  free_cluster_chain,
}
use zwei_os.Fs.Fat32.Table.{IsVolume, IsWhole, IsCluster}
use zwei_os.Fs.Fat32.Update.{IsUpdate, set_next_cluster_lem}

-- What an entry may hold: no cluster, a cluster of the table, or the end of a chain.
abbrev pub IsLink : Fat32Instance → ℕ → Type 0
IsLink fs next = (next < 2) ⊎ (IsCluster fs next ⊎ (cluster_eoc ≤ next))

abbrev pub IsClosed : Fat32Instance → Disk → Type 0
IsClosed fs d = (c : ℕ) → IsCluster fs c → IsLink fs (get_next_cluster fs d c)

-- The clusters below `n` with an entry.
pub used : Fat32Instance → Disk → ℕ → ℕ
used fs d zero = 0
used fs d (suc n) = used fs d n + (if leb 2 n && not (get_next_cluster fs d n == 0) then 1 else 0)

used-le : (fs : Fat32Instance) (d : Disk) (n : ℕ) → used fs d n ≤ n
unfolding used
used-le fs d zero = omega arith
used-le fs d (suc n) = ground (arith, used-le fs d n)

module _ (fs : Fat32Instance) (c : ℕ) (d d' : Disk) (h : IsCluster fs c)
    (u : IsUpdate fs c 0 d d') where
  IsClosed-update : IsClosed fs d → IsClosed fs d'
  IsClosed-update closed c' h' = elim (ℕ_discrete c c') [
    | yes e ↦ inl (ground (arith, e, u.table c' h'))
    | no ne ↦ subst (IsLink fs) (ground (arith, ne, u.table c' h')) (closed c' h')
  ]

  -- One entry less is in use.
  used-update :
      (n : ℕ)
      → n ≤ fs.fat_size_sectors * 128
      → get_next_cluster fs d c ≢ 0
      → used fs d' n + (if ltb c n then 1 else 0) ≡ used fs d n
  unfolding used
  used-update zero k ne = ground arith
  used-update (suc n) k ne = elim (Bool-cases (leb 2 n)) [
    | inr low ↦ ground (arith, low, h, used-update n (omega arith) ne)
    | inl in_it ↦ elim (ℕ_discrete c n) [
      | yes e ↦
          let was : get_next_cluster fs d n ≢ 0 = subst (λ c. get_next_cluster fs d c ≢ 0) e ne in
          ground (
            arith,
            in_it,
            e,
            was,
            u.table n (ground (arith, in_it, k)),
            used-update n (omega arith) ne,
          )
      | no o ↦
          ground
            (arith, in_it, o, u.table n (ground (arith, in_it, k)), used-update n (omega arith) ne)
    ]
  ]

-- Where the loop's test fails.
pub ended :
    (fuel : ℕ) (fs : Fat32Instance) (curr : ℕ) (d : Disk)
    → (leb 2 curr && ltb curr cluster_eoc) ≡ false
    → free_cluster_chain fuel fs curr d ≡ some d
unfolding free_cluster_chain
ended zero fs curr d h = ground (arith, h)
ended (suc fuel) fs curr d h = ground (arith, h)

pub step :
    (fuel : ℕ) (fs : Fat32Instance) (curr : ℕ) (d : Disk)
    → (leb 2 curr && ltb curr cluster_eoc) ≡ true
    → free_cluster_chain (suc fuel) fs curr d
      ≡ free_cluster_chain fuel fs
          (get_next_cluster fs d curr)
          (set_next_cluster fs curr cluster_free d).1
unfolding free_cluster_chain
step fuel fs curr d h = ground (arith, h)

pub in_range :
    (fs : Fat32Instance) (c : ℕ)
    → IsVolume fs
    → IsCluster fs c
    → (leb 2 c && ltb c cluster_eoc) ≡ true
in_range fs c v h = ground (arith, v.bounded, h)

enough :
    (fs : Fat32Instance) (fuel curr : ℕ) (d : Disk)
    → IsVolume fs
    → IsWhole d
    → IsClosed fs d
    → IsLink fs curr
    → used fs d (fs.fat_size_sectors * 128) < fuel
    → (d' : Disk) × (free_cluster_chain fuel fs curr d ≡ some d')
enough fs zero curr d v w closed l h = absurd (omega arith)
enough fs (suc fuel) curr d v w closed (inl low) h =
    (d, ended (suc fuel) fs curr d (ground (arith, low)))
enough fs (suc fuel) curr d v w closed (inr (inr high)) h =
    (d, ended (suc fuel) fs curr d (ground (arith, high)))
enough fs (suc fuel) curr d v w closed (inr (inl c)) h =
    let next = get_next_cluster fs d curr in
    let d1 = (set_next_cluster fs curr cluster_free d).1 in
    let u = (set_next_cluster_lem fs v d w curr cluster_free c).1 in
    let rest : (d' : Disk) × (free_cluster_chain fuel fs next d1 ≡ some d') =
      elim (ℕ_discrete next 0) [
        | yes e ↦ (d1, ended fuel fs next d1 (ground (arith, e)))
        | no ne ↦
            enough fs fuel next d1 v u.intact (IsClosed-update fs curr d d1 c u closed)
              (closed curr c)
              (ground (
                arith,
                c,
                h,
                used-update fs curr d d1 c u (fs.fat_size_sectors * 128) (omega arith) ne,
              ))
      ] in
    (rest.0, step fuel fs curr d (in_range fs curr v c) ∙ rest.1)

-- Freeing a chain comes to an end, on a drive that does not fail, on every table whose entries are
-- clusters of the table, free or ends of chains, also where the chain leads back into itself: within
-- as many rounds as the table has clusters, and one, the loop's own test has ended it.
pub free_cluster_chain_ends :
    (fs : Fat32Instance) (curr : ℕ) (d : Disk)
    → IsVolume fs
    → IsWhole d
    → IsClosed fs d
    → IsLink fs curr
    → (d' : Disk) × (free_cluster_chain (fs.fat_size_sectors * 128 + 1) fs curr d ≡ some d')
free_cluster_chain_ends fs curr d v w closed l =
    enough fs (fs.fat_size_sectors * 128 + 1) curr d v w closed l
      (omega (arith, used-le fs d (fs.fat_size_sectors * 128)))
