-- ===== src/Fs/Fat32/Free.antt =====
-- What `fat32_free_cluster_chain` frees.
use zwei_os.Base.{
  ℕ, zero, suc, ◌≤◌, ◌<◌, ◌≡◌, refl, ap, sym, subst, ◌∙◌, ◌⊎◌, Bool, false, some, ◌||◌, List, [],
  ◌∷◌, arith, ◌==◌, if◌then◌else◌, length,
}
use zwei_os.Fs.Fat32.{
  Disk, Fat32Instance, cluster_free, cluster_eoc, get_next_cluster, set_next_cluster,
  free_cluster_chain,
}
use zwei_os.Fs.Fat32.Table.{IsVolume, IsWhole, IsCluster}
use zwei_os.Fs.Fat32.Update.{IsUpdate, set_next_cluster_lem}
use zwei_os.Fs.Fat32.Chain.{ended, step, in_range}

abbrev pub is_in : ℕ → List ℕ → Bool
is_in c [] = false
is_in c (x ∷ xs) = x == c || is_in c xs

-- The clusters from `curr` to the end of its chain.
abbrev pub IsChain : Fat32Instance → Disk → ℕ → List ℕ → Type 0
IsChain fs d curr [] = (curr < 2) ⊎ (cluster_eoc ≤ curr)
IsChain fs d curr (c ∷ cs) = (curr ≡ c) × IsCluster fs c × IsChain fs d (get_next_cluster fs d c) cs

abbrev pub HasNoRepeat : List ℕ → Type 0
HasNoRepeat [] = Unit
HasNoRepeat (c ∷ cs) = (is_in c cs ≡ false) × HasNoRepeat cs

-- A change of an entry outside the chain leaves the chain.
IsChain-update :
    (fs : Fat32Instance) (c next : ℕ) (d d' : Disk) (curr : ℕ) (cs : List ℕ)
    → IsUpdate fs c next d d'
    → is_in c cs ≡ false
    → IsChain fs d curr cs
    → IsChain fs d' curr cs
IsChain-update fs c next d d' curr [] u out chain = chain
IsChain-update fs c next d d' curr (x ∷ xs) u out (e, h, rest) =
    let same : get_next_cluster fs d' x ≡ get_next_cluster fs d x =
      ground (arith, out, u.table x h) in
    (
      e,
      h,
      subst (λ n. IsChain fs d' n xs) (sym same)
          (IsChain-update fs c next d d' (get_next_cluster fs d x) xs u (ground (arith, out)) rest),
    )

-- The entries of the chain are free, and nothing else has changed.
pub record IsFreed (fs : Fat32Instance) (cs : List ℕ) (d d' : Disk) : Type 0 where
  pub intact : IsWhole d'
  pub table :
      (c : ℕ)
      → IsCluster fs c
      → get_next_cluster fs d' c ≡ (if is_in c cs then 0 else get_next_cluster fs d c)
  pub others : (l : ℕ) → fs.data_start_lba ≤ l → d'.sector l ≡ d.sector l

-- Freeing a chain of clusters, none of which comes twice, on a drive that does not fail, ends with
-- exactly these free: it takes a round for each, no other entry of the table changes, and no sector of
-- the data.
pub free_cluster_chain_lem :
    (fs : Fat32Instance) (fuel curr : ℕ) (d : Disk) (cs : List ℕ)
    → IsVolume fs
    → IsWhole d
    → IsChain fs d curr cs
    → HasNoRepeat cs
    → length cs ≤ fuel
    → (d' : Disk) × (free_cluster_chain fuel fs curr d ≡ some d') × IsFreed fs cs d d'
free_cluster_chain_lem fs fuel curr d [] v w chain once h = (
  d,
  ended fuel fs curr d (ground (arith, chain)),
  record { intact = w; table = λ c k. refl; others = λ l k. refl },
)
free_cluster_chain_lem fs zero curr d (c ∷ cs) v w chain once h = absurd (omega arith)
free_cluster_chain_lem fs (suc fuel) curr d (c ∷ cs) v w (e, k, chain) once h =
    let next = get_next_cluster fs d c in
    let d1 = (set_next_cluster fs c cluster_free d).1 in
    let u = (set_next_cluster_lem fs v d w c cluster_free k).1 in
    let (d', ends, r) =
      free_cluster_chain_lem fs fuel next d1 cs v u.intact
        (IsChain-update fs c cluster_free d d1 next cs u once.0 chain) once.1 (omega arith) in
    (
      d',
      ap (λ n. free_cluster_chain (suc fuel) fs n d) e
          ∙ step fuel fs c d (in_range fs c v k)
          ∙ ends,
      record {
        intact = r.intact;
        table = λ c' k'. r.table c' k' ∙ ground (arith, u.table c' k');
        others = λ l b. r.others l b ∙ u.others l b;
      },
    )
