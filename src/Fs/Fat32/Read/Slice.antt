-- ===== src/Fs/Fat32/Read/Slice.antt =====
-- `fat32_vnode_read` gives a slice of the content.
use native.Mathlib.Nat.{suc-mul, div-add-mod', mod-lt}
use mathlib.Core.Option
use zwei_os.Base.{
  ℕ, zero, suc, ◌+◌, ◌-◌, ◌*◌, ◌/◌, ◌%◌, ◌^◌, ◌<◌, ◌≡◌, ap, sym, subst, ◌∙◌, inl, inr, true, not,
  ◌&&◌, ◌||◌, Option, none, some, List, [], ◌∷◌, ◌++◌, min, arith, ltb, leb, ◌==◌, if◌then◌else◌,
  length, take, drop, take-nil, drop-append, drop_all, drop-drop, Bool-cases, to_int,
}
use zwei_os.Fs.Fat32.{Disk, Fat32Instance, cluster_to_lba, get_next_cluster}
use zwei_os.Fs.Fat32.Table.{IsVolume, IsWhole}
use zwei_os.Fs.Fat32.Chain.{in_range}
use zwei_os.Fs.Fat32.Free.{IsChain}
use zwei_os.Fs.Fat32.Read.{FatNode, is_data, skip_clusters, read_from, counted, fat32_vnode_read}
use zwei_os.Fs.Fat32.Read.Content.{
  sectors, content, HasClusters, length-cluster, no_data, read_loop_lem,
}

module _ (fs : Fat32Instance) (v : IsVolume fs) (k : HasClusters fs) (d : Disk)
    (w : IsWhole d) where
  -- The chain behind the clusters that are skipped.
  IsSkipped : List ℕ → ℕ → Option ℕ → Type 0
  IsSkipped cs n none = drop (n * fs.bytes_per_cluster) (content fs d cs) ≡ []
  IsSkipped cs n (some c) =
      (cs' : List ℕ) × IsChain fs d c cs'
      × (drop (n * fs.bytes_per_cluster) (content fs d cs) ≡ content fs d cs')

  skip_clusters_lem :
      (n curr : ℕ) (cs : List ℕ) → IsChain fs d curr cs → IsSkipped cs n (skip_clusters fs d n curr)
  unfolding skip_clusters IsSkipped content
  skip_clusters_lem zero curr cs chain = (
    cs,
    chain,
    ap (λ n. drop n (content fs d cs)) {x = 0 * fs.bytes_per_cluster} {y = 0} (omega arith),
  )
  skip_clusters_lem (suc n) curr [] chain =
      subst (IsSkipped [] (suc n)) {x = none} {y = skip_clusters fs d (suc n) curr}
        (ground (arith, no_data fs v k d w curr chain))
        (drop_all (suc n * fs.bytes_per_cluster) [] (omega arith))
  skip_clusters_lem (suc n) curr (c ∷ cs) (e, k', chain) =
      let next = get_next_cluster fs d c in
      let go : skip_clusters fs d (suc n) curr ≡ skip_clusters fs d n next =
        ap (skip_clusters fs d (suc n)) e
        ∙ ap (λ t. if t then skip_clusters fs d n next else none) {x = is_data c} {y = true}
            (in_range fs c v k') in
      let bytes = sectors d fs.sectors_per_cluster (cluster_to_lba fs c) in
      let m = n * fs.bytes_per_cluster in
      let one : suc n * fs.bytes_per_cluster ≡ fs.bytes_per_cluster + m =
        omega (arith, suc-mul n fs.bytes_per_cluster) in
      let behind : drop (suc n * fs.bytes_per_cluster) (bytes ++ content fs d cs)
          ≡ drop m (content fs d cs) =
        ap (λ j. drop j (bytes ++ content fs d cs)) one
        ∙ drop-append (fs.bytes_per_cluster + m) bytes (content fs d cs)
        ∙ ap (λ p. p ++ drop (fs.bytes_per_cluster + m - length bytes) (content fs d cs))
            (drop_all (fs.bytes_per_cluster + m) bytes (omega (arith, length-cluster fs v k d w c)))
        ∙ ap (λ j. drop j (content fs d cs)) {x = fs.bytes_per_cluster + m - length bytes} {y = m}
            (omega (arith, length-cluster fs v k d w c)) in
      subst (IsSkipped (c ∷ cs) (suc n)) (sym go)
        (same cs bytes n (skip_clusters fs d n next) behind (skip_clusters_lem n next cs chain))
    where
      same :
          (cs bytes : List ℕ) (n : ℕ) (o : Option ℕ)
          → drop (suc n * fs.bytes_per_cluster) (bytes ++ content fs d cs)
            ≡ drop (n * fs.bytes_per_cluster) (content fs d cs)
          → IsSkipped cs n o
          → elim o as (λ _. Type 0) [
            | none ↦ drop (suc n * fs.bytes_per_cluster) (bytes ++ content fs d cs) ≡ []
            | some c ↦
                (cs' : List ℕ) × IsChain fs d c cs'
                × (drop (suc n * fs.bytes_per_cluster) (bytes ++ content fs d cs)
                    ≡ content fs d cs')
          ]
      same cs bytes n none e s = e ∙ s
      same cs bytes n (some c) e (cs', chain, s) = (cs', chain, e ∙ s)

  -- Both parts of the offset.
  at_offset :
      (cs : List ℕ) (offset left : ℕ)
      → drop offset (content fs d cs)
        ≡ drop
            (offset % fs.bytes_per_cluster)
            (drop (offset / fs.bytes_per_cluster * fs.bytes_per_cluster) (content fs d cs))
  at_offset cs offset left =
      let q = offset / fs.bytes_per_cluster * fs.bytes_per_cluster in
      let r = offset % fs.bytes_per_cluster in
      sym (
        drop-drop q r (content fs d cs)
        ∙ ap (λ n. drop n (content fs d cs)) (div-add-mod' offset fs.bytes_per_cluster))

  read_from_lem :
      (cs : List ℕ) (offset left : ℕ) (o : Option ℕ)
      → IsSkipped cs (offset / fs.bytes_per_cluster) o
      → read_from fs d (offset % fs.bytes_per_cluster) left o
        ≡ some (take left (drop offset (content fs d cs)))
  unfolding read_from IsSkipped
  read_from_lem cs offset left none s =
      let r = offset % fs.bytes_per_cluster in
      ap some (
        sym (
          ap (take left) (at_offset cs offset left ∙ ap (drop r) s ∙ drop_all r [] (omega arith))
          ∙ take-nil ℕ left))
  read_from_lem cs offset left (some c) (cs', chain, s) =
      let r = offset % fs.bytes_per_cluster in
      read_loop_lem fs v k d w left c r left cs' chain
        (mod-lt offset (omega (arith, k.some_sectors, k.bytes))) (omega arith)
      ∙ sym (ap (λ xs. some (take left xs)) (at_offset cs offset left ∙ ap (drop r) s))

-- On a drive that does not fail, and a volume whose clusters have at most the 8 sectors that the
-- function's buffer holds, reading a file gives the bytes of its chain's clusters from the offset on: as
-- many as are asked for, but none behind the file's size, and none behind the chain's end; the result
-- is their number, as an `int`. A directory is read to the end of its chain. The chain may lie anywhere
-- on the volume.
pub fat32_vnode_read_lem :
    (fs : Fat32Instance) (d : Disk) (node : FatNode) (cs : List ℕ) (offset size : ℕ)
    → IsVolume fs
    → HasClusters fs
    → IsWhole d
    → IsChain fs d node.first_cluster cs
    → offset + size < 2 ^ 64
    → offset / fs.bytes_per_cluster < 2 ^ 32
    → let bytes =
        take
          (if node.is_directory then size else min size (node.size - offset))
          (drop offset (content fs d cs)) in
      fat32_vnode_read fs d node offset size ≡ some (to_int (length bytes), bytes)
unfolding fat32_vnode_read
fat32_vnode_read_lem fs d node cs offset size v k w chain ho hc =
    let n = if node.is_directory then size else min size (node.size - offset) in
    let bytes = drop offset (content fs d cs) in
    let sum : (offset + size) % 2 ^ 64 ≡ offset + size = omega arith in
    let index : offset / fs.bytes_per_cluster % 2 ^ 32 ≡ offset / fs.bytes_per_cluster =
      omega arith in
    let size' =
      if not node.is_directory && ltb node.size ((offset + size) % 2 ^ 64)
      then node.size - offset
      else size in
    let found = λ (i : ℕ). Option.map counted (
      read_from fs d (offset % fs.bytes_per_cluster) size'
        (skip_clusters fs d i node.first_cluster)) in
    elim (Bool-cases (size == 0 || (not node.is_directory && leb node.size offset))) [
      | inl nothing ↦
          let none_left : n ≡ 0 = ground (arith, nothing) in
          let e : fat32_vnode_read fs d node offset size ≡ some (counted []) =
            ground (arith, nothing) in
          e ∙ sym (ap (λ n. some (counted (take n bytes))) none_left)
      | inr something ↦
          let same : size' ≡ n = ground (arith, something, sum) in
          let e : fat32_vnode_read fs d node offset size
              ≡ found (offset / fs.bytes_per_cluster % 2 ^ 32) =
            ground (arith, something) in
          e
          ∙ ap found index
          ∙ ap (Option.map counted) (
              read_from_lem fs v k d w cs offset size'
                (skip_clusters fs d (offset / fs.bytes_per_cluster) node.first_cluster)
                (skip_clusters_lem fs v k d w (offset / fs.bytes_per_cluster) node.first_cluster cs
                  chain))
          ∙ ap (λ n. some (counted (take n bytes))) same
    ]
