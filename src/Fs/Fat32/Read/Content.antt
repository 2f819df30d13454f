-- ===== src/Fs/Fat32/Read/Content.antt =====
-- Reading gives the bytes of the clusters of a file's chain.
use mathlib.Core.Option
use zwei_os.Base.{
  ℕ, zero, suc, ◌+◌, ◌-◌, ◌*◌, ◌%◌, ◌^◌, ◌≤◌, ◌<◌, ◌≡◌, refl, ap, sym, ◌∙◌, inl, inr, true, false,
  ◌&&◌, some, List, [], ◌∷◌, ◌++◌, min, arith, ltb, leb, if◌then◌else◌, length, take, drop,
  length-append, length-drop, take_all, take-nil, take-append, drop-append, drop_all, Bool-cases,
  ◌==◌,
}
use zwei_os.Fs.Fat32.{Disk, Fat32Instance, cluster_to_lba, get_next_cluster}
use zwei_os.Fs.Fat32.Table.{IsVolume, IsWhole, IsCluster}
use zwei_os.Fs.Fat32.Clear.{cluster_sectors}
use zwei_os.Fs.Fat32.Chain.{in_range}
use zwei_os.Fs.Fat32.Free.{IsChain}
use zwei_os.Fs.Fat32.Read.{
  is_data, holding, joined, cluster_buf_sectors, read_cluster, copied, read_loop,
}

-- Sectors one after the other, and the clusters of a chain.
abbrev pub sectors : Disk → ℕ → ℕ → List ℕ
sectors d zero lba = []
sectors d (suc n) lba = d.sector lba ++ sectors d n (lba + 1)

unfoldable pub content : Fat32Instance → Disk → List ℕ → List ℕ
content fs d [] = []
content fs d (c ∷ cs) = sectors d fs.sectors_per_cluster (cluster_to_lba fs c) ++ content fs d cs

length-sectors : (d : Disk) (n lba : ℕ) → IsWhole d → length (sectors d n lba) ≡ n * 512
length-sectors d zero lba w = omega arith
length-sectors d (suc n) lba w = omega (
  arith,
  length-append (d.sector lba) (sectors d n (lba + 1)),
  w.whole lba,
  length-sectors d n (lba + 1) w,
)

read_cluster_lem :
    (d : Disk) (n room lba : ℕ)
    → IsWhole d
    → n ≤ room
    → lba + n < 2 ^ 32
    → read_cluster d n room lba ≡ holding (sectors d n lba)
unfolding read_cluster joined
read_cluster_lem d zero room lba w r h = refl
read_cluster_lem d (suc n) room lba w r h =
    let l : lba % 2 ^ 32 ≡ lba = omega arith in
    let some_room : (room == 0) ≡ false = ground (arith, r) in
    rw (l, w.good lba, some_room)
      (ap (joined (d.sector lba))
        (read_cluster_lem d n (room - 1) (lba + 1) w (omega arith) (omega arith)))

-- A volume whose clusters are not empty, and no larger than the buffer of a read.
pub record HasClusters (fs : Fat32Instance) : Type 0 where
  pub some_sectors : 0 < fs.sectors_per_cluster
  pub few_sectors : fs.sectors_per_cluster ≤ 8
  pub bytes : fs.bytes_per_cluster ≡ fs.sectors_per_cluster * 512

module _ (fs : Fat32Instance) (v : IsVolume fs) (k : HasClusters fs) (d : Disk)
    (w : IsWhole d) where
  pub length-cluster :
      (c : ℕ)
      → length (sectors d fs.sectors_per_cluster (cluster_to_lba fs c)) ≡ fs.bytes_per_cluster
  length-cluster c = length-sectors d fs.sectors_per_cluster (cluster_to_lba fs c) w ∙ sym k.bytes

  read_data :
      (c : ℕ)
      → IsCluster fs c
      → read_cluster d fs.sectors_per_cluster cluster_buf_sectors (cluster_to_lba fs c)
        ≡ holding (sectors d fs.sectors_per_cluster (cluster_to_lba fs c))
  read_data c h =
      let place = cluster_sectors fs c v h in
      read_cluster_lem d fs.sectors_per_cluster cluster_buf_sectors (cluster_to_lba fs c) w
        k.few_sectors (omega (arith, place))

  pub no_data : (curr : ℕ) → IsChain fs d curr [] → is_data curr ≡ false
  no_data curr h = ground (arith, h)

  -- A block of bytes and the rest, read from an offset in the block.
  block :
      (bytes rest : List ℕ) (o left : ℕ)
      → length bytes ≡ fs.bytes_per_cluster
      → o < fs.bytes_per_cluster
      → take (min left (fs.bytes_per_cluster - o)) (drop o bytes)
          ++ take (left - min left (fs.bytes_per_cluster - o)) rest
        ≡ take left (drop o (bytes ++ rest))
  block bytes rest o left l h =
      let n = fs.bytes_per_cluster in
      let part = drop o bytes in
      let size : length part ≡ n - o = length-drop o bytes ∙ ap (λ n. n - o) l in
      let split : take left (drop o (bytes ++ rest))
          ≡ take left part ++ take (left - (n - o)) rest =
        ap (take left) (
          drop-append o bytes rest
          ∙ ap (λ j. part ++ drop j rest) {x = o - length bytes} {y = 0} (omega (arith, l)))
        ∙ take-append left part rest
        ∙ ap (λ j. take left part ++ take (left - j) rest) size in
      elim (Bool-cases (leb left (n - o))) [
        | inl fits ↦
            let m : min left (n - o) ≡ left = ground (arith, fits) in
            ap (λ m. take m part ++ take (left - m) rest) m
            ∙ ap (λ j. take left part ++ take j rest) {x = left - left} {y = left - (n - o)}
                (ground (arith, fits))
            ∙ sym split
        | inr over ↦
            let m : min left (n - o) ≡ n - o = ground (arith, over) in
            ap (λ m. take m part ++ take (left - m) rest) m
            ∙ ap (λ p. p ++ take (left - (n - o)) rest)
                (take_all (n - o) part (omega (arith, size))
                  ∙ sym (take_all left part (ground (arith, over, size))))
            ∙ sym split
      ]

  pub read_loop_lem :
      (fuel curr o left : ℕ) (cs : List ℕ)
      → IsChain fs d curr cs
      → o < fs.bytes_per_cluster
      → left ≤ fuel
      → read_loop fuel fs d curr o left ≡ some (take left (drop o (content fs d cs)))
  unfolding read_loop copied content
  read_loop_lem zero curr o left cs chain h f =
      let none_left : left ≡ 0 = omega arith in rw none_left refl
  read_loop_lem (suc fuel) curr o left [] chain h f =
      let stop : (ltb 0 left && is_data curr) ≡ false = ground (arith, no_data curr chain) in
      ground (arith, stop)
      ∙ sym
          (ap (λ xs. some (take left xs)) (drop_all o [] (omega arith)) ∙ ap some (take-nil ℕ left))
  read_loop_lem (suc fuel) curr o left (c ∷ cs) (e, k', chain) h f =
      elim (Bool-cases (ltb 0 left)) [
        | inr nothing ↦
            ground (arith, nothing)
            ∙ ap (λ n. some (take n (drop o (content fs d (c ∷ cs))))) {x = 0} {y = left}
                (ground (arith, nothing))
        | inl more ↦
            let bytes = sectors d fs.sectors_per_cluster (cluster_to_lba fs c) in
            let n = min left (fs.bytes_per_cluster - o) in
            let next = get_next_cluster fs d c in
            let rest = read_loop fuel fs d next 0 (left - n) in
            let buf =
              read_cluster d fs.sectors_per_cluster cluster_buf_sectors (cluster_to_lba fs c) in
            let go : (ltb 0 left && is_data c) ≡ true = ground (arith, more, in_range fs c v k') in
            let ih =
              read_loop_lem fuel next 0 (left - n) cs chain (omega arith)
                (ground (arith, more, h, f)) in
            ap (λ q. read_loop (suc fuel) fs d q o left) e
            ∙ ap (λ t. if t then copied buf o n rest else some []) go
            ∙ ap (λ b. copied b o n rest) (read_data c k')
            ∙ ap (Option.map (λ r. take n (drop o bytes) ++ r)) ih
            ∙ ap some (block bytes (content fs d cs) o left (length-cluster c) h)
      ]
