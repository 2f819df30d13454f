-- ===== src/Fs/Fat32/Clear.antt =====
-- A new cluster is filled with zeros.
use native.Mathlib.Nat.{mul-le-mul_right, suc-mul}
use zwei_os.Base.{
  ℕ, zero, suc, ◌+◌, ◌-◌, ◌*◌, ◌%◌, ◌^◌, ◌≤◌, ◌<◌, ◌≡◌, ◌≢◌, refl, ap, sym, subst, ◌∙◌, inl, inr,
  Bool, true, false, List, arith, ◌==◌, if◌then◌else◌, replicate, length-replicate, Bool-cases,
  ne→==,
}
use zwei_os.Fs.Fat32.{Disk, store, write_sector, Fat32Instance, cluster_to_lba, clear_loop}
use zwei_os.Fs.Fat32.Table.{IsVolume, IsWhole, IsWhole-store, IsCluster}

-- The sectors from `lba` on are zeros, and no other has changed.
pub record IsCleared (lba n : ℕ) (d d' : Disk) : Type 0 where
  pub intact : IsWhole d'
  pub zeros : (l : ℕ) → lba ≤ l → l < lba + n → d'.sector l ≡ replicate 512 0
  pub before : (l : ℕ) → l < lba → d'.sector l ≡ d.sector l
  pub behind : (l : ℕ) → lba + n ≤ l → d'.sector l ≡ d.sector l

pub clear_loop_lem :
    (n lba : ℕ) (d : Disk) → IsWhole d → lba + n < 2 ^ 32 → IsCleared lba n d (clear_loop n lba d)
unfolding clear_loop
clear_loop_lem zero lba d w h = record {
  intact = w;
  zeros = λ l a b. absurd (omega (arith, a, b));
  before = λ l b. refl;
  behind = λ l b. refl;
}
clear_loop_lem (suc n) lba d w h =
    let blank : List ℕ = replicate 512 0 in
    let d' = store d lba blank in
    let w' = IsWhole-store d lba blank w (length-replicate {A = ℕ} 512 0) in
    let one : (write_sector d (lba % 2 ^ 32) blank).1 ≡ d' =
      ap (λ l. (write_sector d l blank).1) {x = lba % 2 ^ 32} {y = lba} (omega arith)
      ∙ ap (λ (r : Bool × Disk). r.1)
          (ap (λ t. if t then (false, d) else (true, d')) (w.good lba)) in
    let r = clear_loop_lem n (lba + 1) d' w' (omega arith) in
    let other : (l : ℕ) → l ≢ lba → d'.sector l ≡ d.sector l =
      λ l ne. ap (λ t. if t then blank else d.sector l) (ne→== l lba ne) in
    let all : IsCleared lba (suc n) d (clear_loop n (lba + 1) d') = record {
      intact = r.intact;
      zeros = λ l a b. elim (Bool-cases (l == lba)) [
        | inl e ↦ r.before l (ground (arith, e)) ∙ ap (λ t. if t then blank else d.sector l) e
        | inr ne ↦ r.zeros l (ground (arith, ne, a)) (omega (arith, b))
      ];
      before = λ l b. r.before l (omega (arith, b)) ∙ other l (λ q. absurd (omega (arith, q, b)));
      behind = λ l b. r.behind l (omega (arith, b)) ∙ other l (λ q. absurd (omega (arith, q, b)));
    } in
    subst (IsCleared lba (suc n) d) (sym (ap (clear_loop n (lba + 1)) one)) all

-- The first of a cluster's sectors, and the one behind it.
pub cluster_sectors :
    (fs : Fat32Instance) (c : ℕ)
    → IsVolume fs
    → IsCluster fs c
    → (cluster_to_lba fs c ≡ fs.data_start_lba + (c - 2) * fs.sectors_per_cluster)
      × (fs.data_start_lba + (c - 2) * fs.sectors_per_cluster + fs.sectors_per_cluster < 2 ^ 32)
unfolding cluster_to_lba
cluster_sectors fs c v h =
    let n : (c + 2 ^ 32 - 2) % 2 ^ 32 ≡ c - 2 = omega (arith, h, v.bounded) in
    let below : (c - 2) * fs.sectors_per_cluster + fs.sectors_per_cluster
        ≤ fs.fat_size_sectors * 128 * fs.sectors_per_cluster =
      omega (
        arith,
        mul-le-mul_right {m = suc (c - 2)} {n = fs.fat_size_sectors * 128} fs.sectors_per_cluster
            (omega (arith, h)),
        suc-mul (c - 2) fs.sectors_per_cluster,
      ) in
    (
      ap (λ n. (fs.data_start_lba + n * fs.sectors_per_cluster) % 2 ^ 32) n
          ∙ omega (arith, below, v.room),
      omega (arith, below, v.room),
    )
