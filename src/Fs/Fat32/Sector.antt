-- ===== src/Fs/Fat32/Sector.antt =====
-- A table's entry within its sector.
use zwei_os.Base.{
  ℕ, ◌+◌, ◌/◌, ◌%◌, ◌^◌, ◌<◌, ◌≡◌, ◌≢◌, ap, ◌∙◌, List, arith, ◌==◌, if◌then◌else◌, length, set,
  length-set, get_or-set,
}
use zwei_os.Net.Bytes.{byte_at, le32_at}
use zwei_os.Fs.Fat32.{put32}

pub length-put32 : (bytes : List ℕ) (i v : ℕ) → length (put32 bytes i v) ≡ length bytes
unfolding put32
length-put32 bytes i v =
    let a = set bytes i (v % 256) in
    let b = set a (i + 1) (v / 256 % 256) in
    let c = set b (i + 2) (v / 65536 % 256) in
    length-set c (i + 3) (v / 16777216 % 256)
    ∙ length-set b (i + 2) (v / 65536 % 256)
    ∙ length-set a (i + 1) (v / 256 % 256)
    ∙ length-set bytes i (v % 256)

-- A byte of the array behind the write.
byte_at-put32 :
    (bytes : List ℕ) (i v j : ℕ)
    → i + 3 < length bytes
    → byte_at (put32 bytes i v) j ≡ (
        if i + 3 == j
        then v / 16777216 % 256
        else if i + 2 == j
        then v / 65536 % 256
        else if i + 1 == j
        then v / 256 % 256
        else if i == j
        then v % 256
        else byte_at bytes j)
unfolding put32
byte_at-put32 bytes i v j h =
    let a = set bytes i (v % 256) in
    let b = set a (i + 1) (v / 256 % 256) in
    let c = set b (i + 2) (v / 65536 % 256) in
    let la = length-set bytes i (v % 256) in
    let lb = length-set a (i + 1) (v / 256 % 256) in
    let lc = length-set b (i + 2) (v / 65536 % 256) in
    let p3 = get_or-set c (i + 3) j (v / 16777216 % 256) 0 (omega (arith, la, lb, lc)) in
    let p2 = get_or-set b (i + 2) j (v / 65536 % 256) 0 (omega (arith, la, lb)) in
    let p1 = get_or-set a (i + 1) j (v / 256 % 256) 0 (omega (arith, la)) in
    let p0 = get_or-set bytes i j (v % 256) 0 (omega arith) in
    p3
    ∙ ap (λ r. if i + 3 == j then v / 16777216 % 256 else r)
        (p2
          ∙ ap (λ r. if i + 2 == j then v / 65536 % 256 else r)
              (p1 ∙ ap (λ r. if i + 1 == j then v / 256 % 256 else r) p0))

pub le32_at-put32 :
    (bytes : List ℕ) (i v : ℕ) → i + 3 < length bytes → le32_at (put32 bytes i v) i ≡ v % 2 ^ 32
le32_at-put32 bytes i v h = ground (
  arith,
  byte_at-put32 bytes i v i h,
  byte_at-put32 bytes i v (i + 1) h,
  byte_at-put32 bytes i v (i + 2) h,
  byte_at-put32 bytes i v (i + 3) h,
)

-- Another entry.
pub le32_at-put32_ne :
    (bytes : List ℕ) (i j v : ℕ)
    → i + 3 < length bytes
    → i % 4 ≡ 0
    → j % 4 ≡ 0
    → i ≢ j
    → le32_at (put32 bytes i v) j ≡ le32_at bytes j
le32_at-put32_ne bytes i j v h hi hj ne = ground (
  arith,
  ne,
  byte_at-put32 bytes i v j h,
  byte_at-put32 bytes i v (j + 1) h,
  byte_at-put32 bytes i v (j + 2) h,
  byte_at-put32 bytes i v (j + 3) h,
)
