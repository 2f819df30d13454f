-- ===== src/Net/Checksum/Sum.antt =====
-- The checksum makes the sum of the whole come out as all ones.
use zwei_os.Base.{
  ℕ, zero, suc, ◌+◌, ◌-◌, ◌*◌, ◌/◌, ◌%◌, ◌^◌, ◌≤◌, ◌<◌, ◌≡◌, refl, ap, ◌∙◌, List, [], ◌∷◌, arith,
  ◌==◌, if◌then◌else◌, length,
}
use zwei_os.Net.Checksum.{sum_words, fold_carry, ipv4_checksum}

-- The sum without wrapping.
abbrev pub total : List ℕ → ℕ
total [] = 0
total (a ∷ []) = a
total (a ∷ b ∷ bytes) = a + b * 256 + total bytes

abbrev pub AreBytes : List ℕ → Type 0
AreBytes [] = Unit
AreBytes (a ∷ bytes) = (a < 256) × AreBytes bytes

pub total-le : (bytes : List ℕ) → AreBytes bytes → total bytes ≤ 65536 * length bytes
total-le [] h = omega arith
total-le (a ∷ []) h = omega arith
total-le (a ∷ b ∷ bytes) h = omega (arith, total-le bytes h.1.1)

-- Below 2^32 nothing wraps.
sum_words-eq-total :
    (bytes : List ℕ) (sum : ℕ)
    → sum + total bytes < 2 ^ 32
    → sum_words bytes sum ≡ sum + total bytes
unfolding sum_words
sum_words-eq-total [] sum h = omega arith
sum_words-eq-total (a ∷ []) sum h = omega arith
sum_words-eq-total (a ∷ b ∷ bytes) sum h =
    let here : (sum + (a + b * 256)) % 2 ^ 32 ≡ sum + (a + b * 256) = omega arith in
    ap (sum_words bytes) here
    ∙ sum_words-eq-total bytes (sum + (a + b * 256)) (omega arith)
    ∙ omega arith

-- The sum modulo 65535, where a sum that is not 0 does not become 0.
abbrev pub folded : ℕ → ℕ
folded sum = if sum == 0 then 0 else (sum - 1) % 65535 + 1

fold_carry_small : (fuel sum : ℕ) → sum < 65536 → fold_carry fuel sum ≡ sum
unfolding fold_carry
fold_carry_small zero sum h = refl
fold_carry_small (suc fuel) sum h = ground arith

fold_carry_once : (fuel sum : ℕ) → sum < 131071 → fold_carry (suc fuel) sum ≡ folded sum
unfolding fold_carry
fold_carry_once fuel sum h = ground (arith, fold_carry_small fuel (sum % 65536 + sum / 65536))

-- Two rounds fold every 32-bit sum: more fuel changes nothing.
pub fold_carry_lem : (fuel sum : ℕ) → sum < 2 ^ 32 → fold_carry (suc (suc fuel)) sum ≡ folded sum
unfolding fold_carry
fold_carry_lem fuel sum h = ground (arith, fold_carry_once fuel (sum % 65536 + sum / 65536))

-- The complement of a folded sum, added to the sum, folds to ones.
pub folded_complement : (sum : ℕ) → folded (sum + (65535 - folded sum)) ≡ 65535
folded_complement sum = ground arith

pub ipv4_checksum-eq :
    (bytes : List ℕ) → total bytes < 2 ^ 32 → ipv4_checksum bytes ≡ 65535 - folded (total bytes)
unfolding ipv4_checksum
ipv4_checksum-eq bytes h =
    let e : sum_words bytes 0 ≡ total bytes =
      sum_words-eq-total bytes 0 (omega arith) ∙ omega arith in
    let f = fold_carry_lem 1 (total bytes) h in
    ap (λ s. (2 ^ 32 - 1 - fold_carry 3 s) % 65536) e
    ∙ ap (λ s. (2 ^ 32 - 1 - s) % 65536) f
    ∙ ground arith

pub ipv4_checksum-lt : (bytes : List ℕ) → ipv4_checksum bytes < 65536
unfolding ipv4_checksum
ipv4_checksum-lt bytes = omega arith

-- A packet whose words sum to those of another with the other's checksum added has checksum 0.
pub ipv4_checksum-zero :
    (bytes bytes' : List ℕ)
    → total bytes + 65535 < 2 ^ 32
    → total bytes' ≡ total bytes + ipv4_checksum bytes
    → ipv4_checksum bytes' ≡ 0
ipv4_checksum-zero bytes bytes' h e =
    let c = ipv4_checksum-eq bytes (omega arith) in
    let b = ipv4_checksum-lt bytes in
    let f : folded (total bytes') ≡ 65535 =
      ap folded (e ∙ ap (λ c. total bytes + c) c) ∙ folded_complement (total bytes) in
    ipv4_checksum-eq bytes' (omega (arith, e, b)) ∙ ap (λ s. 65535 - s) f
