-- ===== src/Net/Checksum.antt =====
-- `ipv4_checksum` of kernel/net/ipv4.cpp, which IPv4, ICMP, UDP and TCP use.
pub mod Sum
use zwei_os.Base.{ℕ, zero, suc, ◌+◌, ◌-◌, ◌*◌, ◌/◌, ◌%◌, ◌^◌, List, [], ◌∷◌, ◌==◌, if◌then◌else◌}

-- The sum of the 16-bit words in the byte order of the processor, in a uint32_t; an odd last byte counts
-- as a word.
pub sum_words : List ℕ → ℕ → ℕ
sum_words [] sum = sum
sum_words (a ∷ []) sum = (sum + a) % 2 ^ 32
sum_words (a ∷ b ∷ bytes) sum = sum_words bytes ((sum + (a + b * 256)) % 2 ^ 32)

-- `while (sum >> 16)`, on fuel.
pub fold_carry : ℕ → ℕ → ℕ
fold_carry zero sum = sum
fold_carry (suc fuel) sum =
    let rest = fold_carry fuel (sum % 65536 + sum / 65536) in if sum / 65536 == 0 then sum else rest

unfoldable pub ipv4_checksum : List ℕ → ℕ
unfolding sum_words fold_carry
ipv4_checksum bytes = (2 ^ 32 - 1 - fold_carry 3 (sum_words bytes 0)) % 65536
