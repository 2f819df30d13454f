-- ===== src/Net/Bytes.antt =====
-- Packets as lists of bytes: the packed header structs with `htons` and `htonl` of
-- kernel/net/ethernet.hpp are numbers in network order; an IPv4 address keeps the byte order that it
-- has in memory.
use zwei_os.Base.{ℕ, ◌+◌, ◌*◌, ◌/◌, ◌%◌, ◌^◌, ◌<◌, ◌≡◌, refl, List, [], ◌∷◌, arith, get_or, length}

abbrev pub byte_at : List ℕ → ℕ → ℕ
byte_at bytes i = get_or bytes i 0

-- `ntohs` and `ntohl` of the field at `i`.
abbrev pub be16_at : List ℕ → ℕ → ℕ
be16_at bytes i = byte_at bytes i * 256 + byte_at bytes (i + 1)

abbrev pub be32_at : List ℕ → ℕ → ℕ
be32_at bytes i = be16_at bytes i * 65536 + be16_at bytes (i + 2)

-- A field in the byte order of the processor.
abbrev pub le32_at : List ℕ → ℕ → ℕ
le32_at bytes i =
    byte_at bytes i
    + byte_at bytes (i + 1) * 256
    + byte_at bytes (i + 2) * 65536
    + byte_at bytes (i + 3) * 16777216

-- `htons` and `htonl`, as bytes in memory.
abbrev pub be16 : ℕ → List ℕ
be16 w = (w / 256 % 256) ∷ (w % 256) ∷ []

abbrev pub be32 : ℕ → List ℕ
be32 w = (w / 16777216 % 256) ∷ (w / 65536 % 256) ∷ (w / 256 % 256) ∷ (w % 256) ∷ []

abbrev pub le32 : ℕ → List ℕ
le32 w = (w % 256) ∷ (w / 256 % 256) ∷ (w / 65536 % 256) ∷ (w / 16777216 % 256) ∷ []

abbrev pub le16 : ℕ → List ℕ
le16 w = (w % 256) ∷ (w / 256 % 256) ∷ []

-- The bytes of a list of six.
pub six_bytes :
    (mac : List ℕ) → length mac ≡ 6 → (a b c d e f : ℕ) × (mac ≡ a ∷ b ∷ c ∷ d ∷ e ∷ f ∷ [])
six_bytes (a ∷ b ∷ c ∷ d ∷ e ∷ f ∷ []) h = (a, b, c, d, e, f, refl)
six_bytes [] h = absurd (omega arith)
six_bytes (a ∷ []) h = absurd (omega arith)
six_bytes (a ∷ b ∷ []) h = absurd (omega arith)
six_bytes (a ∷ b ∷ c ∷ []) h = absurd (omega arith)
six_bytes (a ∷ b ∷ c ∷ d ∷ []) h = absurd (omega arith)
six_bytes (a ∷ b ∷ c ∷ d ∷ e ∷ []) h = absurd (omega arith)
six_bytes (a ∷ b ∷ c ∷ d ∷ e ∷ f ∷ g ∷ r) h = absurd (omega arith)

pub le32_lem : (w : ℕ) → w < 2 ^ 32 → le32_at (le32 w) 0 ≡ w
le32_lem w h = omega arith

pub be16_lem : (w : ℕ) → w < 65536 → be16_at (be16 w) 0 ≡ w
be16_lem w h = omega arith
