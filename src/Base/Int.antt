-- ===== src/Base/Int.antt =====
-- C's signed results: a value, or a negative error code.
use Prim.Native.Nat.{ℕ, ◌-◌, ◌%◌, ◌^◌}
use zwei_os.Base.Tests.{ltb, if◌then◌else◌}

-- `negsuc n` is -(n + 1).
pub data ℤ : Type 0 where
  pos : ℕ → ℤ
  negsuc : ℕ → ℤ

-- `static_cast<int>`
unfoldable pub to_int : ℕ → ℤ
to_int n = let r = n % 2 ^ 32 in if ltb r (2 ^ 31) then pos r else negsuc (2 ^ 32 - 1 - r)
