-- ===== src/Strings.antt =====
-- kernel/lib/string.cpp, the copies, fills and comparisons of memory. Memory is a function from addresses to
-- bytes, and an assignment of eight bytes at once reads all of them before it writes.
pub mod Copy
pub mod Compare
mod Tests
use zwei_os.Base.{
  ℕ, zero, suc, ◌+◌, ◌-◌, ◌*◌, ◌/◌, ◌%◌, ◌&&◌, ℤ, pos, negsuc, ltb, leb, ◌==◌, if◌then◌else◌,
}

-- `k` bytes assigned at once, or what a copy of `k` bytes is to give.
abbrev pub block_copy : ℕ → ℕ → ℕ → (ℕ → ℕ) → ℕ → ℕ
block_copy k d s m a = if leb d a && ltb a (d + k) then m (s + (a - d)) else m a

-- The forward loops, with the rounds that are left: of qwords (`k` is 8) and of bytes (`k` is 1).
pub copy_loop : ℕ → ℕ → ℕ → ℕ → (ℕ → ℕ) → ℕ → ℕ
copy_loop k zero d s m = m
copy_loop k (suc left) d s m = copy_loop k left (d + k) (s + k) (block_copy k d s m)

pub memcpy : (ℕ → ℕ) → ℕ → ℕ → ℕ → ℕ → ℕ
memcpy m dest src count =
    let qwords = count / 8 in
    copy_loop 1 (count - qwords * 8) (dest + qwords * 8) (src + qwords * 8)
      (copy_loop 8 qwords dest src m)

-- The loop from the end.
pub back_loop : ℕ → ℕ → ℕ → (ℕ → ℕ) → ℕ → ℕ
back_loop zero d s m = m
back_loop (suc i) d s m = back_loop i d s (block_copy 1 (d + i) (s + i) m)

-- The forward branch is the body of `memcpy`.
pub memmove : (ℕ → ℕ) → ℕ → ℕ → ℕ → ℕ → ℕ
unfolding memcpy
memmove m dest src count =
    if ltb dest src
    then memcpy m dest src count
    else if ltb src dest
    then back_loop count dest src m
    else m

abbrev pub block_fill : ℕ → ℕ → ℕ → (ℕ → ℕ) → ℕ → ℕ
block_fill k d byte m a = if leb d a && ltb a (d + k) then byte else m a

pub fill_loop : ℕ → ℕ → ℕ → ℕ → (ℕ → ℕ) → ℕ → ℕ
fill_loop k zero d byte m = m
fill_loop k (suc left) d byte m = fill_loop k left (d + k) byte (block_fill k d byte m)

pub memset : (ℕ → ℕ) → ℕ → ℕ → ℕ → ℕ → ℕ
memset m dest val count =
    let byte = val % 256 in
    let qwords = count / 8 in
    fill_loop 1 (count - qwords * 8) (dest + qwords * 8) byte (fill_loop 8 qwords dest byte m)

-- The difference of two bytes, as an `int`.
pub difference : ℕ → ℕ → ℤ
difference x y = if leb y x then pos (x - y) else negsuc (y - x - 1)

pub memcmp : (ℕ → ℕ) → ℕ → ℕ → ℕ → ℤ
unfolding difference
memcmp m p1 p2 zero = pos 0
memcmp m p1 p2 (suc count) =
    let rest = memcmp m (p1 + 1) (p2 + 1) count in
    if m p1 == m p2 then rest else difference (m p1) (m p2)
