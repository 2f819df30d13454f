-- ===== src/Strings/Copy.antt =====
-- The loops in steps of eight bytes and of one copy byte for byte, overlapping or not.
use mathlib.Core.Path.{fun_ext}
use zwei_os.Base.{
  ℕ, zero, suc, ◌+◌, ◌-◌, ◌*◌, ◌/◌, ◌%◌, ◌≤◌, ◌<◌, ◌≡◌, ap, ◌∙◌, ◌⊎◌, inl, inr, arith, ltb, lt→ltb,
  false, dec_lt,
}
use zwei_os.Strings.{
  block_copy, copy_loop, memcpy, back_loop, memmove, block_fill, fill_loop, memset,
}

-- A forward copy of `n` bytes reads no byte that it has written.
abbrev IsForward : ℕ → ℕ → ℕ → Type 0
IsForward n d s = (d ≤ s) ⊎ (s + n ≤ d)

-- The bytes of `n` rounds.
span : ℕ → ℕ → ℕ
span k zero = 0
span k (suc n) = k + span k n

span_lem : (k n : ℕ) → span k n ≡ n * k
unfolding span
span_lem k zero = omega arith
span_lem k (suc n) = omega (arith, span_lem k n)

block_copy-add :
    (q r d s : ℕ) (m : ℕ → ℕ) (a : ℕ)
    → IsForward (q + r) d s
    → block_copy r (d + q) (s + q) (block_copy q d s m) a ≡ block_copy (q + r) d s m a
block_copy-add q r d s m a h = elim (dec_lt a (d + q)) [
  | yes l ↦ ground arith
  | no l ↦ elim (dec_lt a (d + q + r)) [
    | no l' ↦ ground arith
    | yes l' ↦
        let at : m (s + q + (a - (d + q))) ≡ m (s + (a - d)) = ap m (omega arith) in
        ground (arith, h, at)
  ]
]

block_copy-back :
    (i d s : ℕ) (m : ℕ → ℕ) (a : ℕ)
    → s < d
    → block_copy i d s (block_copy 1 (d + i) (s + i) m) a ≡ block_copy (suc i) d s m a
block_copy-back i d s m a h = ground arith

block_fill-add :
    (q r d byte : ℕ) (m : ℕ → ℕ) (a : ℕ)
    → block_fill r (d + q) byte (block_fill q d byte m) a ≡ block_fill (q + r) d byte m a
block_fill-add q r d byte m a = ground arith

copy_loop_lem :
    (k n d s : ℕ) (m : ℕ → ℕ)
    → IsForward (span k n) d s
    → copy_loop k n d s m ≡ block_copy (span k n) d s m
unfolding copy_loop span
copy_loop_lem k zero d s m h = fun_ext (λ a. ground arith)
copy_loop_lem k (suc n) d s m h =
    copy_loop_lem k n (d + k) (s + k) (block_copy k d s m) (ground (arith, h))
    ∙ fun_ext (λ a. block_copy-add k (span k n) d s m a h)

back_loop_lem : (n d s : ℕ) (m : ℕ → ℕ) → s < d → back_loop n d s m ≡ block_copy n d s m
unfolding back_loop
back_loop_lem zero d s m h = fun_ext (λ a. ground arith)
back_loop_lem (suc i) d s m h =
    back_loop_lem i d s (block_copy 1 (d + i) (s + i) m) h
    ∙ fun_ext (λ a. block_copy-back i d s m a h)

fill_loop_lem :
    (k n d byte : ℕ) (m : ℕ → ℕ) → fill_loop k n d byte m ≡ block_fill (span k n) d byte m
unfolding fill_loop span
fill_loop_lem k zero d byte m = fun_ext (λ a. ground arith)
fill_loop_lem k (suc n) d byte m =
    fill_loop_lem k n (d + k) byte (block_fill k d byte m)
    ∙ fun_ext (λ a. block_fill-add k (span k n) d byte m a)

-- A copy of eight bytes at a time and then of one gives the bytes that were there, unless the
-- destination begins within the source.
pub memcpy_lem :
    (m : ℕ → ℕ) (dest src count : ℕ)
    → (dest ≤ src) ⊎ (src + count ≤ dest)
    → memcpy m dest src count ≡ block_copy count dest src m
unfolding memcpy
memcpy_lem m dest src count h =
    let q = count / 8 in
    let r = count - count / 8 * 8 in
    let all : q * 8 + r ≡ count = omega arith in
    ap (copy_loop 1 r (dest + q * 8) (src + q * 8)) (
      copy_loop_lem 8 q dest src m (ground (arith, h, span_lem 8 q))
      ∙ ap (λ n. block_copy n dest src m) (span_lem 8 q))
    ∙ copy_loop_lem 1 r (dest + q * 8) (src + q * 8) (block_copy (q * 8) dest src m)
        (ground (arith, h, span_lem 1 r))
    ∙ ap (λ n. block_copy n (dest + q * 8) (src + q * 8) (block_copy (q * 8) dest src m))
        (span_lem 1 r ∙ omega arith)
    ∙ fun_ext (λ a. block_copy-add (q * 8) r dest src m a (ground (arith, h)))
    ∙ ap (λ n. block_copy n dest src m) all

block_copy_self : (n d s : ℕ) (m : ℕ → ℕ) (a : ℕ) → d ≡ s → m a ≡ block_copy n d s m a
block_copy_self n d s m a e = elim (dec_lt a d) [
  | yes l ↦ ground arith
  | no l ↦ let at : m (s + (a - d)) ≡ m a = ap m (omega (arith, e)) in ground arith
]

not_below : (a b : ℕ) → b ≤ a → ltb a b ≡ false
not_below a b h = ground arith

order : (a b : ℕ) → (a < b) ⊎ ((b < a) ⊎ (a ≡ b))
order a b = ground arith

-- A move gives the destination the bytes that the source held before, however the two overlap, and
-- changes nothing else.
pub memmove_lem :
    (m : ℕ → ℕ) (dest src count : ℕ) → memmove m dest src count ≡ block_copy count dest src m
unfolding memmove
memmove_lem m dest src count = elim (order dest src) [
  | inl l ↦ rw (lt→ltb dest src l) (memcpy_lem m dest src count (inl (omega arith)))
  | inr (inl l) ↦
      rw (not_below dest src (omega arith), lt→ltb src dest l) (back_loop_lem count dest src m l)
  | inr (inr e) ↦
      rw (not_below dest src (omega (arith, e)), not_below src dest (omega (arith, e)))
        (fun_ext (λ a. block_copy_self count dest src m a e))
]

-- A fill writes the low byte of the value to every address of the range, and nothing else.
pub memset_lem :
    (m : ℕ → ℕ) (dest val count : ℕ) → memset m dest val count ≡ block_fill count dest (val % 256) m
unfolding memset
memset_lem m dest val count =
    let q = count / 8 in
    let r = count - count / 8 * 8 in
    let byte = val % 256 in
    ap (fill_loop 1 r (dest + q * 8) byte)
      (fill_loop_lem 8 q dest byte m ∙ ap (λ n. block_fill n dest byte m) (span_lem 8 q))
    ∙ fill_loop_lem 1 r (dest + q * 8) byte (block_fill (q * 8) dest byte m)
    ∙ ap (λ n. block_fill n (dest + q * 8) byte (block_fill (q * 8) dest byte m))
        (span_lem 1 r ∙ omega arith)
    ∙ fun_ext (λ a. block_fill-add (q * 8) r dest byte m a)
    ∙ ap (λ n. block_fill n dest byte m) {x = q * 8 + r} {y = count} (omega arith)
