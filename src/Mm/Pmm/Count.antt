-- ===== src/Mm/Pmm/Count.antt =====
-- How many frames the bitmap marks as used.
use zwei_os.Base.{ℕ, zero, suc, ◌+◌, ◌≤◌, ◌<◌, ◌≡◌, refl, Bool, true, arith, if◌then◌else◌}
use zwei_os.Mm.Pmm.{Bitmap, Frames, write_bit, total_frames}

pub count_used : ℕ → Bitmap → ℕ
count_used zero bm = 0
count_used (suc n) bm = count_used n bm + (if bm n then 1 else 0)

-- The counter counts the bits.
pub record IsCounted (s : Frames) : Type 0 where
  pub counted : s.used ≡ count_used total_frames s.bitmap

count_used-write_past :
    (n : ℕ) (bm : Bitmap) (f : ℕ) (b : Bool)
    → n ≤ f
    → count_used n (write_bit bm f b) ≡ count_used n bm
unfolding count_used
count_used-write_past zero bm f b h = refl
count_used-write_past (suc n) bm f b h = ground (arith, count_used-write_past n bm f b)

-- A write inside takes the old bit out of the count and puts the new one in.
pub count_used-write_bit :
    (n : ℕ) (bm : Bitmap) (f : ℕ) (b : Bool)
    → f < n
    → count_used n (write_bit bm f b) + (if bm f then 1 else 0)
      ≡ count_used n bm + (if b then 1 else 0)
unfolding count_used
count_used-write_bit zero bm f b h = elim h [ ]
count_used-write_bit (suc n) bm f b h =
    ground (arith, count_used-write_past n bm f b, count_used-write_bit n bm f b)

pub count_used-le : (n : ℕ) (bm : Bitmap) → count_used n bm ≤ n
unfolding count_used
count_used-le zero bm = omega arith
count_used-le (suc n) bm = ground (arith, count_used-le n bm)

-- A frame in use is counted.
pub count_used-pos : (n : ℕ) (bm : Bitmap) (f : ℕ) → f < n → bm f ≡ true → 0 < count_used n bm
unfolding count_used
count_used-pos zero bm f h u = elim h [ ]
count_used-pos (suc n) bm f h u = ground (arith, count_used-pos n bm f)

pub count_used-all : (n : ℕ) → count_used n (λ f. true) ≡ n
unfolding count_used
count_used-all zero = refl
count_used-all (suc n) = omega (arith, count_used-all n)
