-- ===== src/Mm/Pmm.antt =====
-- kernel/mm/pmm.cpp: the bitmap of page frames. The bitmap is a function: bit `f % 64` of word
-- `f / 64` is its value at `f`. Each loop is a recursion on the rounds that it has left.
pub mod Count
pub mod Alloc
pub mod Run
pub mod Contiguous
pub mod Free
pub mod History
mod Tests
use zwei_os.Base.{
  ℕ, zero, suc, ◌+◌, ◌-◌, ◌*◌, ◌/◌, ◌%◌, Bool, true, false, not, Option, none, some, ltb, leb, ◌==◌,
  if◌then◌else◌,
}

abbrev pub page_size : ℕ
page_size = 4096

abbrev pub total_frames : ℕ
total_frames = 32768

abbrev pub bitmap_words : ℕ
bitmap_words = 512

abbrev pub Bitmap : Type 0
Bitmap = ℕ → Bool

-- `frame_bitmap` and `used_frames_count`; `total_frames_count` is never changed.
pub record Frames : Type 0 where
  pub bitmap : Bitmap
  pub used : ℕ

abbrev pub write_bit : Bitmap → ℕ → Bool → Bitmap
write_bit bm f b g = if g == f then b else bm g

-- Marks `count` frames from `f` on as free, or as used; each one counts.
pub clear_loop : ℕ → ℕ → Frames → Frames
clear_loop zero f s = s
clear_loop (suc n) f s =
    clear_loop n (f + 1) (record { bitmap = write_bit s.bitmap f false; used = s.used - 1 })

pub mark_loop : ℕ → ℕ → Frames → Frames
mark_loop zero f s = s
mark_loop (suc n) f s =
    mark_loop n (f + 1) (record { bitmap = write_bit s.bitmap f true; used = s.used + 1 })

-- The first frame after the kernel image.
abbrev pub start_free_frame : ℕ
start_free_frame = 3584

pub pmm_init : Frames
pmm_init =
    clear_loop (total_frames - start_free_frame) start_free_frame
      (record { bitmap = λ f. true; used = total_frames })

-- `__builtin_ctzll(~word)` for the word of the bits from `f` on, `n` of them from bit `b`; `none`
-- if they are all ones.
pub first_clear : ℕ → Bitmap → ℕ → ℕ → Option ℕ
first_clear zero bm f b = none
first_clear (suc n) bm f b =
    let rest = first_clear n bm f (b + 1) in if bm (f + b) then rest else some b

unfoldable pub take_frame : Frames → ℕ → ℕ × Frames
take_frame s f = (f * page_size, record { bitmap = write_bit s.bitmap f true; used = s.used + 1 })

-- The address, or 0 if no frame is free.
unfoldable pub alloc_loop : ℕ → ℕ → Frames → ℕ × Frames
unfolding take_frame
alloc_loop zero w s = (0, s)
alloc_loop (suc n) w s =
    let rest = alloc_loop n (w + 1) s in
    elim (first_clear 64 s.bitmap (w * 64) 0) [ none ↦ rest | some b ↦ take_frame s (w * 64 + b) ]

unfoldable pub pmm_alloc_frame : Frames → ℕ × Frames
pmm_alloc_frame s = alloc_loop bitmap_words 0 s

-- The search of `pmm_alloc_contiguous_frames` at frame `f`, in a run of `consecutive` free frames
-- that began at `start`.
pub search_loop : ℕ → ℕ → Bitmap → ℕ → ℕ → ℕ → Option ℕ
search_loop zero count bm f consecutive start = none
search_loop (suc n) count bm f consecutive start =
    let start' = if consecutive == 0 then f else start in
    let on = search_loop n count bm (f + 1) (consecutive + 1) start' in
    let over = search_loop n count bm (f + 1) 0 start in
    if not (bm f) then (if consecutive + 1 == count then some start' else on) else over

pub pmm_alloc_contiguous_frames : Frames → ℕ → ℕ × Frames
pmm_alloc_contiguous_frames s count =
    if count == 0
    then (0, s)
    else if count == 1
    then pmm_alloc_frame s
    else elim (search_loop total_frames count s.bitmap 0 0 0) [
      | none ↦ (0, s)
      | some start ↦ (start * page_size, mark_loop count start s)
    ]

pub pmm_free_frame : Frames → ℕ → Frames
pmm_free_frame s phys_addr =
    let f = phys_addr / page_size in
    if leb total_frames f
    then s
    else if s.bitmap f
    then record {
      bitmap = write_bit s.bitmap f false;
      used = if ltb 0 s.used then s.used - 1 else s.used;
    }
    else s

-- Total, used and free frames.
pub pmm_get_stats : Frames → ℕ × ℕ × ℕ
pmm_get_stats s =
    (total_frames, s.used, if leb s.used total_frames then total_frames - s.used else 0)
