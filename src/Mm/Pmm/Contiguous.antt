-- ===== src/Mm/Pmm/Contiguous.antt =====
-- `pmm_alloc_contiguous_frames`: the first run of frames that is long enough, or none.
use zwei_os.Base.{
  ℕ, zero, suc, ◌+◌, ◌*◌, ◌≤◌, ◌<◌, ◌≡◌, subst, ◌⊎◌, inl, inr, true, false, ◌&&◌, arith, leb, ltb,
  if◌then◌else◌, ℕ_discrete,
}
use zwei_os.Mm.Pmm.{
  Bitmap, Frames, write_bit, page_size, total_frames, mark_loop, take_frame,
  pmm_alloc_contiguous_frames,
}
use zwei_os.Mm.Pmm.Count.{IsCounted, count_used-write_bit}
use zwei_os.Mm.Pmm.Alloc.{IsLowest, pmm_alloc_frame-Outcome, pmm_alloc_frame-IsCounted}
use zwei_os.Mm.Pmm.Run.{IsFree, IsBlocked, FirstRun, search_loop_lem}

-- Frames that were free are marked and counted, and nothing else is touched.
mark_loop_lem :
    (n f : ℕ) (s : Frames)
    → (mark_loop n f s).used ≡ s.used + n
      × ((g : ℕ)
          → (mark_loop n f s).bitmap g ≡ (if leb f g && ltb g (f + n) then true else s.bitmap g))
unfolding mark_loop
mark_loop_lem zero f s = (omega arith, λ g. ground arith)
mark_loop_lem (suc n) f s =
    let next : Frames = record { bitmap = write_bit s.bitmap f true; used = s.used + 1 } in
    let (used, bits) = mark_loop_lem n (f + 1) next in
    (omega (arith, used), λ g. ground (arith, bits g))

mark_loop-IsCounted :
    (n f : ℕ) (s : Frames)
    → f + n ≤ total_frames
    → IsFree s.bitmap f n
    → IsCounted s
    → IsCounted (mark_loop n f s)
unfolding mark_loop
mark_loop-IsCounted zero f s h free v = v
mark_loop-IsCounted (suc n) f s h free v =
    mark_loop-IsCounted n (f + 1) (record { bitmap = write_bit s.bitmap f true; used = s.used + 1 })
      (omega arith) (λ g lo hi. ground (arith, free g))
      (ground (arith, free f, count_used-write_bit total_frames s.bitmap f true))

lowest_run :
    (bm : Bitmap) (f count : ℕ) → IsLowest bm f → count ≡ 1 → FirstRun bm count total_frames f
lowest_run bm f count l one = record {
  inside = omega (arith, l.inside);
  free = λ g lo hi. subst (λ i. bm i ≡ false) {x = f} {y = g} (omega arith) l.free;
  first = λ a h. (a, omega arith, omega arith, l.below a h);
}

-- For a number of frames that is not 0: either some frame of every run of that length is in use, and
-- 0 is returned and nothing changes; or the address of the first free run of that length is
-- returned, and exactly the frames of that run are marked and counted.
pub pmm_alloc_contiguous_frames_lem :
    (s : Frames) (count : ℕ)
    → 0 < count
    → let (addr, t) = pmm_alloc_contiguous_frames s count in
      ((addr ≡ 0) × (t ≡ s) × ((a : ℕ) → a + count ≤ total_frames → IsBlocked s.bitmap a count))
      ⊎ ((start : ℕ) × (addr ≡ start * page_size)
          × FirstRun s.bitmap count total_frames start
          × ((g : ℕ)
              → t.bitmap g ≡ (if leb start g && ltb g (start + count) then true else s.bitmap g))
          × (t.used ≡ s.used + count))
unfolding pmm_alloc_contiguous_frames take_frame
pmm_alloc_contiguous_frames_lem s count h = elim (ℕ_discrete count 1) [
  | yes one ↦ elim (pmm_alloc_frame-Outcome s) [
    | inl (e, full) ↦ inl (
      ground (arith, e),
      ground (arith, e),
      λ a k. (a, omega arith, omega arith, full a (omega arith)),
    )
    | inr (f, e, l) ↦ inr (
      f,
      ground (arith, e),
      lowest_run s.bitmap f count l one,
      λ g. ground (arith, e),
      ground (arith, e),
    )
  ]
  | no more ↦ elim (search_loop_lem total_frames count s.bitmap h) [
    | inl (e, blocked) ↦ inl (ground (arith, e), ground (arith, e), blocked)
    | inr (start, e, first) ↦
        let (used, bits) = mark_loop_lem count start s in
        inr
          (start, ground (arith, e), first, λ g. ground (arith, e, bits g), ground (arith, e, used))
  ]
]

pub pmm_alloc_contiguous_frames-IsCounted :
    (s : Frames) (count : ℕ) → IsCounted s → IsCounted (pmm_alloc_contiguous_frames s count).1
unfolding pmm_alloc_contiguous_frames
pmm_alloc_contiguous_frames-IsCounted s zero v = v
pmm_alloc_contiguous_frames-IsCounted s (suc n) v =
    elim (search_loop_lem total_frames (suc n) s.bitmap (omega arith)) [
      | inl (e, blocked) ↦ ground (arith, e, pmm_alloc_frame-IsCounted s v)
      | inr (start, e, first) ↦ ground (
        arith,
        e,
        pmm_alloc_frame-IsCounted s v,
        mark_loop-IsCounted (suc n) start s first.inside first.free v,
      )
    ]
