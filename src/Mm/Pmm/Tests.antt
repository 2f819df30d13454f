-- ===== src/Mm/Pmm/Tests.antt =====
-- The theorems on frames at a bitmap with three free frames.
use zwei_os.Base.{
  ℕ, ◌+◌, ◌*◌, ◌≤◌, ◌<◌, ◌≡◌, refl, ◌⊎◌, true, not, ◌||◌, ◌&&◌, List, [], ◌∷◌, arith, leb, ltb,
  ◌==◌, if◌then◌else◌,
}
use zwei_os.Mm.Pmm.{
  Frames, page_size, total_frames, first_clear, take_frame, alloc_loop, pmm_init, pmm_alloc_frame,
  pmm_alloc_contiguous_frames, pmm_free_frame, pmm_get_stats,
}
use zwei_os.Mm.Pmm.Count.{count_used}
use zwei_os.Mm.Pmm.Alloc.{IsLowest, pmm_alloc_frame_lem}
use zwei_os.Mm.Pmm.Run.{IsBlocked, FirstRun}
use zwei_os.Mm.Pmm.Contiguous.{pmm_alloc_contiguous_frames_lem}
use zwei_os.Mm.Pmm.Free.{pmm_free_frame-alloc}
use zwei_os.Mm.Pmm.History.{Call, alloc, free, run, pmm_get_stats-run}

-- The frames 70, 80 and 81 are free.
abbrev sample : Frames
sample = record { bitmap = λ f. not (f == 70 || (f == 80 || f == 81)); used = 32765 }

lowest : (pmm_alloc_frame sample).0 ≡ 70 * 4096
unfolding pmm_alloc_frame alloc_loop first_clear take_frame
lowest = refl

pmm_alloc_frame_lem_example :
    let (addr, t) = pmm_alloc_frame sample in
    ((addr ≡ 0) × (t ≡ sample) × ((g : ℕ) → g < total_frames → sample.bitmap g ≡ true))
    ⊎ ((f : ℕ) × (addr ≡ f * page_size)
        × IsLowest sample.bitmap f
        × ((g : ℕ) → t.bitmap g ≡ (if g == f then true else sample.bitmap g))
        × (t.used ≡ 32766))
pmm_alloc_frame_lem_example = pmm_alloc_frame_lem sample

pmm_alloc_contiguous_frames_lem_example :
    let (addr, t) = pmm_alloc_contiguous_frames sample 2 in
    ((addr ≡ 0) × (t ≡ sample) × ((a : ℕ) → a + 2 ≤ total_frames → IsBlocked sample.bitmap a 2))
    ⊎ ((start : ℕ) × (addr ≡ start * page_size)
        × FirstRun sample.bitmap 2 total_frames start
        × ((g : ℕ)
            → t.bitmap g ≡ (if leb start g && ltb g (start + 2) then true else sample.bitmap g))
        × (t.used ≡ 32767))
pmm_alloc_contiguous_frames_lem_example = pmm_alloc_contiguous_frames_lem sample 2 (omega arith)

pmm_free_frame-alloc_example :
    let (addr, t) = pmm_alloc_frame sample in
    let u = pmm_free_frame t addr in ((f : ℕ) → u.bitmap f ≡ sample.bitmap f) × (u.used ≡ 32765)
pmm_free_frame-alloc_example = pmm_free_frame-alloc sample 81 (omega arith) refl

abbrev calls : List Call
calls = alloc ∷ free 0 ∷ free 0 ∷ []

pmm_get_stats-run_example :
    let (total, used, free_frames) = pmm_get_stats (run pmm_init calls) in
    (used ≡ count_used total_frames (run pmm_init calls).bitmap) × (used + free_frames ≡ total)
pmm_get_stats-run_example = pmm_get_stats-run calls
