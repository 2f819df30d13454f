-- ===== src/Mm/Pmm/History.antt =====
-- Histories of calls on the frame bitmap, from the state that `pmm_init` leaves.
use zwei_os.Base.{ℕ, ◌+◌, ◌≡◌, List, [], ◌∷◌}
use zwei_os.Mm.Pmm.{
  Frames, pmm_init, pmm_alloc_frame, pmm_alloc_contiguous_frames, pmm_free_frame, pmm_get_stats,
  total_frames,
}
use zwei_os.Mm.Pmm.Count.{IsCounted, count_used}
use zwei_os.Mm.Pmm.Alloc.{pmm_alloc_frame-IsCounted}
use zwei_os.Mm.Pmm.Contiguous.{pmm_alloc_contiguous_frames-IsCounted}
use zwei_os.Mm.Pmm.Free.{pmm_free_frame-IsCounted, pmm_init_lem, pmm_get_stats_lem}

pub data Call : Type 0 where
  alloc : Call
  alloc_run : ℕ → Call
  free : ℕ → Call

pub step : Frames → Call → Frames
step s alloc = (pmm_alloc_frame s).1
step s (alloc_run count) = (pmm_alloc_contiguous_frames s count).1
step s (free addr) = pmm_free_frame s addr

pub run : Frames → List Call → Frames
run s [] = s
run s (c ∷ cs) = run (step s c) cs

step-IsCounted : (s : Frames) (c : Call) → IsCounted s → IsCounted (step s c)
unfolding step
step-IsCounted s alloc v = pmm_alloc_frame-IsCounted s v
step-IsCounted s (alloc_run count) v = pmm_alloc_contiguous_frames-IsCounted s count v
step-IsCounted s (free addr) v = pmm_free_frame-IsCounted s addr v

run-IsCounted : (s : Frames) (cs : List Call) → IsCounted s → IsCounted (run s cs)
unfolding run
run-IsCounted s [] v = v
run-IsCounted s (c ∷ cs) v = run-IsCounted (step s c) cs (step-IsCounted s c v)

-- After any history of allocations and frees of any addresses, `pmm_get_stats` reports as used the
-- number of frames whose bit is set, and used and free frames make up all 32768.
pub pmm_get_stats-run :
    (cs : List Call)
    → let (total, used, free_frames) = pmm_get_stats (run pmm_init cs) in
      (used ≡ count_used total_frames (run pmm_init cs).bitmap) × (used + free_frames ≡ total)
unfolding pmm_get_stats
pmm_get_stats-run cs =
    let v = run-IsCounted pmm_init cs pmm_init_lem.0 in
    (v.counted, pmm_get_stats_lem (run pmm_init cs) v)
