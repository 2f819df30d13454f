-- ===== src/Mm/Pmm/Free.antt =====
-- `pmm_free_frame` and `pmm_init`.
use zwei_os.Base.{
  ℕ, zero, suc, ◌+◌, ◌-◌, ◌/◌, ◌≤◌, ◌<◌, ◌≡◌, refl, sym, inl, inr, true, false, ◌&&◌, arith, leb,
  ltb, if◌then◌else◌,
}
use zwei_os.Mm.Pmm.{
  Frames, write_bit, page_size, total_frames, start_free_frame, clear_loop, pmm_init, take_frame,
  pmm_alloc_frame, pmm_free_frame, pmm_get_stats,
}
use zwei_os.Mm.Pmm.Count.{
  IsCounted, count_used-write_bit, count_used-pos, count_used-le, count_used-all,
}
use zwei_os.Mm.Pmm.Alloc.{pmm_alloc_frame-Outcome}

pub pmm_free_frame-IsCounted :
    (s : Frames) (addr : ℕ) → IsCounted s → IsCounted (pmm_free_frame s addr)
unfolding pmm_free_frame
pmm_free_frame-IsCounted s addr v = ground (
  arith,
  count_used-write_bit total_frames s.bitmap (addr / page_size) false,
  count_used-pos total_frames s.bitmap (addr / page_size),
)

-- Freeing an address a second time changes nothing.
pub pmm_free_frame_twice :
    (s : Frames) (addr : ℕ) → pmm_free_frame (pmm_free_frame s addr) addr ≡ pmm_free_frame s addr
unfolding pmm_free_frame
pmm_free_frame_twice s addr = ground arith

-- While some frame is free, freeing what `pmm_alloc_frame` returned undoes the allocation.
pub pmm_free_frame-alloc :
    (s : Frames) (g : ℕ)
    → g < total_frames
    → s.bitmap g ≡ false
    → let (addr, t) = pmm_alloc_frame s in
      let u = pmm_free_frame t addr in ((f : ℕ) → u.bitmap f ≡ s.bitmap f) × (u.used ≡ s.used)
unfolding pmm_free_frame take_frame
pmm_free_frame-alloc s g h free = elim (pmm_alloc_frame-Outcome s) [
  | inl (e, full) ↦ absurd (ground (arith, full g h))
  | inr (f, e, l) ↦ (λ k. ground (arith, e, l), ground (arith, e, l))
]

clear_loop_lem :
    (n f : ℕ) (s : Frames)
    → f + n ≤ total_frames
    → ((g : ℕ) → f ≤ g → s.bitmap g ≡ true)
    → IsCounted s
    → IsCounted (clear_loop n f s)
      × ((g : ℕ)
          → (clear_loop n f s).bitmap g ≡ (if leb f g && ltb g (f + n) then false else s.bitmap g))
unfolding clear_loop
clear_loop_lem zero f s h above v = (v, λ g. ground arith)
clear_loop_lem (suc n) f s h above v =
    let next : Frames = record { bitmap = write_bit s.bitmap f false; used = s.used - 1 } in
    let (w, bits) =
      clear_loop_lem n (f + 1) next (omega arith) (λ g k. ground (arith, above g))
        (ground (arith, above f, count_used-write_bit total_frames s.bitmap f false)) in
    (w, λ g. ground (arith, bits g, above f))

-- After `pmm_init` the frames from `start_free_frame` on are free, those before it are in use, and the
-- counter counts the bits.
pub pmm_init_lem :
    IsCounted pmm_init × ((g : ℕ) → g < total_frames → pmm_init.bitmap g ≡ ltb g start_free_frame)
unfolding pmm_init
pmm_init_lem =
    let (w, bits) =
      clear_loop_lem (total_frames - start_free_frame) start_free_frame
        (record { bitmap = λ f. true; used = total_frames }) (omega arith) (λ g h. refl)
        (record { counted = sym (count_used-all total_frames) }) in
    (w, λ g h. ground (arith, bits g))

-- With a right counter the reported used and free frames make up all frames.
pub pmm_get_stats_lem :
    (s : Frames) → IsCounted s → let (total, used, free) = pmm_get_stats s in used + free ≡ total
unfolding pmm_get_stats
pmm_get_stats_lem s v = ground (arith, count_used-le total_frames s.bitmap)
