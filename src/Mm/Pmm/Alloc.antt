-- ===== src/Mm/Pmm/Alloc.antt =====
-- `pmm_alloc_frame`: the lowest free frame.
use zwei_os.Base.{
  ℕ, zero, suc, ◌+◌, ◌-◌, ◌*◌, ◌≤◌, ◌<◌, ◌≡◌, refl, subst, ◌⊎◌, inl, inr, Bool, true, false, none,
  some, arith, ◌==◌, if◌then◌else◌, Option-cases, Bool-cases, dec_lt,
}
use zwei_os.Mm.Pmm.{
  Bitmap, Frames, page_size, total_frames, bitmap_words, first_clear, take_frame, alloc_loop,
  pmm_alloc_frame,
}
use zwei_os.Mm.Pmm.Count.{IsCounted, count_used-write_bit}

-- What the scan of a word finds: its lowest clear bit, or that it is all ones.
first_clear_lem :
    (n : ℕ) (bm : Bitmap) (f b c : ℕ)
    → first_clear n bm f b ≡ some c
    → (b ≤ c) × (c < b + n) × (bm (f + c) ≡ false) × ((j : ℕ) → b ≤ j → j < c → bm (f + j) ≡ true)
unfolding first_clear
first_clear_lem zero bm f b c e = cc
first_clear_lem (suc n) bm f b c e = elim (Bool-cases (bm (f + b))) [
  | inl u ↦
      let (lo, hi, free, below) = first_clear_lem n bm f (b + 1) c (ground (arith, e, u)) in
      (
        omega arith,
        omega arith,
        free,
        λ j h k. elim (dec_lt b j) [
          | yes past ↦ below j (omega arith) k
          | no here ↦ subst (λ i. bm (f + i) ≡ true) {x = b} {y = j} (omega arith) u
        ],
      )
  | inr c' ↦
      let here : b ≡ c = ground (arith, e, c') in
      (
        omega arith,
        omega arith,
        subst (λ i. bm (f + i) ≡ false) here c',
        λ j h k. absurd (omega arith),
      )
]

first_clear-none :
    (n : ℕ) (bm : Bitmap) (f b : ℕ)
    → first_clear n bm f b ≡ none
    → (j : ℕ) → b ≤ j
    → j < b + n
    → bm (f + j) ≡ true
unfolding first_clear
first_clear-none zero bm f b e j lo hi = absurd (omega arith)
first_clear-none (suc n) bm f b e j lo hi = elim (Bool-cases (bm (f + b))) [
  | inl u ↦ elim (dec_lt b j) [
    | yes past ↦
        first_clear-none n bm f (b + 1) (ground (arith, e, u)) j (omega arith) (omega arith)
    | no here ↦ subst (λ i. bm (f + i) ≡ true) {x = b} {y = j} (omega arith) u
  ]
  | inr c ↦ absurd (ground (arith, e, c))
]

-- `f` is the lowest frame that is free.
pub record IsLowest (bm : Bitmap) (f : ℕ) : Type 0 where
  pub inside : f < total_frames
  pub free : bm f ≡ false
  pub below : (g : ℕ) → g < f → bm g ≡ true

-- The outcome of an allocation: the lowest free frame, or none.
abbrev pub Outcome : Frames → ℕ × Frames → Type 0
Outcome s out =
    ((out ≡ (0, s)) × ((g : ℕ) → g < total_frames → s.bitmap g ≡ true))
    ⊎ ((f : ℕ) × (out ≡ take_frame s f) × IsLowest s.bitmap f)

at_bit : (bm : Bitmap) (f g : ℕ) (b : Bool) → f ≤ g → bm (f + (g - f)) ≡ b → bm g ≡ b
at_bit bm f g b h e = subst (λ i. bm i ≡ b) {x = f + (g - f)} (omega arith) e

alloc_loop-Outcome :
    (n w : ℕ) (s : Frames)
    → w + n ≡ bitmap_words
    → ((g : ℕ) → g < w * 64 → s.bitmap g ≡ true)
    → Outcome s (alloc_loop n w s)
unfolding alloc_loop
alloc_loop-Outcome zero w s e below = inl (refl, λ g h. below g (omega arith))
alloc_loop-Outcome (suc n) w s e below = elim (Option-cases (first_clear 64 s.bitmap (w * 64) 0)) [
  | inl full ↦
      rw (full, alloc_loop)
        (alloc_loop-Outcome n (w + 1) s (omega arith) λ g h. elim (dec_lt g (w * 64)) [
          | yes before ↦ below g before
          | no here ↦ at_bit s.bitmap (w * 64) g true (omega arith) (
              first_clear-none 64 s.bitmap (w * 64) 0 full (g - w * 64) (omega arith) (omega arith))
        ])
  | inr (b, found) ↦
      let (lo, hi, free, first) = first_clear_lem 64 s.bitmap (w * 64) 0 b found in
      rw (found, alloc_loop)
        (inr (
          w * 64 + b,
          refl,
          record {
            inside = omega arith;
            free = free;
            below = λ g h. elim (dec_lt g (w * 64)) [
              | yes before ↦ below g before
              | no here ↦
                  at_bit s.bitmap (w * 64) g true (omega arith)
                    (first (g - w * 64) (omega arith) (omega arith))
            ];
          },
        ))
]

pub pmm_alloc_frame-Outcome : (s : Frames) → Outcome s (pmm_alloc_frame s)
unfolding pmm_alloc_frame
pmm_alloc_frame-Outcome s = alloc_loop-Outcome bitmap_words 0 s refl (λ g h. absurd (omega arith))

take_frame-IsCounted :
    (s : Frames) (f : ℕ) → IsLowest s.bitmap f → IsCounted s → IsCounted (take_frame s f).1
unfolding take_frame
take_frame-IsCounted s f l v = ground (arith, count_used-write_bit total_frames s.bitmap f true)

pub pmm_alloc_frame-IsCounted : (s : Frames) → IsCounted s → IsCounted (pmm_alloc_frame s).1
pmm_alloc_frame-IsCounted s v = elim (pmm_alloc_frame-Outcome s) [
  | inl (e, full) ↦ rw e v
  | inr (f, e, l) ↦ rw e (take_frame-IsCounted s f l v)
]

-- If every frame is in use, `pmm_alloc_frame` returns 0 and changes nothing. If not, it returns the
-- address of the lowest free frame, marks that one and no other, and counts it.
pub pmm_alloc_frame_lem :
    (s : Frames)
    → let (addr, t) = pmm_alloc_frame s in
      ((addr ≡ 0) × (t ≡ s) × ((g : ℕ) → g < total_frames → s.bitmap g ≡ true))
      ⊎ ((f : ℕ) × (addr ≡ f * page_size)
          × IsLowest s.bitmap f
          × ((g : ℕ) → t.bitmap g ≡ (if g == f then true else s.bitmap g))
          × (t.used ≡ s.used + 1))
unfolding take_frame
pmm_alloc_frame_lem s = elim (pmm_alloc_frame-Outcome s) [
  | inl (e, full) ↦ inl (ground (arith, e), ground (arith, e), full)
  | inr (f, e, l) ↦ inr (f, ground (arith, e), l, λ g. ground (arith, e), ground (arith, e))
]
