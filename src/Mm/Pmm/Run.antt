-- ===== src/Mm/Pmm/Run.antt =====
-- The search of `pmm_alloc_contiguous_frames`: the first run of free frames that is long enough.
use zwei_os.Base.{
  ℕ, zero, suc, ◌+◌, ◌-◌, ◌≤◌, ◌<◌, ◌≡◌, refl, subst, ◌≢◌, ◌⊎◌, inl, inr, true, false, none, some,
  arith, ◌==◌, if◌then◌else◌, Bool-cases, Option-cases, dec_lt, ℕ_discrete,
}
use zwei_os.Mm.Pmm.{Bitmap, search_loop}

-- The `count` frames from `start` on are free.
abbrev pub IsFree : Bitmap → ℕ → ℕ → Type 0
IsFree bm start count = (g : ℕ) → start ≤ g → g < start + count → bm g ≡ false

-- Of the `count` frames from `start` on one is in use.
abbrev pub IsBlocked : Bitmap → ℕ → ℕ → Type 0
IsBlocked bm start count = (g : ℕ) × (start ≤ g) × (g < start + count) × (bm g ≡ true)

-- The loop at frame `f`: the longest run of free frames that ends there has `consecutive` frames and
-- is too short, and every long enough run before is blocked.
record Searched (bm : Bitmap) (count f consecutive start : ℕ) : Type 0 where
  short : consecutive < count
  fits : consecutive ≤ f
  run : IsFree bm (f - consecutive) consecutive
  begin : consecutive ≢ 0 → start + consecutive ≡ f
  edge : (f ≡ consecutive) ⊎ ((consecutive < f) × (bm (f - consecutive - 1) ≡ true))
  blocked : (a : ℕ) → a + count ≤ f → IsBlocked bm a count

module _ (bm : Bitmap) (count f consecutive start : ℕ)
    (v : Searched bm count f consecutive start) where
  run_on : bm f ≡ false → IsFree bm (f - consecutive) (consecutive + 1)
  run_on e g lo hi = elim (dec_lt g f) [
    | yes before ↦ v.run g lo (omega (arith, v.fits))
    | no at ↦ subst (λ i. bm i ≡ false) {x = f} {y = g} (omega (arith, v.fits)) e
  ]

  -- A run that ends behind `f` and is longer than the current one begins before its edge.
  still-IsBlocked : consecutive + 1 < count → (a : ℕ) → a + count ≤ f + 1 → IsBlocked bm a count
  still-IsBlocked short a h = elim (dec_lt f (a + count)) [
    | yes last ↦ elim v.edge [
      | inl e ↦ absurd (omega arith)
      | inr (lt, u) ↦ (f - consecutive - 1, omega arith, omega arith, u)
    ]
    | no earlier ↦ v.blocked a (omega arith)
  ]

  on-Searched :
      bm f ≡ false
      → consecutive + 1 ≢ count
      → Searched bm count (f + 1) (consecutive + 1) (if consecutive == 0 then f else start)
  on-Searched e ne = record {
    short = omega (arith, v.short);
    fits = omega (arith, v.fits);
    run = subst (λ i. IsFree bm i (consecutive + 1)) {x = f - consecutive} (omega arith) (run_on e);
    begin = λ n. ground (arith, v.begin);
    edge = elim v.edge [
      | inl at ↦ inl (omega arith)
      | inr (lt, u) ↦
          inr (omega arith, subst (λ i. bm i ≡ true) {x = f - consecutive - 1} (omega arith) u)
    ];
    blocked = still-IsBlocked (omega (arith, v.short));
  }

  over-Searched : bm f ≡ true → Searched bm count (f + 1) 0 start
  over-Searched e = record {
    short = omega (arith, v.short);
    fits = omega arith;
    run = λ g lo hi. absurd (omega arith);
    begin = λ n. absurd (n refl);
    edge = inr (omega arith, subst (λ i. bm i ≡ true) {x = f} (omega arith) e);
    blocked = λ a h. elim (dec_lt f (a + count)) [
      | yes last ↦ (f, omega (arith, v.short), omega arith, e)
      | no earlier ↦ v.blocked a (omega arith)
    ];
  }

-- What the search finds among the frames below `bound`: the first free run, or that there is none.
pub record FirstRun (bm : Bitmap) (count bound start : ℕ) : Type 0 where
  pub inside : start + count ≤ bound
  pub free : IsFree bm start count
  pub first : (a : ℕ) → a < start → IsBlocked bm a count

widen :
    {bm : Bitmap} {count bound bound' start : ℕ}
    → bound ≤ bound'
    → FirstRun bm count bound start
    → FirstRun bm count bound' start
widen h r = record { inside = omega (arith, r.inside); free = r.free; first = r.first }

-- The current run is long enough with `f`.
ends_here :
    (bm : Bitmap) (count f consecutive start : ℕ)
    → Searched bm count f consecutive start
    → bm f ≡ false
    → consecutive + 1 ≡ count
    → FirstRun bm count (f + 1) (f - consecutive)
ends_here bm count f consecutive start v c full = record {
  inside = omega (arith, v.fits);
  free = subst (λ k. IsFree bm (f - consecutive) k) full (run_on bm count f consecutive start v c);
  first = λ a h. v.blocked a (omega (arith, v.fits));
}

search_loop-some :
    (n : ℕ) (bm : Bitmap) (count f consecutive start found : ℕ)
    → Searched bm count f consecutive start
    → search_loop n count bm f consecutive start ≡ some found
    → FirstRun bm count (f + n) found
unfolding search_loop
search_loop-some zero bm count f consecutive start found v e = cc
search_loop-some (suc n) bm count f consecutive start found v e = elim (Bool-cases (bm f)) [
  | inl u ↦ widen (omega arith) (
      search_loop-some n bm count (f + 1) 0 start found
        (over-Searched bm count f consecutive start v u) (ground (arith, e, u)))
  | inr c ↦ elim (ℕ_discrete (consecutive + 1) count) [
    | yes full ↦ widen (omega arith) (
        subst (λ k. FirstRun bm count (f + 1) k) (ground (arith, e, c, full, v.begin))
          (ends_here bm count f consecutive start v c full))
    | no short ↦ widen (omega arith) (
        search_loop-some n bm count (f + 1) (consecutive + 1)
          (if consecutive == 0 then f else start) found
          (on-Searched bm count f consecutive start v c short) (ground (arith, e, c)))
  ]
]

search_loop-none :
    (n : ℕ) (bm : Bitmap) (count f consecutive start : ℕ)
    → Searched bm count f consecutive start
    → search_loop n count bm f consecutive start ≡ none
    → (a : ℕ) → a + count ≤ f + n
    → IsBlocked bm a count
unfolding search_loop
search_loop-none zero bm count f consecutive start v e a h = v.blocked a (omega arith)
search_loop-none (suc n) bm count f consecutive start v e a h = elim (Bool-cases (bm f)) [
  | inl u ↦
      search_loop-none n bm count (f + 1) 0 start (over-Searched bm count f consecutive start v u)
        (ground (arith, e, u)) a (omega arith)
  | inr c ↦ elim (ℕ_discrete (consecutive + 1) count) [
    | yes full ↦ absurd (ground (arith, e, c, full))
    | no short ↦
        search_loop-none n bm count (f + 1) (consecutive + 1)
          (if consecutive == 0 then f else start)
          (on-Searched bm count f consecutive start v c short) (ground (arith, e, c)) a
          (omega arith)
  ]
]

pub search_loop_lem :
    (n count : ℕ) (bm : Bitmap)
    → 0 < count
    → ((search_loop n count bm 0 0 0 ≡ none) × ((a : ℕ) → a + count ≤ n → IsBlocked bm a count))
      ⊎ ((start : ℕ) × (search_loop n count bm 0 0 0 ≡ some start) × FirstRun bm count n start)
search_loop_lem n count bm h = elim (Option-cases (search_loop n count bm 0 0 0)) [
  | inl e ↦ inl (e, λ a k. search_loop-none n bm count 0 0 0 begins e a (omega arith))
  | inr (start, e) ↦
      inr (start, e, widen (omega arith) (search_loop-some n bm count 0 0 0 start begins e))
]
  where
    begins : Searched bm count 0 0 0
    begins = record {
      short = h;
      fits = omega arith;
      run = λ g lo hi. absurd (omega arith);
      begin = λ n. absurd (n refl);
      edge = inl refl;
      blocked = λ a k. absurd (omega arith);
    }
