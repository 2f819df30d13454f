-- ===== src/Drivers/Keyboard/Waiting.antt =====
-- The ring is a bounded queue of characters.
use zwei_os.Base.{
  ℕ, zero, suc, ◌+◌, ◌-◌, ◌%◌, ◌<◌, ◌≡◌, refl, ap, ap₂, ◌∙◌, ◌⊎◌, inl, inr, none, some, List, [],
  ◌∷◌, ◌++◌, arith, ltb, ◌==◌, if◌then◌else◌, length, get_or, set, get_or-set_self, get_or-set_ne,
  length-set, Bool-cases,
}
use zwei_os.Drivers.Keyboard.{Ring, ring_push, ring_pop, keyboard_buffer_size}

pub record IsRing (r : Ring) : Type 0 where
  pub size : length r.buffer ≡ keyboard_buffer_size
  pub head_in : r.head < keyboard_buffer_size
  pub tail_in : r.tail < keyboard_buffer_size

-- The `n` characters from `at` on, going round.
abbrev pub chars : List ℕ → ℕ → ℕ → List ℕ
chars buffer at zero = []
chars buffer at (suc n) = get_or buffer at 0 ∷ chars buffer ((at + 1) % keyboard_buffer_size) n

abbrev pub used : Ring → ℕ
used r = (r.head + keyboard_buffer_size - r.tail) % keyboard_buffer_size

-- The characters that wait, the oldest first.
abbrev pub waiting : Ring → List ℕ
waiting r = chars r.buffer r.tail (used r)

pub length-chars : (buffer : List ℕ) (at n : ℕ) → length (chars buffer at n) ≡ n
length-chars buffer at zero = refl
length-chars buffer at (suc n) = ap suc (length-chars buffer ((at + 1) % keyboard_buffer_size) n)

chars-set :
    (buffer : List ℕ) (c n at i : ℕ)
    → length buffer ≡ keyboard_buffer_size
    → at < keyboard_buffer_size
    → n < keyboard_buffer_size
    → i ≡ (at + n) % keyboard_buffer_size
    → chars (set buffer i c) at (suc n) ≡ chars buffer at n ++ (c ∷ [])
chars-set buffer c zero at i size ha hn e =
    ap (λ x. x ∷ [])
      (ap (λ j. get_or (set buffer j c) at 0) {x = i} {y = at} (omega arith)
        ∙ get_or-set_self buffer at c 0 (omega arith))
chars-set buffer c (suc n) at i size ha hn e =
    ap₂ ◌∷◌ (get_or-set_ne buffer i at c 0 (omega arith)) (
      chars-set buffer c n ((at + 1) % keyboard_buffer_size) i size (omega arith) (omega arith)
        (omega arith))

waiting-ring_push :
    (r : Ring) (c : ℕ)
    → IsRing r
    → waiting (ring_push r c)
      ≡ (if ltb (length (waiting r)) 255 then waiting r ++ (c ∷ []) else waiting r)
unfolding ring_push
waiting-ring_push r c v =
    let n = length-chars r.buffer r.tail (used r) in
    elim (Bool-cases ((r.head + 1) % keyboard_buffer_size == r.tail)) [
      | inl full ↦ ground (arith, full, n, v)
      | inr free ↦
          let next = (r.head + 1) % keyboard_buffer_size in
          let more : (next + keyboard_buffer_size - r.tail) % keyboard_buffer_size ≡ suc (used r) =
            ground (arith, free, v) in
          let room : used r < 255 = ground (arith, free, v) in
          let e =
            ap (chars (set r.buffer r.head c) r.tail) more
            ∙ chars-set r.buffer c (used r) r.tail r.head v.size v.tail_in (omega arith)
                (omega (arith, v)) in
          ground (arith, free, n, room, e)
    ]

waiting-ring_pop :
    (r : Ring)
    → IsRing r
    → ((waiting r ≡ []) × (ring_pop r ≡ (none, r)))
      ⊎ ((x : ℕ) × (waiting r ≡ x ∷ waiting (ring_pop r).1) × ((ring_pop r).0 ≡ some x))
unfolding ring_pop
waiting-ring_pop r v = elim (Bool-cases (r.head == r.tail)) [
  | inl e ↦
      let n : used r ≡ 0 = ground (arith, e, v) in
      inl (ap (chars r.buffer r.tail) n, ground (arith, e))
  | inr f ↦
      let next = (r.tail + 1) % keyboard_buffer_size in
      let n : used r ≡ suc ((r.head + keyboard_buffer_size - next) % keyboard_buffer_size) =
        ground (arith, f, v) in
      inr (
        get_or r.buffer r.tail 0,
        ap (chars r.buffer r.tail) n ∙ ground (arith, f),
        ground (arith, f),
      )
]

-- A push appends its character, or drops it where 255 wait; a pop takes the oldest, and fails if and
-- only if none waits. Both keep the ring's indices in range.
pub ring_refines :
    (r : Ring) (c : ℕ)
    → IsRing r
    → IsRing (ring_push r c)
      × IsRing (ring_pop r).1
      × (waiting (ring_push r c)
          ≡ (if ltb (length (waiting r)) 255 then waiting r ++ (c ∷ []) else waiting r))
      × (((waiting r ≡ []) × (ring_pop r ≡ (none, r)))
          ⊎ ((x : ℕ) × (waiting r ≡ x ∷ waiting (ring_pop r).1) × ((ring_pop r).0 ≡ some x)))
unfolding ring_push ring_pop
ring_refines r c v = (
  ground (arith, v, length-set r.buffer r.head c),
  ground (arith, v),
  waiting-ring_push r c v,
  waiting-ring_pop r v,
)
