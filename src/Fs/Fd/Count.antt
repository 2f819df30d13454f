-- ===== src/Fs/Fd/Count.antt =====
-- How many open descriptors refer to a channel, and what a write to the table does to the number.
use zwei_os.Base.{
  ℕ, zero, suc, ◌+◌, ◌≤◌, ◌<◌, ◌≡◌, refl, Bool, true, false, ◌&&◌, Option, none, some, List, [],
  ◌∷◌, arith, ◌==◌, if◌then◌else◌, length, get_or, set, replicate, Bool-cases, inl, inr,
}
use zwei_os.Fs.Fd.{VNode, pipe_end, FileDescriptor, closed_fd, is_wronly, first_closed}

abbrev pub points_to : ℕ → Option VNode → Bool
points_to p (some (pipe_end q w)) = q == p
points_to p other_node = false

abbrev bool_eq : Bool → Bool → Bool
bool_eq true b = b
bool_eq false true = false
bool_eq false false = true

-- `d` holds a reference to channel `p` that counts as a writer (`w`) or as a reader.
abbrev pub refers : ℕ → Bool → FileDescriptor → ℕ
refers p w d = if d.is_open && (points_to p d.node && bool_eq (is_wronly d.flags) w) then 1 else 0

unfoldable pub refs : ℕ → Bool → List FileDescriptor → ℕ
refs p w [] = 0
refs p w (d ∷ ds) = refers p w d + refs p w ds

-- A write to the table takes one descriptor's reference out and puts another's in.
pub refs-set :
    (p : ℕ) (w : Bool) (t : List FileDescriptor) (i : ℕ) (d : FileDescriptor)
    → i < length t
    → refs p w (set t i d) + refers p w (get_or t i closed_fd) ≡ refs p w t + refers p w d
unfolding refs
refs-set p w [] i d h = elim h [ ]
refs-set p w (x ∷ t) zero d h = omega arith
refs-set p w (x ∷ t) (suc i) d h = omega (arith, refs-set p w t i d (omega arith))

pub refers-le-refs :
    (p : ℕ) (w : Bool) (t : List FileDescriptor) (i : ℕ)
    → i < length t
    → refers p w (get_or t i closed_fd) ≤ refs p w t
unfolding refs
refers-le-refs p w [] i h = elim h [ ]
refers-le-refs p w (x ∷ t) zero h = omega arith
refers-le-refs p w (x ∷ t) (suc i) h = omega (arith, refers-le-refs p w t i (omega arith))

pub refs-replicate : (p n : ℕ) (w : Bool) → refs p w (replicate n closed_fd) ≡ 0
unfolding refs
refs-replicate p zero w = refl
refs-replicate p (suc n) w = omega (arith, refs-replicate p n w)

-- The scan found the descriptor `index` places on: it is closed, and all before it are open.
pub record FirstClosed (t : List FileDescriptor) (index : ℕ) : Type 0 where
  pub inside : index < length t
  pub closed : (get_or t index closed_fd).is_open ≡ false
  pub first : (j : ℕ) → j < index → (get_or t j closed_fd).is_open ≡ true

FirstClosed-cons :
    (d : FileDescriptor) (t : List FileDescriptor) (index : ℕ)
    → d.is_open ≡ true
    → FirstClosed t index
    → FirstClosed (d ∷ t) (suc index)
FirstClosed-cons d t index o f = record {
  inside = omega (arith, f.inside);
  closed = f.closed;
  first = before;
}
  where
    before : (j : ℕ) → j < suc index → (get_or (d ∷ t) j closed_fd).is_open ≡ true
    before zero h = o
    before (suc j) h = f.first j (omega arith)

pub first_closed-FirstClosed :
    (t : List FileDescriptor) (from i : ℕ)
    → first_closed t from ≡ some i
    → (index : ℕ) × (i ≡ index + from) × FirstClosed t index
unfolding first_closed
first_closed-FirstClosed [] from i e = cc
first_closed-FirstClosed (d ∷ t) from i e = elim (Bool-cases d.is_open) [
  | inl o ↦
      let (k, at, f) = first_closed-FirstClosed t (from + 1) i (ground (arith, e, o)) in
      (suc k, omega arith, FirstClosed-cons d t k o f)
  | inr c ↦
      (0, ground arith, record { inside = omega arith; closed = c; first = λ j h. elim h [ ] })
]

-- The scan fails only where every descriptor is open.
pub first_closed-none :
    (t : List FileDescriptor) (from : ℕ)
    → first_closed t from ≡ none
    → (j : ℕ) → j < length t
    → (get_or t j closed_fd).is_open ≡ true
unfolding first_closed
first_closed-none [] from e j h = elim h [ ]
first_closed-none (d ∷ t) from e zero h = ground arith
first_closed-none (d ∷ t) from e (suc j) h =
    first_closed-none t (from + 1) (ground arith) j (omega arith)
