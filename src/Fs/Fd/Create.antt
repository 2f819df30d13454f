-- ===== src/Fs/Fd/Create.antt =====
-- `pipe_create` keeps the reference counts right, on every way out.
use zwei_os.Base.{
  ℕ, suc, ◌+◌, ◌<◌, ◌≡◌, ◌∙◌, Bool, true, false, ◌⊎◌, inl, inr, some, List, [], ◌∷◌, ℤ, pos, negsuc,
  arith, if◌then◌else◌, length, get_or, set, drop, length-set, get_or-set, get_or-set_self,
  Bool-cases, Option-cases, length-drop, get_or-drop,
}
use zwei_os.Fs.Pipe.{PipeChannel, close_channel, open_channel}
use zwei_os.Fs.Fd.{
  Files, VNode, pipe_end, FileDescriptor, closed_fd, unused_pipe, fd_at, pipe_at, is_wronly,
  or_wronly, max_open_files, max_pipes, first_closed, set_fd, set_pipe, vfs_alloc_fd, first_unused,
  release_pipe, second_end, create_at, pipe_create,
}
use zwei_os.Fs.Fd.Count.{refs-set, first_closed-FirstClosed}
use zwei_os.Fs.Fd.Steps.{vfs_close-pipe_end}
use zwei_os.Fs.Fd.Refs.{Counted}

-- A new descriptor of node `node` with flags `flags` adds its reference, and an error changes
-- nothing.
pub record Opened (s : Files) (node : VNode) (flags : ℕ) (out : ℤ × Files) (i : ℕ) : Type 0 where
  pub at :
      out
      ≡ (pos i, set_fd s i (record { node = some node; offset = 0; flags = flags; is_open = true }))
  pub inside : i < length s.fd_table
  pub closed : (fd_at s i).is_open ≡ false

pub vfs_alloc_fd_cases :
    (s : Files) (node : VNode) (flags : ℕ)
    → (vfs_alloc_fd s (some node) flags ≡ (negsuc 0, s))
      ⊎ ((i : ℕ) × Opened s node flags (vfs_alloc_fd s (some node) flags) i)
unfolding vfs_alloc_fd
vfs_alloc_fd_cases s node flags = elim (Option-cases (first_closed (drop 3 s.fd_table) 3)) [
  | inl e ↦ inl (ground (arith, e))
  | inr (i, e) ↦
      let (k, at, f) = first_closed-FirstClosed (drop 3 s.fd_table) 3 i e in
      inr (
        i,
        record {
          at = ground (arith, e);
          inside = omega (arith, f.inside, length-drop 3 s.fd_table);
          closed = ground (arith, f.closed, at, get_or-drop 3 s.fd_table k closed_fd);
        },
      )
]

-- The slot that the scan found is inside the table and not in use.
pub first_unused_lem :
    (ps : List PipeChannel) (from q : ℕ)
    → first_unused ps from ≡ some q
    → (k : ℕ) × (q ≡ k + from) × (k < length ps) × ((get_or ps k unused_pipe).in_use ≡ false)
unfolding first_unused
first_unused_lem [] from q e = cc
first_unused_lem (c ∷ ps) from q e = elim (Bool-cases c.in_use) [
  | inl u ↦
      let (k, at, inside, free) = first_unused_lem ps (from + 1) q (ground (arith, e, u)) in
      (suc k, omega arith, omega arith, free)
  | inr f ↦ (0, ground arith, omega arith, f)
]

module _ (s : Files) (q flags : ℕ) (v : Counted s) (slot : q < max_pipes)
    (free : (pipe_at s q).in_use ≡ false) (even : is_wronly flags ≡ false) where
  abbrev opened : Files
  opened = set_pipe s q (open_channel (pipe_at s q))

  abbrev end_fd : Bool → FileDescriptor
  end_fd w = record {
    node = some (pipe_end q w);
    offset = 0;
    flags = if w then or_wronly flags else flags;
    is_open = true;
  }

  given_up-Counted : Counted (release_pipe opened q)
  unfolding open_channel
  given_up-Counted = record {
    fds = v.fds;
    slots =
        length-set (set s.pipes q (open_channel (pipe_at s q))) q _
        ∙ length-set s.pipes q _
        ∙ v.slots;
    counts = λ p h. ground (
      arith,
      v.counts p h,
      v.slots,
      length-set s.pipes q (open_channel (pipe_at s q)),
      get_or-set s.pipes q p (open_channel (pipe_at s q)) unused_pipe,
      get_or-set (set s.pipes q (open_channel (pipe_at s q))) q p
          (record (pipe_at opened q) { in_use = false }) unused_pipe,
    );
  }

  made-Counted :
      (i j : ℕ)
      → i < max_open_files
      → j < max_open_files
      → (fd_at s i).is_open ≡ false
      → (fd_at (set_fd opened i (end_fd false)) j).is_open ≡ false
      → Counted (set_fd (set_fd opened i (end_fd false)) j (end_fd true))
  unfolding open_channel
  made-Counted i j hi hj ci cj = record {
    fds = length-set (set s.fd_table i (end_fd false)) j _ ∙ length-set s.fd_table i _ ∙ v.fds;
    slots = length-set s.pipes q _ ∙ v.slots;
    counts = λ p h. ground (
      arith,
      v.counts p h,
      v.slots,
      v.fds,
      get_or-set s.pipes q p (open_channel (pipe_at s q)) unused_pipe,
      length-set s.fd_table i (end_fd false),
      refs-set p false s.fd_table i (end_fd false),
      refs-set p true s.fd_table i (end_fd false),
      refs-set p false (set s.fd_table i (end_fd false)) j (end_fd true),
      refs-set p true (set s.fd_table i (end_fd false)) j (end_fd true),
    );
  }

  undone-Counted :
      (i : ℕ)
      → i < max_open_files
      → (fd_at s i).is_open ≡ false
      → Counted (
          release_pipe
            (set_fd
              (set_pipe (set_fd opened i (end_fd false)) q (close_channel (pipe_at opened q) false))
              i
              closed_fd)
            q)
  undone-Counted i hi ci = record {
    fds = length-set (set s.fd_table i (end_fd false)) i _ ∙ length-set s.fd_table i _ ∙ v.fds;
    slots =
        length-set
          (set (set s.pipes q (open_channel (pipe_at s q))) q
            (close_channel (pipe_at opened q) false))
          q _
        ∙ length-set (set s.pipes q (open_channel (pipe_at s q))) q _
        ∙ length-set s.pipes q _
        ∙ v.slots;
    counts = λ p h. ground (
      arith,
      v.counts p h,
      v.slots,
      v.fds,
      length-set s.fd_table i (end_fd false),
      get_or-set_self s.fd_table i (end_fd false) closed_fd,
      refs-set p false s.fd_table i (end_fd false),
      refs-set p true s.fd_table i (end_fd false),
      refs-set p false (set s.fd_table i (end_fd false)) i closed_fd,
      refs-set p true (set s.fd_table i (end_fd false)) i closed_fd,
      length-set s.pipes q (open_channel (pipe_at s q)),
      length-set (set s.pipes q (open_channel (pipe_at s q))) q
          (close_channel (pipe_at opened q) false),
      get_or-set s.pipes q p (open_channel (pipe_at s q)) unused_pipe,
      get_or-set (set s.pipes q (open_channel (pipe_at s q))) q p
          (close_channel (pipe_at opened q) false) unused_pipe,
      get_or-set
          (set (set s.pipes q (open_channel (pipe_at s q))) q
            (close_channel (pipe_at opened q) false))
          q p
          (record (get_or
            (set (set s.pipes q (open_channel (pipe_at s q))) q
              (close_channel (pipe_at opened q) false))
            q unused_pipe) { in_use = false })
          unused_pipe,
    );
  }

  second_end-Counted :
      (i : ℕ)
      → i < max_open_files
      → (fd_at s i).is_open ≡ false
      → Counted (second_end (set_fd opened i (end_fd false)) q i flags).2
  unfolding second_end
  second_end-Counted i hi ci =
      elim (vfs_alloc_fd_cases (set_fd opened i (end_fd false)) (pipe_end q true)
        (or_wronly flags)) [
          | inl e ↦ ground (
            arith,
            e,
            v.fds,
            get_or-set_self s.fd_table i (end_fd false) closed_fd,
            vfs_close-pipe_end (set_fd opened i (end_fd false)) i q false hi,
            undone-Counted i hi ci,
          )
          | inr (j, o) ↦
              ground (arith, o, v.fds, length-set s.fd_table i (end_fd false), made-Counted i j hi)
        ]

  create_at-Counted : Counted (create_at s q flags).2
  unfolding create_at
  create_at-Counted = elim (vfs_alloc_fd_cases opened (pipe_end q false) flags) [
    | inl e ↦ ground (arith, e, given_up-Counted)
    | inr (i, o) ↦ ground (arith, o, v.fds, second_end-Counted i)
  ]

pub pipe_create-Counted :
    (s : Files) (flags : ℕ) → is_wronly flags ≡ false → Counted s → Counted (pipe_create s flags).2
unfolding pipe_create
pipe_create-Counted s flags even v = elim (Option-cases (first_unused s.pipes 0)) [
  | inl e ↦ ground (arith, e)
  | inr (q, e) ↦
      let (k, at, inside, free) = first_unused_lem s.pipes 0 q e in
      ground (arith, e, v.slots, create_at-Counted s q flags v)
]
