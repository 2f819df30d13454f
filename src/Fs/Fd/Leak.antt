-- ===== src/Fs/Fd/Leak.antt =====
-- `pipe2` with O_WRONLY among its flags: both descriptors count as writers, of which `pipe_create`
-- counts one, and the reader that it counts has no descriptor.
use zwei_os.Base.{
  ℕ, ◌<◌, ◌≡◌, ◌≢◌, Bool, true, false, inl, inr, some, pos, arith, get_or, set, length-set,
  get_or-set, get_or-set_self, get_or-set_ne,
}
use zwei_os.Fs.Pipe.{PipeChannel, close_channel, open_channel}
use zwei_os.Fs.Fd.{
  Files, pipe_end, FileDescriptor, closed_fd, unused_pipe, fd_at, pipe_at, is_wronly, or_wronly,
  max_open_files, max_pipes, set_fd, set_pipe, vfs_alloc_fd, vfs_close, first_unused, second_end,
  create_at, pipe_create,
}
use zwei_os.Fs.Fd.Count.{refs, refs-set}
use zwei_os.Fs.Fd.Refs.{Counted}
use zwei_os.Fs.Fd.Steps.{vfs_close-pipe_end}
use zwei_os.Fs.Fd.Create.{Opened, vfs_alloc_fd_cases, first_unused_lem}

-- Channel `q` is in use, and no open descriptor refers to it.
pub record IsLeaked (s : Files) (q : ℕ) : Type 0 where
  pub in_use : (pipe_at s q).in_use ≡ true
  pub no_reader : refs q false s.fd_table ≡ 0
  pub no_writer : refs q true s.fd_table ≡ 0

module _ (s : Files) (flags q : ℕ) (v : Counted s) (odd : is_wronly flags ≡ true)
    (slot : q < max_pipes) (free : (pipe_at s q).in_use ≡ false) where
  abbrev opened : Files
  opened = set_pipe s q (open_channel (pipe_at s q))

  abbrev end_fd : Bool → FileDescriptor
  end_fd w = record { node = some (pipe_end q w); offset = 0; flags = flags; is_open = true }

  abbrev both : ℕ → ℕ → Files
  both i j = set_fd (set_fd opened i (end_fd false)) j (end_fd true)

  -- What is left of the channel when a writer, and then another, has been closed.
  abbrev once : PipeChannel
  once = close_channel (pipe_at opened q) true

  closed_both :
      (i j : ℕ)
      → i < max_open_files
      → j < max_open_files
      → i ≢ j
      → (vfs_close (vfs_close (both i j) (pos i)).1 (pos j)).1 ≡ record {
        fd_table = set (set (both i j).fd_table i closed_fd) j closed_fd;
        pipes = set (set opened.pipes q once) q (close_channel once true);
      }
  closed_both i j hi hj ne = ground (
    arith,
    v.fds,
    v.slots,
    length-set s.fd_table i (end_fd false),
    length-set s.pipes q (open_channel (pipe_at s q)),
    get_or-set_self s.fd_table i (end_fd false) closed_fd,
    get_or-set_ne (set s.fd_table i (end_fd false)) j i (end_fd true) closed_fd,
    get_or-set_self (set s.fd_table i (end_fd false)) j (end_fd true) closed_fd,
    get_or-set_ne (both i j).fd_table i j closed_fd closed_fd,
    get_or-set_self opened.pipes q once unused_pipe,
    vfs_close-pipe_end (both i j) i q false hi,
    vfs_close-pipe_end
        (record { fd_table = set (both i j).fd_table i closed_fd; pipes = set opened.pipes q once })
        j q true hj,
  )

  no_refs :
      (i j : ℕ) (b : Bool)
      → i < max_open_files
      → j < max_open_files
      → i ≢ j
      → (fd_at s i).is_open ≡ false
      → (fd_at s j).is_open ≡ false
      → refs q b (set (set (both i j).fd_table i closed_fd) j closed_fd) ≡ refs q b s.fd_table
  no_refs i j b hi hj ne ci cj = ground (
    arith,
    v.fds,
    length-set s.fd_table i (end_fd false),
    length-set (set s.fd_table i (end_fd false)) j (end_fd true),
    length-set (both i j).fd_table i closed_fd,
    get_or-set_self s.fd_table i (end_fd false) closed_fd,
    get_or-set_ne s.fd_table i j (end_fd false) closed_fd,
    get_or-set_ne (set s.fd_table i (end_fd false)) j i (end_fd true) closed_fd,
    get_or-set_self (set s.fd_table i (end_fd false)) j (end_fd true) closed_fd,
    get_or-set_ne (both i j).fd_table i j closed_fd closed_fd,
    refs-set q b s.fd_table i (end_fd false),
    refs-set q b (set s.fd_table i (end_fd false)) j (end_fd true),
    refs-set q b (both i j).fd_table i closed_fd,
    refs-set q b (set (both i j).fd_table i closed_fd) j closed_fd,
  )

  stays_in_use :
      (get_or (set (set opened.pipes q once) q (close_channel once true)) q unused_pipe).in_use
      ≡ true
  unfolding close_channel open_channel
  stays_in_use = ground (
    arith,
    v.slots,
    length-set s.pipes q (open_channel (pipe_at s q)),
    length-set opened.pipes q once,
    get_or-set_self s.pipes q (open_channel (pipe_at s q)) unused_pipe,
    get_or-set_self (set opened.pipes q once) q (close_channel once true) unused_pipe,
  )

  leaked :
      (i j : ℕ)
      → i < max_open_files
      → j < max_open_files
      → i ≢ j
      → (fd_at s i).is_open ≡ false
      → (fd_at s j).is_open ≡ false
      → IsLeaked (vfs_close (vfs_close (both i j) (pos i)).1 (pos j)).1 q
  leaked i j hi hj ne ci cj = rw (closed_both i j hi hj ne) (record {
    in_use = stays_in_use;
    no_reader = ground (arith, v.counts q slot, no_refs i j false hi hj ne ci cj);
    no_writer = ground (arith, v.counts q slot, no_refs i j true hi hj ne ci cj);
  })

  -- The two descriptors of a successful call.
  record Made (r w : ℕ) (t : Files) : Type 0 where
    read_in : r < max_open_files
    write_in : w < max_open_files
    apart : r ≢ w
    read_closed : (fd_at s r).is_open ≡ false
    write_closed : (fd_at s w).is_open ≡ false
    state : t ≡ both r w

  second_end-Made :
      (i r w : ℕ) (t : Files)
      → Opened opened
          (pipe_end q false)
          flags
          (vfs_alloc_fd opened (some (pipe_end q false)) flags)
          i
      → second_end (set_fd opened i (end_fd false)) q i flags ≡ (pos 0, some (r, w), t)
      → Made r w t
  unfolding second_end
  second_end-Made i r w t o e =
      elim (vfs_alloc_fd_cases (set_fd opened i (end_fd false)) (pipe_end q true)
        (or_wronly flags)) [
          | inl f ↦ ground (arith, e, f)
          | inr (j, f) ↦ ground (
            arith,
            e,
            f,
            o,
            v.fds,
            length-set s.fd_table i (end_fd false),
            get_or-set_self s.fd_table i (end_fd false) closed_fd,
            get_or-set s.fd_table i j (end_fd false) closed_fd,
          )
        ]

  create_at-Made :
      (r w : ℕ) (t : Files) → create_at s q flags ≡ (pos 0, some (r, w), t) → Made r w t
  unfolding create_at
  create_at-Made r w t e = elim (vfs_alloc_fd_cases opened (pipe_end q false) flags) [
    | inl f ↦ ground (arith, e, f)
    | inr (i, f) ↦ second_end-Made i r w t f (ground (arith, e, f))
  ]

-- Where `pipe_create` is given O_WRONLY among its flags, in a table whose counts are right, and
-- succeeds, closing both descriptors that it returned leaves the channel's slot in use, although no
-- open descriptor refers to it.
pub pipe_create_wronly_leaks :
    (s : Files) (flags q r w : ℕ) (t : Files)
    → Counted s
    → is_wronly flags ≡ true
    → first_unused s.pipes 0 ≡ some q
    → pipe_create s flags ≡ (pos 0, some (r, w), t)
    → IsLeaked (vfs_close (vfs_close t (pos r)).1 (pos w)).1 q
unfolding pipe_create
pipe_create_wronly_leaks s flags q r w t v odd e made =
    let (k, at, inside, free) = first_unused_lem s.pipes 0 q e in
    let slot : q < max_pipes = omega (arith, v.slots) in
    let unused : (pipe_at s q).in_use ≡ false = ground (arith, at, free) in
    let m = create_at-Made s flags q v odd slot unused r w t (ground (arith, e, made)) in
    rw m.state (
      leaked s flags q v odd slot unused r w m.read_in m.write_in m.apart m.read_closed
        m.write_closed)
