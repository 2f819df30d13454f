-- ===== src/Fs/Fd/Steps.antt =====
-- Every call on the descriptor table keeps the reference counts right.
use zwei_os.Base.{
  ℕ, ◌<◌, ◌≡◌, refl, Bool, true, inl, inr, Option, none, some, ℤ, pos, negsuc, arith, set,
  get_or-set_self, get_or-set_ne, Bool-cases, Option-cases,
}
use zwei_os.Fs.Pipe.{close_channel}
use zwei_os.Fs.Fd.{
  Files, VNode, pipe_end, other, closed_fd, fd_at, pipe_at, is_wronly, max_open_files, first_closed,
  set_fd, set_pipe, close_node, vfs_close, vfs_dup, vfs_dup2,
}
use zwei_os.Fs.Fd.Count.{first_closed-FirstClosed}
use zwei_os.Fs.Fd.Refs.{Counted, vfs_close-Counted, copy_fd-Counted}

pub vfs_dup-Counted : (s : Files) (fd : ℤ) → Counted s → Counted (vfs_dup s fd).1
unfolding vfs_dup
vfs_dup-Counted s (negsuc n) v = v
vfs_dup-Counted s (pos fd) v = elim (Option-cases (first_closed s.fd_table 0)) [
  | inl e ↦ ground (arith, e)
  | inr (i, e) ↦
      let (k, at, f) = first_closed-FirstClosed s.fd_table 0 i e in
      ground (arith, e, v.fds, f.inside, f.closed, copy_fd-Counted s fd i v)
]

close_node-fd_table :
    (s : Files) (node : Option VNode) (b : Bool) → (close_node s node b).fd_table ≡ s.fd_table
unfolding close_node
close_node-fd_table s none b = refl
close_node-fd_table s (some (other n)) b = refl
close_node-fd_table s (some (pipe_end q w)) b = refl

-- A close that finds its descriptor open takes exactly that one out of the table.
pub fd_table-vfs_close :
    (s : Files) (fd : ℕ)
    → fd < max_open_files
    → (fd_at s fd).is_open ≡ true
    → (vfs_close s (pos fd)).1.fd_table ≡ set s.fd_table fd closed_fd
unfolding vfs_close
fd_table-vfs_close s fd h o =
    ground (arith, close_node-fd_table s (fd_at s fd).node (is_wronly (fd_at s fd).flags))

-- Closing an end of a channel closes that end of the channel, too.
pub vfs_close-pipe_end :
    (s : Files) (fd q : ℕ) (w : Bool)
    → fd < max_open_files
    → (fd_at s fd).is_open ≡ true
    → (fd_at s fd).node ≡ some (pipe_end q w)
    → vfs_close s (pos fd) ≡ (
      pos 0,
      set_fd
          (set_pipe s q (close_channel (pipe_at s q) (is_wronly (fd_at s fd).flags)))
          fd
          closed_fd,
    )
unfolding vfs_close close_node
vfs_close-pipe_end s fd q w h o e = ground arith

pub vfs_dup2-Counted : (s : Files) (old new : ℤ) → Counted s → Counted (vfs_dup2 s old new).1
unfolding vfs_dup2
vfs_dup2-Counted s (negsuc n) new v = v
vfs_dup2-Counted s (pos old) (negsuc n) v = v
vfs_dup2-Counted s (pos old) (pos new) v = elim (Bool-cases (fd_at s new).is_open) [
  | inl o ↦ ground (
    arith,
    v.fds,
    fd_table-vfs_close s new,
    get_or-set_self s.fd_table new closed_fd closed_fd,
    get_or-set_ne s.fd_table new old closed_fd closed_fd,
    vfs_close-Counted s (pos new) v,
    copy_fd-Counted (vfs_close s (pos new)).1 old new,
  )
  | inr c ↦ ground (arith, v.fds, copy_fd-Counted s old new)
]
