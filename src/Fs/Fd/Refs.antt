-- ===== src/Fs/Fd/Refs.antt =====
-- The reference counts of the channels count the open descriptors.
use zwei_os.Base.{
  ℕ, ◌+◌, ◌<◌, ◌≡◌, refl, ◌∙◌, true, false, Option, none, some, ℤ, pos, negsuc, arith, ltb, length,
  get_or, set, length-set, get_or-set_self, get_or-set_ne, ℕ_discrete,
}
use zwei_os.Fs.Pipe.{PipeChannel, close_channel}
use zwei_os.Fs.Fd.{
  Files, VNode, pipe_end, other, FileDescriptor, closed_fd, unused_pipe, fd_at, pipe_at, is_wronly,
  max_open_files, max_pipes, set_fd, close_node, vfs_close, add_ref, share_node, copy_fd,
}
use zwei_os.Fs.Fd.Count.{refs, refs-set, refers-le-refs}

-- A channel is in use exactly while `r` readers or `w` writers are left; then its counts are their
-- numbers, and an end is open exactly while one of them is left.
pub record Matches (c : PipeChannel) (r w : ℕ) : Type 0 where
  pub used : c.in_use ≡ ltb 0 (r + w)
  pub readers : c.in_use ≡ true → c.ref_read ≡ r
  pub writers : c.in_use ≡ true → c.ref_write ≡ w
  pub read_end : c.in_use ≡ true → c.read_open ≡ ltb 0 r
  pub write_end : c.in_use ≡ true → c.write_open ≡ ltb 0 w

pub record Counted (s : Files) : Type 0 where
  pub fds : length s.fd_table ≡ max_open_files
  pub slots : length s.pipes ≡ max_pipes
  pub counts :
      (p : ℕ)
      → p < max_pipes
      → Matches (pipe_at s p) (refs p false s.fd_table) (refs p true s.fd_table)

close-Matches_writer :
    (c : PipeChannel) (r w : ℕ) → Matches c r (w + 1) → Matches (close_channel c true) r w
unfolding close_channel
close-Matches_writer c r w m = ground arith

close-Matches_reader :
    (c : PipeChannel) (r w : ℕ) → Matches c (r + 1) w → Matches (close_channel c false) r w
unfolding close_channel
close-Matches_reader c r w m = ground arith

add-Matches_writer :
    (c : PipeChannel) (r w : ℕ) → 0 < w → Matches c r w → Matches (add_ref c true) r (w + 1)
add-Matches_writer c r w h m = ground arith

add-Matches_reader :
    (c : PipeChannel) (r w : ℕ) → 0 < r → Matches c r w → Matches (add_ref c false) (r + 1) w
add-Matches_reader c r w h m = ground arith

-- A descriptor that is about to be closed takes its reference along.
module _ (s : Files) (fd : ℕ) (v : Counted s) (in_table : fd < max_open_files) where
  abbrev d : FileDescriptor
  d = fd_at s fd

  close_node-Counted :
      d.is_open ≡ true
      → (node : Option VNode) → d.node ≡ node
      → Counted (set_fd (close_node s node (is_wronly d.flags)) fd closed_fd)
  unfolding close_node
  close_node-Counted o none e = record {
    fds = length-set s.fd_table fd closed_fd ∙ v.fds;
    slots = v.slots;
    counts = λ p h. ground (
      arith,
      v.counts p h,
      refs-set p false s.fd_table fd closed_fd,
      refs-set p true s.fd_table fd closed_fd,
    );
  }
  close_node-Counted o (some (other n)) e = record {
    fds = length-set s.fd_table fd closed_fd ∙ v.fds;
    slots = v.slots;
    counts = λ p h. ground (
      arith,
      v.counts p h,
      refs-set p false s.fd_table fd closed_fd,
      refs-set p true s.fd_table fd closed_fd,
    );
  }
  close_node-Counted o (some (pipe_end q w)) e = record {
    fds = length-set s.fd_table fd closed_fd ∙ v.fds;
    slots = length-set s.pipes q _ ∙ v.slots;
    counts = λ p h. elim (ℕ_discrete q p) [
      | yes here ↦ closed_here here h
      | no there ↦ ground (
        arith,
        v.counts p h,
        get_or-set_ne s.pipes q p (close_channel (pipe_at s q) (is_wronly d.flags)) unused_pipe
            there,
        refs-set p false s.fd_table fd closed_fd,
        refs-set p true s.fd_table fd closed_fd,
      )
    ];
  }
    where
      closed_here :
          {p : ℕ}
          → q ≡ p
          → p < max_pipes
          → Matches
              (get_or
                (set s.pipes q (close_channel (pipe_at s q) (is_wronly d.flags)))
                p
                unused_pipe)
              (refs p false (set s.fd_table fd closed_fd))
              (refs p true (set s.fd_table fd closed_fd))
      closed_here {p} here h = ground (
        arith,
        v.counts p h,
        get_or-set_self s.pipes p (close_channel (pipe_at s p) true) unused_pipe,
        get_or-set_self s.pipes p (close_channel (pipe_at s p) false) unused_pipe,
        refs-set p false s.fd_table fd closed_fd,
        refs-set p true s.fd_table fd closed_fd,
        close-Matches_writer (pipe_at s p) (refs p false (set s.fd_table fd closed_fd))
            (refs p true (set s.fd_table fd closed_fd)),
        close-Matches_reader (pipe_at s p) (refs p false (set s.fd_table fd closed_fd))
            (refs p true (set s.fd_table fd closed_fd)),
      )

-- A descriptor copied over a closed one brings one more reference to its channel.
module _ (s : Files) (from to : ℕ) (v : Counted s) (from_in : from < max_open_files)
    (to_in : to < max_open_files) where
  abbrev source : FileDescriptor
  source = fd_at s from

  share_node-Counted :
      source.is_open ≡ true
      → (fd_at s to).is_open ≡ false
      → (node : Option VNode) → source.node ≡ node
      → Counted (share_node (set_fd s to source) node (is_wronly source.flags))
  unfolding share_node
  share_node-Counted o c none e = record {
    fds = length-set s.fd_table to source ∙ v.fds;
    slots = v.slots;
    counts = λ p h. ground (
      arith,
      v.counts p h,
      refs-set p false s.fd_table to source,
      refs-set p true s.fd_table to source,
    );
  }
  share_node-Counted o c (some (other n)) e = record {
    fds = length-set s.fd_table to source ∙ v.fds;
    slots = v.slots;
    counts = λ p h. ground (
      arith,
      v.counts p h,
      refs-set p false s.fd_table to source,
      refs-set p true s.fd_table to source,
    );
  }
  share_node-Counted o c (some (pipe_end q w)) e = record {
    fds = length-set s.fd_table to source ∙ v.fds;
    slots = length-set s.pipes q _ ∙ v.slots;
    counts = λ p h. elim (ℕ_discrete q p) [
      | yes here ↦ shared_here here h
      | no there ↦ ground (
        arith,
        v.counts p h,
        get_or-set_ne s.pipes q p (add_ref (pipe_at s q) (is_wronly source.flags)) unused_pipe
            there,
        refs-set p false s.fd_table to source,
        refs-set p true s.fd_table to source,
      )
    ];
  }
    where
      shared_here :
          {p : ℕ}
          → q ≡ p
          → p < max_pipes
          → Matches
              (get_or
                (set s.pipes q (add_ref (pipe_at s q) (is_wronly source.flags)))
                p
                unused_pipe)
              (refs p false (set s.fd_table to source))
              (refs p true (set s.fd_table to source))
      shared_here {p} here h = ground (
        arith,
        v.counts p h,
        get_or-set_self s.pipes p (add_ref (pipe_at s p) true) unused_pipe,
        get_or-set_self s.pipes p (add_ref (pipe_at s p) false) unused_pipe,
        refs-set p false s.fd_table to source,
        refs-set p true s.fd_table to source,
        refers-le-refs p false s.fd_table from,
        refers-le-refs p true s.fd_table from,
        add-Matches_writer (pipe_at s p) (refs p false s.fd_table) (refs p true s.fd_table),
        add-Matches_reader (pipe_at s p) (refs p false s.fd_table) (refs p true s.fd_table),
      )

pub vfs_close-Counted : (s : Files) (fd : ℤ) → Counted s → Counted (vfs_close s fd).1
unfolding vfs_close
vfs_close-Counted s (negsuc n) v = v
vfs_close-Counted s (pos fd) v = ground (
  arith,
  λ (h : fd < max_open_files).
      λ (o : (fd_at s fd).is_open ≡ true). close_node-Counted s fd v h o (fd_at s fd).node refl,
)

pub copy_fd-Counted :
    (s : Files) (from to : ℕ)
    → Counted s
    → from < max_open_files
    → to < max_open_files
    → (fd_at s from).is_open ≡ true
    → (fd_at s to).is_open ≡ false
    → Counted (copy_fd s from to)
unfolding copy_fd
copy_fd-Counted s from to v hf ht o c =
    share_node-Counted s from to v hf ht o c (fd_at s from).node refl
