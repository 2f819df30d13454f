-- ===== src/Fs/Fd.antt =====
-- kernel/fs/vfs.cpp, the descriptor table, with `pipe_create` of kernel/fs/pipe.cpp on top of it.
-- A `VNode*` is the identity of its node: an end of a channel (the only nodes of type PIPE), or
-- any other node by number. Flags are the bits of the `int`; `flags & O_WRONLY` is the lowest one.
pub mod Count
pub mod Refs
pub mod Steps
pub mod Create
pub mod Fcntl
pub mod History
pub mod Leak
mod Tests
use zwei_os.Base.{
  ℕ, ◌+◌, ◌-◌, ◌*◌, ◌/◌, ◌%◌, ◌^◌, Bool, true, false, not, ◌||◌, Option, none, some, List, [], ◌∷◌,
  ℤ, pos, negsuc, leb, ltb, ◌==◌, if◌then◌else◌, get_or, set, drop, replicate, length,
}
use zwei_os.Fs.Pipe.{PipeChannel, close_channel, open_channel, pipe_capacity}

abbrev pub max_open_files : ℕ
max_open_files = 64

abbrev pub max_pipes : ℕ
max_pipes = 16

-- A vnode of channel `index`: its write end, or its read end.
pub data VNode : Type 0 where
  pipe_end : ℕ → Bool → VNode
  other : ℕ → VNode

pub record FileDescriptor : Type 0 where
  pub node : Option VNode
  pub offset : ℕ
  pub flags : ℕ
  pub is_open : Bool

-- `g_fd_table` and `g_pipes`.
pub record Files : Type 0 where
  pub fd_table : List FileDescriptor
  pub pipes : List PipeChannel

abbrev pub closed_fd : FileDescriptor
closed_fd = record { node = none; offset = 0; flags = 0; is_open = false }

-- Static storage is zero, the buffer included.
pub unused_pipe : PipeChannel
unused_pipe = record {
  buffer = replicate pipe_capacity 0;
  head = 0;
  tail = 0;
  count = 0;
  read_open = false;
  write_open = false;
  ref_read = 0;
  ref_write = 0;
  in_use = false;
}

-- The array reads `g_fd_table[i]` and `g_pipes[i]`.
abbrev pub fd_at : Files → ℕ → FileDescriptor
fd_at s i = get_or s.fd_table i closed_fd

abbrev pub pipe_at : Files → ℕ → PipeChannel
pipe_at s i = get_or s.pipes i unused_pipe

-- `(flags & O_WRONLY) != 0`, and `O_WRONLY | flags`.
abbrev pub is_wronly : ℕ → Bool
is_wronly flags = flags % 2 == 1

abbrev pub or_wronly : ℕ → ℕ
or_wronly flags = if is_wronly flags then flags else flags + 1

-- `vfs_init`: the standard streams are open and have no node.
pub vfs_init : Files
vfs_init = record {
  fd_table =
      record closed_fd { is_open = true }
      ∷ record closed_fd { is_open = true; flags = 1 }
      ∷ record closed_fd { is_open = true; flags = 1 }
      ∷ replicate 61 closed_fd;
  pipes = replicate max_pipes unused_pipe;
}

-- The scan of a table for a closed descriptor; `i` is the index of the list's head.
pub first_closed : List FileDescriptor → ℕ → Option ℕ
first_closed [] i = none
first_closed (d ∷ ds) i = let rest = first_closed ds (i + 1) in if d.is_open then rest else some i

abbrev set_fd : Files → ℕ → FileDescriptor → Files
set_fd s i d = record s { fd_table = set s.fd_table i d }

abbrev set_pipe : Files → ℕ → PipeChannel → Files
set_pipe s i p = record s { pipes = set s.pipes i p }

pub vfs_alloc_fd : Files → Option VNode → ℕ → ℤ × Files
vfs_alloc_fd s none flags = (negsuc 0, s)
vfs_alloc_fd s (some node) flags = elim (first_closed (drop 3 s.fd_table) 3) [
  | none ↦ (negsuc 0, s)
  | some i ↦
      (pos i, set_fd s i (record { node = some node; offset = 0; flags = flags; is_open = true }))
]

-- `pipe_vnode_close` on the node of a descriptor that is about to be closed.
close_node : Files → Option VNode → Bool → Files
close_node s (some (pipe_end q w)) is_write = set_pipe s q (close_channel (pipe_at s q) is_write)
close_node s other_node is_write = s

pub vfs_close : Files → ℤ → ℤ × Files
unfolding close_node
vfs_close s (negsuc n) = (negsuc 0, s)
vfs_close s (pos fd) =
    if leb max_open_files fd
    then (negsuc 0, s)
    else if not (fd_at s fd).is_open
    then (negsuc 0, s)
    else let d = fd_at s fd in
      (pos 0, set_fd (close_node s d.node (is_wronly d.flags)) fd closed_fd)

-- One more descriptor of a channel: `ref_write++` or `ref_read++`.
abbrev add_ref : PipeChannel → Bool → PipeChannel
add_ref p true = record p { ref_write = p.ref_write + 1 }
add_ref p false = record p { ref_read = p.ref_read + 1 }

share_node : Files → Option VNode → Bool → Files
share_node s (some (pipe_end q w)) is_write = set_pipe s q (add_ref (pipe_at s q) is_write)
share_node s other_node is_write = s

-- `g_fd_table[to] = g_fd_table[from]`, with the reference that the copy holds.
pub copy_fd : Files → ℕ → ℕ → Files
unfolding share_node
copy_fd s from to = let d = fd_at s from in share_node (set_fd s to d) d.node (is_wronly d.flags)

pub vfs_dup : Files → ℤ → ℤ × Files
vfs_dup s (negsuc n) = (negsuc 8, s)
vfs_dup s (pos oldfd) =
    if leb max_open_files oldfd || not (fd_at s oldfd).is_open
    then (negsuc 8, s)
    else elim (first_closed s.fd_table 0) [
      | none ↦ (negsuc 23, s)
      | some i ↦ (pos i, copy_fd s oldfd i)
    ]

pub vfs_dup2 : Files → ℤ → ℤ → ℤ × Files
vfs_dup2 s (negsuc n) newfd = (negsuc 8, s)
vfs_dup2 s (pos oldfd) (negsuc n) = (negsuc 8, s)
vfs_dup2 s (pos oldfd) (pos newfd) =
    if leb max_open_files oldfd || not (fd_at s oldfd).is_open
    then (negsuc 8, s)
    else if leb max_open_files newfd
    then (negsuc 8, s)
    else if oldfd == newfd
    then (pos newfd, s)
    else let t = if (fd_at s newfd).is_open then (vfs_close s (pos newfd)).1 else s in
      (pos newfd, copy_fd t oldfd newfd)

-- The scan of `g_pipes` for a slot that is not in use.
pub first_unused : List PipeChannel → ℕ → Option ℕ
first_unused [] i = none
first_unused (p ∷ ps) i = let rest = first_unused ps (i + 1) in if p.in_use then rest else some i

-- What `pipe_create` does once it has a slot: both ends get a descriptor, or the slot is given up.
abbrev release_pipe : Files → ℕ → Files
release_pipe s q = set_pipe s q (record (pipe_at s q) { in_use = false })

second_end : Files → ℕ → ℕ → ℕ → ℤ × Option (ℕ × ℕ) × Files
second_end s q rfd flags =
    let (r, t) = vfs_alloc_fd s (some (pipe_end q true)) (or_wronly flags) in
    elim r [
      | pos wfd ↦ (pos 0, some (rfd, wfd), t)
      | negsuc e ↦ (negsuc 23, none, release_pipe (vfs_close t (pos rfd)).1 q)
    ]

create_at : Files → ℕ → ℕ → ℤ × Option (ℕ × ℕ) × Files
unfolding second_end
create_at s q flags =
    let t = set_pipe s q (open_channel (pipe_at s q)) in
    let (r, u) = vfs_alloc_fd t (some (pipe_end q false)) flags in
    elim r [ pos rfd ↦ second_end u q rfd flags | negsuc e ↦ (negsuc 23, none, release_pipe u q) ]

-- `pipe_create`, after `pipe_init` (which `vfs_init` calls): the result, `pipefd`, the new state.
pub pipe_create : Files → ℕ → ℤ × Option (ℕ × ℕ) × Files
unfolding create_at
pipe_create s flags = elim (first_unused s.pipes 0) [
  | none ↦ (negsuc 23, none, s)
  | some q ↦ create_at s q flags
]
