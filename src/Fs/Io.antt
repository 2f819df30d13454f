-- ===== src/Fs/Io.antt =====
-- kernel/fs/vfs.cpp, input and output through a descriptor: `vfs_read`, `vfs_write` and `vfs_lseek`.
-- The operations of the nodes (`VNodeOps`), over a state of theirs, are a parameter.
pub mod Open
pub mod Memory
pub mod Round
mod Tests
use zwei_os.Base.{
  ℕ, zero, suc, ◌+◌, ◌-◌, ◌*◌, ◌%◌, ◌^◌, Bool, true, false, not, ◌||◌, Option, none, some, List, [],
  ◌∷◌, ◌++◌, ℤ, pos, negsuc, leb, ltb, ◌==◌, if◌then◌else◌, length, set, take,
}
use zwei_os.Fs.Fd.{VNode, FileDescriptor, Files, max_open_files, fd_at}

-- What the table of descriptors reaches: `read` gives the result and the bytes, `write` the result.
-- Operations that a node lacks are `none`.
pub record VNodeOps (S : Type 0) : Type 0 where
  pub read : Option (S → ℕ → ℕ → ℤ × List ℕ × S)
  pub write : Option (S → ℕ → ℕ → List ℕ → ℤ × S)
  pub size : S → ℕ

-- `input` is what the console will deliver, and `output` what it has printed.
pub record Io (S : Type 0) : Type 0 where
  pub files : Files
  pub store : S
  pub input : List ℕ
  pub output : List ℕ

-- `static_cast<int64_t>`, and the bits of an int64_t.
pub to_int64 : ℕ → ℤ
to_int64 n = let r = n % 2 ^ 64 in if ltb r (2 ^ 63) then pos r else negsuc (2 ^ 64 - 1 - r)

pub bits_of : ℤ → ℕ
bits_of (pos n) = n
bits_of (negsuc n) = 2 ^ 64 - 1 - n

-- The loop on standard input, up to a line's end; `none` where it waits for ever.
read_line : ℕ → List ℕ → Option (List ℕ × List ℕ)
read_line zero input = some ([], input)
read_line (suc n) [] = none
read_line (suc n) (c ∷ input) =
    let rest = read_line n input in
    if c == 10 || c == 13
    then some (c ∷ [], input)
    else elim rest [ none ↦ none | some (line, left) ↦ some (c ∷ line, left) ]

pub is_bad_fd : Files → ℕ → Bool
is_bad_fd s fd = leb max_open_files fd || not (fd_at s fd).is_open

-- Where `whence` counts from: `SEEK_SET`, `SEEK_CUR` and `SEEK_END`.
pub seek_base : ℕ → ℕ → ℕ → Option ℕ
seek_base offset size whence =
    if whence == 0
    then some 0
    else if whence == 1
    then some offset
    else if whence == 2
    then some size
    else none

module _ {S : Type 0} where
  abbrev pub set_offset : Io S → ℕ → ℕ → Io S
  set_offset io fd o = record io {
    files = record io.files {
      fd_table = set io.files.fd_table fd (record (fd_at io.files fd) { offset = o });
    };
  }

  -- `if (res > 0) offset += res`
  pub advance : Io S → ℕ → ℤ → Io S
  advance io fd (pos res) =
      if ltb 0 res then set_offset io fd (((fd_at io.files fd).offset + res) % 2 ^ 64) else io
  advance io fd (negsuc e) = io

  read_stdin : Io S → ℕ → Option (ℤ × List ℕ × Io S)
  unfolding read_line
  read_stdin io count = elim (read_line count io.input) [
    | none ↦ none
    | some (line, left) ↦ some (pos (length line), line, record io { input = left })
  ]

  pub read_node : VNodeOps S → Io S → ℕ → ℕ → ℤ × List ℕ × Io S
  unfolding advance
  read_node ops io fd count = elim ops.read [
    | none ↦ (negsuc 0, [], io)
    | some read ↦
        let (res, bytes, t) = read io.store (fd_at io.files fd).offset count in
        (res, bytes, advance (record io { store = t }) fd res)
  ]

  -- The result, what the buffer receives, and the new state; `none` where the call never returns.
  -- `has_buf` is `buf != nullptr`.
  pub vfs_read : (VNode → VNodeOps S) → Io S → ℤ → Bool → ℕ → Option (ℤ × List ℕ × Io S)
  unfolding is_bad_fd read_stdin read_node
  vfs_read ops io (negsuc n) has_buf count = some (negsuc 0, [], io)
  vfs_read ops io (pos fd) has_buf count =
      if not has_buf || is_bad_fd io.files fd
      then some (negsuc 0, [], io)
      else elim (fd_at io.files fd).node [
        | some node ↦ some (read_node (ops node) io fd count)
        | none ↦ if fd == 0 then read_stdin io count else some (negsuc 0, [], io)
      ]

  pub write_node : VNodeOps S → Io S → ℕ → List ℕ → ℕ → ℤ × Io S
  unfolding advance
  write_node ops io fd buf count = elim ops.write [
    | none ↦ (negsuc 0, io)
    | some write ↦
        let (res, t) = write io.store (fd_at io.files fd).offset count buf in
        (res, advance (record io { store = t }) fd res)
  ]

  -- `buf` holds at least `count` bytes, if it is not null.
  pub vfs_write : (VNode → VNodeOps S) → Io S → ℤ → Option (List ℕ) → ℕ → ℤ × Io S
  unfolding is_bad_fd write_node
  vfs_write ops io (negsuc n) buf count = (negsuc 0, io)
  vfs_write ops io (pos fd) none count = (negsuc 0, io)
  vfs_write ops io (pos fd) (some buf) count =
      if is_bad_fd io.files fd then (negsuc 0, io) else elim (fd_at io.files fd).node [
        | some node ↦ write_node (ops node) io fd buf count
        | none ↦
            if fd == 1 || fd == 2
            then (pos count, record io { output = io.output ++ take count buf })
            else (negsuc 0, io)
      ]

  pub seek_to : Io S → ℕ → ℤ → ℤ × Io S
  seek_to io fd (negsuc n) = (negsuc 0, io)
  seek_to io fd (pos o) = (pos o, set_offset io fd o)

  -- The sum of two int64_t, with the wrap-around of the machine.
  pub vfs_lseek : (VNode → VNodeOps S) → Io S → ℤ → ℤ → ℕ → ℤ × Io S
  unfolding is_bad_fd seek_base seek_to
  vfs_lseek ops io (negsuc n) offset whence = (negsuc 0, io)
  vfs_lseek ops io (pos fd) offset whence =
      if is_bad_fd io.files fd
      then (negsuc 0, io)
      else let d = fd_at io.files fd in
        elim d.node [
          | none ↦ (negsuc 0, io)
          | some node ↦ elim (seek_base d.offset ((ops node).size io.store) whence) [
            | none ↦ (negsuc 0, io)
            | some base ↦ seek_to io fd (to_int64 (base + bits_of offset))
          ]
        ]
