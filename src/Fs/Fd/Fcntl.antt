-- ===== src/Fs/Fd/Fcntl.antt =====
-- kernel/fs/vfs.cpp: `vfs_fcntl`. An `int` command or argument is its bits; a start whose sign bit
-- is set is negative.
use zwei_os.Base.{
  ℕ, ◌+◌, ◌-◌, ◌*◌, ◌/◌, ◌%◌, ◌^◌, ◌≡◌, ◌<◌, ◌∙◌, Bool, true, false, not, ◌||◌, inl, inr, none,
  some, ℤ, pos, negsuc, arith, leb, ◌==◌, if◌then◌else◌, drop, length-set, Option-cases, Bool-cases,
}
use zwei_os.Fs.Fd.{Files, fd_at, max_open_files, set_fd, first_closed, is_wronly, vfs_dup2}
use zwei_os.Fs.Fd.Count.{refs-set}
use zwei_os.Fs.Fd.Refs.{Counted}
use zwei_os.Fs.Fd.Steps.{vfs_dup2-Counted}

-- The bit O_CLOEXEC, and `flags |= O_CLOEXEC`, `flags &= ~O_CLOEXEC`.
abbrev has_cloexec : ℕ → Bool
has_cloexec flags = flags / 0x80000 % 2 == 1

with_cloexec : ℕ → Bool → ℕ
with_cloexec flags true = if has_cloexec flags then flags else flags + 0x80000
with_cloexec flags false = if has_cloexec flags then flags - 0x80000 else flags

-- `(flags & ~(O_NONBLOCK | O_APPEND)) | (arg & (O_NONBLOCK | O_APPEND))`: bits 10 and 11.
with_status : ℕ → ℕ → ℕ
with_status flags arg = flags - flags / 0x400 % 4 * 0x400 + arg / 0x400 % 4 * 0x400

set_flags : Files → ℕ → ℕ → Files
set_flags s fd flags = set_fd s fd (record (fd_at s fd) { flags = flags })

dup_from : Files → ℕ → ℕ → ℤ × Files
dup_from s fd arg =
    let start = arg % 2 ^ 32 in
    if leb (2 ^ 31) start || leb max_open_files start
    then (negsuc 21, s)
    else elim (first_closed (drop start s.fd_table) start) [
      | none ↦ (negsuc 23, s)
      | some i ↦ vfs_dup2 s (pos fd) (pos i)
    ]

set_flags-Counted :
    (s : Files) (fd flags : ℕ)
    → Counted s
    → fd < max_open_files
    → is_wronly flags ≡ is_wronly (fd_at s fd).flags
    → Counted (set_flags s fd flags)
unfolding set_flags
set_flags-Counted s fd flags v h same = record {
  fds = length-set s.fd_table fd _ ∙ v.fds;
  slots = v.slots;
  counts = λ p hp. ground (
    arith,
    v.counts p hp,
    v.fds,
    refs-set p false s.fd_table fd (record (fd_at s fd) { flags = flags }),
    refs-set p true s.fd_table fd (record (fd_at s fd) { flags = flags }),
  );
}

dup_from-Counted : (s : Files) (fd arg : ℕ) → Counted s → Counted (dup_from s fd arg).1
unfolding dup_from
dup_from-Counted s fd arg v =
    elim (Option-cases (first_closed (drop (arg % 2 ^ 32) s.fd_table) (arg % 2 ^ 32))) [
      | inl e ↦ ground (arith, e)
      | inr (i, e) ↦ ground (arith, e, vfs_dup2-Counted s (pos fd) (pos i) v)
    ]

with_cloexec-is_wronly : (flags : ℕ) (b : Bool) → is_wronly (with_cloexec flags b) ≡ is_wronly flags
unfolding with_cloexec
with_cloexec-is_wronly flags true = ground arith
with_cloexec-is_wronly flags false = ground arith

with_status-is_wronly : (flags arg : ℕ) → is_wronly (with_status flags arg) ≡ is_wronly flags
unfolding with_status
with_status-is_wronly flags arg = ground arith

module _ (s : Files) (fd cmd arg : ℕ) where
  abbrev flags : ℕ
  flags = (fd_at s fd).flags

  -- The switch, for a descriptor that is open.
  command : ℤ × Files
  command =
      if cmd == 0
      then dup_from s fd arg
      else if cmd == 1
      then (pos (if has_cloexec flags then 1 else 0), s)
      else if cmd == 2
      then (pos 0, set_flags s fd (with_cloexec flags (arg % 2 == 1)))
      else if cmd == 3
      then (pos flags, s)
      else if cmd == 4
      then (pos 0, set_flags s fd (with_status flags arg))
      else (negsuc 21, s)

  command-Counted : Counted s → fd < max_open_files → Counted command.1
  unfolding command
  command-Counted v h = ground (
    arith,
    dup_from-Counted s fd arg v,
    set_flags-Counted s fd (with_cloexec flags (arg % 2 == 1)) v h
        (with_cloexec-is_wronly flags (arg % 2 == 1)),
    set_flags-Counted s fd (with_status flags arg) v h (with_status-is_wronly flags arg),
  )

pub vfs_fcntl : Files → ℤ → ℕ → ℕ → ℤ × Files
unfolding command set_flags dup_from with_cloexec with_status
vfs_fcntl s (negsuc n) cmd arg = (negsuc 8, s)
vfs_fcntl s (pos fd) cmd arg =
    if leb max_open_files fd || not (fd_at s fd).is_open
    then (negsuc 8, s)
    else command s fd cmd arg

pub vfs_fcntl-Counted :
    (s : Files) (fd : ℤ) (cmd arg : ℕ) → Counted s → Counted (vfs_fcntl s fd cmd arg).1
vfs_fcntl-Counted s (negsuc n) cmd arg v = unfold vfs_fcntl in v
vfs_fcntl-Counted s (pos fd) cmd arg v =
    elim (Bool-cases (leb max_open_files fd || not (fd_at s fd).is_open)) [
      | inl bad ↦ unfold vfs_fcntl in rw bad v
      | inr fine ↦ unfold vfs_fcntl in rw fine (command-Counted s fd cmd arg v (ground arith))
    ]
