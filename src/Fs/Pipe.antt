-- ===== src/Fs/Pipe.antt =====
-- kernel/fs/pipe.cpp: one `PipeChannel` and the operations on it.
-- The two vnodes of a channel are fixed by `pipe_create` and only point back to it; the module
-- `Fs.Fd` has them as node identities. A source buffer is the list of its bytes, and what a read
-- stores at buffer[0], buffer[1], ... is the list that it returns.
pub mod Window
pub mod Queue
pub mod Refine
mod Tests
use zwei_os.Base.{
  ℕ, ◌+◌, ◌-◌, ◌%◌, Bool, true, false, not, ◌&&◌, Option, none, some, List, [], ◌∷◌, ℤ, pos, negsuc,
  ltb, leb, ◌==◌, if◌then◌else◌, get_or, set, take,
}

abbrev pub pipe_capacity : ℕ
pipe_capacity = 4096

-- `ref_read` and `ref_write` are decremented only above zero, so they are never negative.
pub record PipeChannel : Type 0 where
  pub buffer : List ℕ
  pub head : ℕ
  pub tail : ℕ
  pub count : ℕ
  pub read_open : Bool
  pub write_open : Bool
  pub ref_read : ℕ
  pub ref_write : ℕ
  pub in_use : Bool

-- The loop of `pipe_vnode_read` with its rounds left: the bytes stored and the new channel.
pub read_loop : ℕ → PipeChannel → List ℕ × PipeChannel
read_loop ℕ.zero p = ([], p)
read_loop (ℕ.suc n) p =
    let (bytes, q) = read_loop n (record p { tail = (p.tail + 1) % pipe_capacity }) in
    (get_or p.buffer p.tail 0 ∷ bytes, q)

-- `pipe_vnode_read` behind its null checks: the result, the bytes stored, the new channel.
pub read_channel : PipeChannel → ℕ → ℤ × List ℕ × PipeChannel
read_channel p size =
    if not p.in_use
    then (negsuc 0, [], p)
    else if p.count == 0
    then (if not p.write_open then (pos 0, [], p) else (negsuc 10, [], p))
    else let to_read = if ltb size p.count then size else p.count in
      let (bytes, q) = read_loop to_read p in
      (pos to_read, bytes, record q { count = q.count - to_read })

-- `none` stands for a null node or a null `fs_data`, `false` for a null buffer.
pub pipe_vnode_read : Option PipeChannel → ℕ → Bool → ℤ × List ℕ × Option PipeChannel
pipe_vnode_read none size buffer = (negsuc 0, [], none)
pipe_vnode_read (some p) size false = (negsuc 0, [], some p)
pipe_vnode_read (some p) size true = let (r, bytes, q) = read_channel p size in (r, bytes, some q)

-- The loop of `pipe_vnode_write`; the list is buffer[written .. size).
pub write_loop : PipeChannel → List ℕ → ℕ → ℤ × PipeChannel
write_loop p [] written = (pos written, p)
write_loop p (x ∷ xs) written =
    let rest =
      write_loop
        (record p {
          buffer = set p.buffer p.head x;
          head = (p.head + 1) % pipe_capacity;
          count = p.count + 1;
        })
        xs (written + 1) in
    if leb pipe_capacity p.count
    then (if not p.read_open then (negsuc 31, p) else (pos written, p))
    else rest

-- `pipe_vnode_write` behind its null checks.
pub write_channel : PipeChannel → ℕ → List ℕ → ℤ × PipeChannel
write_channel p size src =
    if not p.in_use
    then (negsuc 0, p)
    else if not p.read_open
    then (negsuc 31, p)
    else if size == 0
    then (pos 0, p)
    else write_loop p (take size src) 0

pub pipe_vnode_write : Option PipeChannel → ℕ → Option (List ℕ) → ℤ × Option PipeChannel
pipe_vnode_write none size buffer = (negsuc 0, none)
pipe_vnode_write (some p) size none = (negsuc 0, some p)
pipe_vnode_write (some p) size (some src) = let (r, q) = write_channel p size src in (r, some q)

-- One end drops a reference, and is shut with its last one.
abbrev close_end : PipeChannel → Bool → PipeChannel
close_end p true =
    let ref = if ltb 0 p.ref_write then p.ref_write - 1 else p.ref_write in
    record p { ref_write = ref; write_open = if ref == 0 then false else p.write_open }
close_end p false =
    let ref = if ltb 0 p.ref_read then p.ref_read - 1 else p.ref_read in
    record p { ref_read = ref; read_open = if ref == 0 then false else p.read_open }

-- `pipe_vnode_close` on a channel: with both ends gone the slot is free again.
unfoldable pub close_channel : PipeChannel → Bool → PipeChannel
close_channel p is_write =
    if not p.in_use
    then p
    else let q = close_end p is_write in
      if q.ref_read == 0 && q.ref_write == 0
      then record q { in_use = false; count = 0; head = 0; tail = 0 }
      else q

-- The channel as `pipe_create` leaves it.
unfoldable pub open_channel : PipeChannel → PipeChannel
open_channel p = record p {
  head = 0;
  tail = 0;
  count = 0;
  read_open = true;
  write_open = true;
  ref_read = 1;
  ref_write = 1;
  in_use = true;
}
