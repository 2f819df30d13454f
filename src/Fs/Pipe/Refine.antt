-- ===== src/Fs/Pipe/Refine.antt =====
-- A valid channel behaves as the bounded queue of the bytes in it.
use zwei_os.Base.{
  ℕ, zero, suc, ◌+◌, ◌-◌, ◌%◌, ◌≤◌, ◌<◌, ◌≡◌, refl, sym, ap, ◌∙◌, ◌≢◌, Bool, true, false, List, [],
  ◌∷◌, ◌++◌, append-nil, append_assoc, arith, min, ℤ, pos, negsuc, if◌then◌else◌, length, set, take,
  take_all, drop_all, take-cons, take-nil, dec_lt, length-set, length-take, ℕ_discrete, ◌⊎◌, inl,
  inr,
}
use zwei_os.Fs.Pipe.{
  PipeChannel, pipe_capacity, read_loop, read_channel, write_loop, write_channel, close_channel,
  open_channel,
}
use zwei_os.Fs.Pipe.Window.{window, length-window, take-window, drop-window, window-set}
use zwei_os.Fs.Pipe.Queue
use zwei_os.Fs.Pipe.Queue.{Queue}

pub record IsValid (p : PipeChannel) : Type 0 where
  pub storage : length p.buffer ≡ pipe_capacity
  pub tail_in : p.tail < pipe_capacity
  pub count_in : p.count ≤ pipe_capacity
  pub head_at : p.head ≡ (p.tail + p.count) % pipe_capacity

abbrev pub contents : PipeChannel → Queue
contents p = window p.buffer p.tail p.count

read_loop_lem :
    (n : ℕ) (p : PipeChannel)
    → p.tail < pipe_capacity
    → read_loop n p ≡ (window p.buffer p.tail n, record p { tail = (p.tail + n) % pipe_capacity })
unfolding read_loop
read_loop_lem zero p h = ap (λ t. ([], record p { tail = t })) (omega arith)
read_loop_lem (suc n) p h =
    rw (read_loop_lem n (record p { tail = (p.tail + 1) % pipe_capacity }) (omega arith))
      (ap (λ t. (window p.buffer p.tail (suc n), record p { tail = t })) (omega arith))

-- An open channel that holds bytes hands over the oldest `size` of them, in order, or all if it
-- holds fewer: it returns their number, what is left in it is what the queue is left with, and it
-- stays valid. An empty one is left as it was, and returns 0 once the write end is shut, and -11
-- before.
pub read_refines :
    (p : PipeChannel) (size : ℕ)
    → IsValid p
    → p.in_use ≡ true
    → let (r, bytes, q) = read_channel p size in
      ((p.count ≢ 0)
        × (bytes ≡ (Queue.read (contents p) size).0)
        × (contents q ≡ (Queue.read (contents p) size).1)
        × (r ≡ pos (min size p.count))
        × IsValid q)
      ⊎ ((p.count ≡ 0) × (bytes ≡ []) × (q ≡ p) × (r ≡ (if p.write_open then negsuc 10 else pos 0)))
unfolding read_channel Queue.read
read_refines p size v u = elim (ℕ_discrete p.count 0) [
  | yes e ↦ inr (e, ground arith, ground arith, ground arith)
  | no ne ↦ elim (dec_lt size p.count) [
    | yes lt ↦ inl (
        ground (
          arith,
          read_loop_lem size p v.tail_in,
          take-window p.buffer p.tail p.count size,
          drop-window p.buffer p.tail p.count size,
        ))
    | no ge ↦ inl (
        ground (
          arith,
          read_loop_lem p.count p v.tail_in,
          length-window p.buffer p.tail p.count,
          take_all size (contents p),
          drop_all size (contents p),
        ))
  ]
]

-- The channel after one byte.
abbrev pushed : PipeChannel → ℕ → PipeChannel
pushed p x = record p {
  buffer = set p.buffer p.head x;
  head = (p.head + 1) % pipe_capacity;
  count = p.count + 1;
}

pushed-IsValid :
    (p : PipeChannel) (x : ℕ) → IsValid p → p.count < pipe_capacity → IsValid (pushed p x)
pushed-IsValid p x v h = omega (arith, length-set p.buffer p.head x)

-- The loop of a write: as much as there is room for goes to the end.
record Wrote (p : PipeChannel) (xs : List ℕ) (written : ℕ) (out : ℤ × PipeChannel) : Type 0 where
  valid : IsValid out.1
  result : out.0 ≡ pos (written + min (length xs) (pipe_capacity - p.count))
  bytes : contents out.1 ≡ contents p ++ take (pipe_capacity - p.count) xs

write_loop-Wrote :
    (xs : List ℕ) (p : PipeChannel) (written : ℕ)
    → IsValid p
    → p.read_open ≡ true
    → Wrote p xs written (write_loop p xs written)
unfolding write_loop
write_loop-Wrote [] p written v o = record {
  valid = v;
  result = ap pos (omega arith);
  bytes =
      sym (
        ap (λ l. contents p ++ l) (take-nil ℕ (pipe_capacity - p.count)) ∙ append-nil (contents p));
}
write_loop-Wrote (x ∷ xs) p written v o = elim (dec_lt p.count pipe_capacity) [
  | yes room ↦ ground (
    arith,
    write_loop-Wrote xs (pushed p x) (written + 1) (pushed-IsValid p x v room) o,
    window-set p.buffer x p.count p.tail p.head,
    take-cons (pipe_capacity - p.count) x xs,
    append_assoc (contents p) (x ∷ []) (take (pipe_capacity - p.count - 1) xs),
  )
  | no full ↦ ground (arith, append-nil (contents p))
]

-- A write to an open channel with its read end open returns how many of the `size` bytes there was
-- room for, puts exactly those at the end of the queue, in order, and keeps the channel valid.
pub write_refines :
    (p : PipeChannel) (size : ℕ) (src : List ℕ)
    → IsValid p
    → p.in_use ≡ true
    → p.read_open ≡ true
    → size ≤ length src
    → let (r, q) = write_channel p size src in
      (r ≡ pos (min size (pipe_capacity - p.count)))
      × (contents q ≡ Queue.write (contents p) (take size src))
      × IsValid q
unfolding write_channel Queue.write
write_refines p size src v u o h = elim (dec_lt 0 size) [
  | yes some_bytes ↦ ground (
    arith,
    write_loop-Wrote (take size src) p 0 v o,
    length-take size src,
    length-window p.buffer p.tail p.count,
  )
  | no none_left ↦
      ground (arith, append-nil (contents p), take-nil ℕ (pipe_capacity - length (contents p)))
]

-- Closing one end of a valid channel, or opening a channel over a whole buffer, keeps it valid.
pub close_channel-IsValid :
    (p : PipeChannel) (is_write : Bool) → IsValid p → IsValid (close_channel p is_write)
unfolding close_channel
close_channel-IsValid p true v = ground arith
close_channel-IsValid p false v = ground arith

pub open_channel-IsValid :
    (p : PipeChannel) → length p.buffer ≡ pipe_capacity → IsValid (open_channel p)
unfolding open_channel
open_channel-IsValid p h = omega arith

pub contents-open_channel : (p : PipeChannel) → contents (open_channel p) ≡ []
unfolding open_channel
contents-open_channel p = refl
