-- ===== src/Fs/Pipe/Tests.antt =====
-- Runs of the pipe operations, and the theorems about them at a channel whose bytes go round the
-- end of the buffer.
use zwei_os.Base.{
  ℕ, ◌≡◌, ◌≢◌, ◌⊎◌, refl, true, some, none, [], ◌∷◌, arith, min, pos, negsuc, replicate,
  length-replicate,
}
use zwei_os.Fs.Pipe.{
  PipeChannel, read_loop, read_channel, write_channel, pipe_vnode_read, pipe_vnode_write,
}
use zwei_os.Fs.Pipe.Queue
use zwei_os.Fs.Pipe.Refine.{IsValid, contents, read_refines, write_refines}

-- The bytes 7 and 7, at the last cell and at the first.
abbrev wrapped : PipeChannel
wrapped = record {
  buffer = replicate 4096 7;
  head = 1;
  tail = 4095;
  count = 2;
  read_open = true;
  write_open = true;
  ref_read = 1;
  ref_write = 1;
  in_use = true;
}

wrapped-IsValid : IsValid wrapped
wrapped-IsValid = record {
  storage = length-replicate {A = ℕ} 4096 7;
  tail_in = omega arith;
  count_in = omega arith;
  head_at = refl;
}

read_two : (read_channel wrapped 5).1 ≡ 7 ∷ 7 ∷ []
unfolding read_channel read_loop
read_two = refl

null_pointers :
    (pipe_vnode_read none 1 true ≡ (negsuc 0, [], none))
    × (pipe_vnode_write (some wrapped) 1 none ≡ (negsuc 0, some wrapped))
unfolding pipe_vnode_read pipe_vnode_write
null_pointers = (refl, refl)

read_refines_example :
    let (r, bytes, q) = read_channel wrapped 1 in
    ((wrapped.count ≢ 0)
      × (bytes ≡ (Queue.read (contents wrapped) 1).0)
      × (contents q ≡ (Queue.read (contents wrapped) 1).1)
      × (r ≡ pos (min 1 2))
      × IsValid q)
    ⊎ ((wrapped.count ≡ 0) × (bytes ≡ []) × (q ≡ wrapped) × (r ≡ negsuc 10))
read_refines_example = read_refines wrapped 1 wrapped-IsValid refl

write_refines_example :
    let (r, q) = write_channel wrapped 2 (1 ∷ 2 ∷ 3 ∷ []) in
    (r ≡ pos 2) × (contents q ≡ Queue.write (contents wrapped) (1 ∷ 2 ∷ [])) × IsValid q
write_refines_example =
    write_refines wrapped 2 (1 ∷ 2 ∷ 3 ∷ []) wrapped-IsValid refl refl (omega arith)
