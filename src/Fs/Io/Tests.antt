-- ===== src/Fs/Io/Tests.antt =====
-- An empty ramfs file behind descriptor 3, in the initial heap.
use zwei_os.Base.{◌≡◌, refl, true, some, [], ◌∷◌, pos, arith}
use zwei_os.Mm.Heap.{heap_init}
use zwei_os.Mm.Heap.Blocks.{heap_init-IsValid}
use zwei_os.Fs.Fd.{Files, other, closed_fd}
use zwei_os.Fs.Ramfs.Overwrite.{file_node}
use zwei_os.Fs.Io.{Io, vfs_read, vfs_write, vfs_lseek}
use zwei_os.Fs.Io.Memory.{Ramfs, ramfs_ops}
use zwei_os.Fs.Io.Open.{IsOpen}
use zwei_os.Fs.Io.Round.{no_file, no_file-IsFile, vfs_read-vfs_write}

abbrev opened_files : Files
opened_files = record {
  fd_table =
      closed_fd
      ∷ closed_fd
      ∷ closed_fd
      ∷ record { node = some (other 7); offset = 0; flags = 0; is_open = true }
      ∷ [];
  pipes = [];
}

abbrev io : Io Ramfs
io = record {
  files = opened_files;
  store = record { heap = heap_init; nodes = λ k. file_node no_file };
  input = [];
  output = [];
}

opened-IsOpen : IsOpen opened_files 3 (other 7) 0
opened-IsOpen = record {
  in_table = omega arith;
  below = omega arith;
  opened = refl;
  node_eq = refl;
  offset_eq = refl;
}

vfs_read-vfs_write_example :
    let (r, io1) = vfs_write ramfs_ops io (pos 3) (some (72 ∷ 105 ∷ [])) 2 in
    let (q, io2) = vfs_lseek ramfs_ops io1 (pos 3) (pos 0) 0 in
    (r ≡ pos 2)
    × (q ≡ pos 0)
    × ((io3 : Io Ramfs) × (vfs_read ramfs_ops io2 (pos 3) true 2
          ≡ some (pos 2, 72 ∷ 105 ∷ [], io3)))
unfolding heap_init
vfs_read-vfs_write_example =
    vfs_read-vfs_write io 3 7 no_file 0 (72 ∷ 105 ∷ []) opened-IsOpen refl heap_init-IsValid
      (no_file-IsFile heap_init) (omega arith) (omega arith) (omega arith)
