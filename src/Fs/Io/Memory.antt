-- ===== src/Fs/Io/Memory.antt =====
-- The operations of ramfs files, as `vfs.cpp` calls them.
use zwei_os.Base.{ℕ, none, some, List, ℤ, ◌==◌, if◌then◌else◌}
use zwei_os.Mm.Heap.{Heap}
use zwei_os.Fs.Fd.{VNode, other, pipe_end}
use zwei_os.Fs.Ramfs.{FileNode, ramfs_file_read, ramfs_file_write}
use zwei_os.Fs.Io.{VNodeOps}

-- The nodes by number, and the heap that holds their bytes.
pub record Ramfs : Type 0 where
  pub heap : Heap
  pub nodes : ℕ → FileNode

unfoldable pub read_ramfs : ℕ → Ramfs → ℕ → ℕ → ℤ × List ℕ × Ramfs
read_ramfs n s offset size =
    let (r, bytes) = ramfs_file_read s.heap (s.nodes n) offset size in (r, bytes, s)

unfoldable pub write_ramfs : ℕ → Ramfs → ℕ → ℕ → List ℕ → ℤ × Ramfs
write_ramfs n s offset size buf =
    let (r, node, t) = ramfs_file_write s.heap (s.nodes n) offset size (some buf) in
    (r, record s { heap = t; nodes = λ k. if k == n then node else s.nodes k })

-- A pipe is no node of the ramfs.
unfoldable pub ramfs_ops : VNode → VNodeOps Ramfs
unfolding read_ramfs write_ramfs
ramfs_ops (other n) = record {
  read = some (read_ramfs n);
  write = some (write_ramfs n);
  size = λ s. (s.nodes n).size;
}
ramfs_ops (pipe_end q w) = record { read = none; write = none; size = λ s. 0 }
