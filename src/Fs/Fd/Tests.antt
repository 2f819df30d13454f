-- ===== src/Fs/Fd/Tests.antt =====
-- Histories of the descriptor table, and the theorems about them at concrete calls.
use zwei_os.Base.{◌≡◌, refl, true, false, List, [], ◌∷◌, arith, pos}
use zwei_os.Fs.Pipe.{open_channel, close_channel}
use zwei_os.Fs.Fd.{
  pipe_at, vfs_init, first_closed, vfs_alloc_fd, vfs_close, vfs_dup, vfs_dup2, first_unused,
  pipe_create, unused_pipe, copy_fd,
}
use zwei_os.Fs.Fd.Count.{refs}
use zwei_os.Fs.Fd.Refs.{Matches}
use zwei_os.Fs.Fd.History.{Call, closes, dups_to, pipes, run, step, run-vfs_init-Matches}

-- A pipe, its read end shared with descriptor 5, and the first read descriptor closed.
abbrev calls : List Call
calls = pipes 0 ∷ dups_to (pos 3) (pos 5) ∷ closes (pos 3) ∷ []

-- The lowest descriptor that is free is 3 again.
reuse : (vfs_dup (run vfs_init calls) (pos 4)).0 ≡ pos 3
unfolding run step vfs_dup vfs_dup2 copy_fd vfs_close vfs_init first_closed first_unused
    vfs_alloc_fd pipe_create open_channel close_channel unused_pipe
reuse = refl

run-vfs_init-Matches_example :
    let s = run vfs_init calls in
    Matches (pipe_at s 0) (refs 0 false s.fd_table) (refs 0 true s.fd_table)
run-vfs_init-Matches_example = run-vfs_init-Matches calls 0 (refl, (tt, (tt, tt))) (omega arith)
