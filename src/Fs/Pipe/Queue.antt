-- ===== src/Fs/Pipe/Queue.antt =====
-- What a pipe promises: a first-in first-out queue of at most `pipe_capacity` bytes.
use zwei_os.Base.{ℕ, ◌-◌, List, ◌++◌, length, take, drop}
use zwei_os.Fs.Pipe.{pipe_capacity}

abbrev pub Queue : Type 0
Queue = List ℕ

-- The bytes handed over, and those kept.
unfoldable pub read : Queue → ℕ → List ℕ × Queue
read q n = (take n q, drop n q)

-- As many bytes as there is room for go to the end.
unfoldable pub write : Queue → List ℕ → Queue
write q xs = q ++ take (pipe_capacity - length q) xs
