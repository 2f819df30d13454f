-- ===== src/Fs/Fd/History.antt =====
-- Histories of calls on the descriptor table, from the table that `vfs_init` leaves.
use zwei_os.Base.{
  ℕ, zero, suc, ◌<◌, ◌≡◌, refl, ap, Bool, true, false, List, [], ◌∷◌, ℤ, arith, get_or, replicate,
  length,
}
use zwei_os.Fs.Fd.{
  Files, unused_pipe, pipe_at, is_wronly, max_pipes, vfs_init, vfs_close, vfs_dup, vfs_dup2,
  pipe_create,
}
use zwei_os.Fs.Fd.Count.{refs, refs-replicate}
use zwei_os.Fs.Fd.Refs.{Matches, Counted, vfs_close-Counted}
use zwei_os.Fs.Fd.Steps.{vfs_dup-Counted, vfs_dup2-Counted}
use zwei_os.Fs.Fd.Create.{pipe_create-Counted}
use zwei_os.Fs.Fd.Fcntl.{vfs_fcntl, vfs_fcntl-Counted}

pub data Call : Type 0 where
  closes : ℤ → Call
  dups : ℤ → Call
  dups_to : ℤ → ℤ → Call
  fcntls : ℤ → ℕ → ℕ → Call
  pipes : ℕ → Call

-- The flags given to `pipe2` do not hold O_WRONLY.
abbrev pub IsPlain : Call → Type 0
IsPlain (pipes flags) = is_wronly flags ≡ false
IsPlain other_call = Unit

abbrev pub ArePlain : List Call → Type 0
ArePlain [] = Unit
ArePlain (c ∷ cs) = IsPlain c × ArePlain cs

unfoldable pub step : Files → Call → Files
step s (closes fd) = (vfs_close s fd).1
step s (dups fd) = (vfs_dup s fd).1
step s (dups_to old new) = (vfs_dup2 s old new).1
step s (fcntls fd cmd arg) = (vfs_fcntl s fd cmd arg).1
step s (pipes flags) = (pipe_create s flags).2

unfoldable pub run : Files → List Call → Files
run s [] = s
run s (c ∷ cs) = run (step s c) cs

step-Counted : (s : Files) (c : Call) → IsPlain c → Counted s → Counted (step s c)
unfolding step
step-Counted s (closes fd) h v = vfs_close-Counted s fd v
step-Counted s (dups fd) h v = vfs_dup-Counted s fd v
step-Counted s (dups_to old new) h v = vfs_dup2-Counted s old new v
step-Counted s (fcntls fd cmd arg) h v = vfs_fcntl-Counted s fd cmd arg v
step-Counted s (pipes flags) h v = pipe_create-Counted s flags h v

run-Counted : (s : Files) (cs : List Call) → ArePlain cs → Counted s → Counted (run s cs)
unfolding run
run-Counted s [] h v = v
run-Counted s (c ∷ cs) h v = run-Counted (step s c) cs h.1 (step-Counted s c h.0 v)

get_or-replicate : (n i : ℕ) → get_or (replicate n unused_pipe) i unused_pipe ≡ unused_pipe
get_or-replicate zero i = refl
get_or-replicate (suc n) zero = refl
get_or-replicate (suc n) (suc i) = get_or-replicate n i

vfs_init-pipes : (p : ℕ) → (pipe_at vfs_init p).in_use ≡ false
unfolding vfs_init unused_pipe
vfs_init-pipes p = ap (λ c. c.in_use) (get_or-replicate max_pipes p)

vfs_init-refs : (p : ℕ) (w : Bool) → refs p w vfs_init.fd_table ≡ 0
unfolding vfs_init refs
vfs_init-refs p true = omega (arith, refs-replicate p 61 true)
vfs_init-refs p false = omega (arith, refs-replicate p 61 false)

vfs_init-sizes : (length vfs_init.fd_table ≡ 64) × (length vfs_init.pipes ≡ 16)
unfolding vfs_init
vfs_init-sizes = (refl, refl)

pub vfs_init-Counted : Counted vfs_init
vfs_init-Counted = record {
  fds = vfs_init-sizes.0;
  slots = vfs_init-sizes.1;
  counts = λ p h. ground (arith, vfs_init-pipes p, vfs_init-refs p true, vfs_init-refs p false);
}

-- After any history of close, dup, dup2, fcntl and pipe calls, in which no pipe call is given
-- O_WRONLY among its flags, a channel's slot is in use exactly while some open descriptor refers to
-- it; then its reference counts are the numbers of open reading and writing descriptors, and an end
-- is open exactly while one of them is left.
pub run-vfs_init-Matches :
    (cs : List Call) (p : ℕ)
    → ArePlain cs
    → p < max_pipes
    → let s = run vfs_init cs in
      Matches (pipe_at s p) (refs p false s.fd_table) (refs p true s.fd_table)
run-vfs_init-Matches cs p h = (run-Counted vfs_init cs h vfs_init-Counted).counts p
