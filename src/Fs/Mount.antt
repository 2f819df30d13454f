-- ===== src/Fs/Mount.antt =====
-- The mount table of kernel/fs/vfs.cpp, and the resolution of paths over it. A `VNode*` is a number; a
-- null pointer is `none`, and no call is given one. The nodes' type and lookup, which each file system has its own, are parameters.
pub mod Longest
pub mod Walk
mod Tests
use zwei_os.Base.{
  ℕ, zero, suc, ◌+◌, ◌-◌, ◌<◌, ◌≡◌, Bool, true, false, not, ◌&&◌, ◌||◌, Option, none, some, List,
  [], ◌∷◌, ◌++◌, ℤ, pos, negsuc, ltb, leb, ◌==◌, if◌then◌else◌, length, take, drop, get_or, set,
  replicate,
}
use mathlib.Core.Option
use zwei_os.Fs.Path.{slash, backslash, colon, to_upper, vfs_normalize_path}

abbrev pub max_mounts : ℕ
max_mounts = 8

pub record MountEntry : Type 0 where
  pub mount_path : List ℕ
  pub drive_letter : ℕ
  pub root_vnode : Option ℕ
  pub in_use : Bool

abbrev pub no_mount : MountEntry
no_mount = record { mount_path = []; drive_letter = 0; root_vnode = none; in_use = false }

-- `strcmp` gives 0.
abbrev pub str_eq : List ℕ → List ℕ → Bool
str_eq [] [] = true
str_eq [] (y ∷ ys) = false
str_eq (x ∷ xs) [] = false
str_eq (x ∷ xs) (y ∷ ys) = x == y && str_eq xs ys

pub find_mount : (MountEntry → Bool) → List MountEntry → ℕ → Option ℕ
find_mount test [] i = none
find_mount test (e ∷ es) i =
    let rest = find_mount test es (i + 1) in if test e then some i else rest

abbrev pub is_same_mount : List ℕ → ℕ → MountEntry → Bool
is_same_mount norm drive e =
    e.in_use && (str_eq e.mount_path norm || (not (drive == 0) && e.drive_letter == drive))

mount_at : List MountEntry → MountEntry → Option ℕ → ℤ × List MountEntry
mount_at es new none = (negsuc 0, es)
mount_at es new (some i) = (pos 0, set es i new)

or_unused : List MountEntry → Option ℕ → Option ℕ
unfolding find_mount
or_unused es none = find_mount (λ e. not e.in_use) es 0
or_unused es (some i) = some i

mount_normal : List MountEntry → ℕ → ℕ → List ℕ → ℤ × List MountEntry
unfolding or_unused mount_at
mount_normal es drive_letter root norm =
    let drive = to_upper drive_letter in
    mount_at es
      (record { mount_path = norm; drive_letter = drive; root_vnode = some root; in_use = true })
      (or_unused es (find_mount (is_same_mount norm drive) es 0))

-- Here and below, `none` is a path that cannot be made normal (`vfs_normalize_path`).
pub vfs_mount : List ℕ → List ℕ → List MountEntry → List ℕ → ℕ → ℕ → Option (ℤ × List MountEntry)
unfolding mount_normal
vfs_mount stack cwd es path drive_letter root =
    Option.map (mount_normal es drive_letter root) (vfs_normalize_path stack cwd 64 path)

unmount_at : List MountEntry → Option ℕ → ℤ × List MountEntry
unmount_at es none = (negsuc 0, es)
unmount_at es (some i) = (pos 0, set es i no_mount)

unmount_normal : List MountEntry → List ℕ → ℤ × List MountEntry
unfolding unmount_at find_mount
unmount_normal es norm = unmount_at es (find_mount (λ e. e.in_use && str_eq e.mount_path norm) es 0)

pub vfs_unmount : List ℕ → List ℕ → List MountEntry → List ℕ → Option (ℤ × List MountEntry)
unfolding unmount_normal
vfs_unmount stack cwd es path =
    Option.map (unmount_normal es) (vfs_normalize_path stack cwd 64 path)

pub vfs_get_mount_count : List MountEntry → ℕ
vfs_get_mount_count [] = 0
vfs_get_mount_count (e ∷ es) =
    let rest = vfs_get_mount_count es in if e.in_use then rest + 1 else rest

pub vfs_get_mount : List MountEntry → ℕ → Option MountEntry
vfs_get_mount [] index = none
vfs_get_mount (e ∷ es) zero = let rest = vfs_get_mount es zero in if e.in_use then some e else rest
vfs_get_mount (e ∷ es) (suc index) = vfs_get_mount es (if e.in_use then index else suc index)

-- The mount's path, whose length is given, is a prefix of `norm` that ends at a slash or at its end.
abbrev pub covers : List ℕ → MountEntry → Bool
covers norm e =
    str_eq (take (length e.mount_path) norm) e.mount_path
    && (get_or norm (length e.mount_path) 0 == slash || get_or norm (length e.mount_path) 0 == 0)

abbrev pub is_root_path : List ℕ → Bool
is_root_path path = length path == 1 && get_or path 0 0 == slash

-- The scan for the longest prefix: its length and its index so far.
pub better : MountEntry → List ℕ → ℕ → ℕ → Option ℕ → ℕ × Option ℕ
better e norm i longest best =
    let mlen = length e.mount_path in
    if not e.in_use
    then (longest, best)
    else if is_root_path e.mount_path
    then (if longest == 0 then (1, some i) else (longest, best))
    else if covers norm e && ltb longest mlen
    then (mlen, some i)
    else (longest, best)

pub best_mount : List MountEntry → List ℕ → ℕ → ℕ → Option ℕ → ℕ × Option ℕ
unfolding better
best_mount [] norm i longest best = (longest, best)
best_mount (e ∷ es) norm i longest best =
    let (longest', best') = better e norm i longest best in
    best_mount es norm (i + 1) longest' best'

skip_slashes : List ℕ → List ℕ
skip_slashes [] = []
skip_slashes (c ∷ cs) = if c == slash || c == backslash then skip_slashes cs else c ∷ cs

skip_plain_slashes : List ℕ → List ℕ
skip_plain_slashes [] = []
skip_plain_slashes (c ∷ cs) = if c == slash then skip_plain_slashes cs else c ∷ cs

-- A token of up to 63 characters, and what follows it.
pub next_token : ℕ → List ℕ → List ℕ × List ℕ
next_token zero cs = ([], cs)
next_token (suc room) [] = ([], [])
next_token (suc room) (c ∷ cs) =
    let (token, rest) = next_token room cs in
    if c == slash || c == backslash then ([], c ∷ cs) else (c ∷ token, rest)

module _ (is_dir : ℕ → Bool) (lookup : ℕ → List ℕ → Option ℕ) where
  -- One token's effect on the node.
  descend : ℕ → List ℕ → Option ℕ
  descend curr token =
      if length token == 0 || str_eq token (46 ∷ [])
      then some curr
      else if is_dir curr
      then lookup curr token
      else none

  -- The loop, on fuel.
  pub resolve_loop : ℕ → Option ℕ → List ℕ → Option ℕ
  unfolding descend next_token skip_slashes
  resolve_loop zero curr path = curr
  resolve_loop (suc fuel) none path = none
  resolve_loop (suc fuel) (some curr) [] = some curr
  resolve_loop (suc fuel) (some curr) (c ∷ cs) =
      let (token, rest) = next_token 63 (c ∷ cs) in
      resolve_loop fuel (descend curr token) (skip_slashes rest)

  pub resolve_relative_path : Option ℕ → List ℕ → Option ℕ
  unfolding skip_plain_slashes
  resolve_relative_path start path =
      let p = skip_plain_slashes path in resolve_loop (length p + 1) start p

  root_at : List MountEntry → Option ℕ → Option ℕ
  root_at es none = none
  root_at es (some i) = (get_or es i no_mount).root_vnode

  -- A drive's mount, or the root for drive C.
  resolve_drive : List MountEntry → Option ℕ → List ℕ → Option ℕ → Option ℕ
  unfolding root_at
  resolve_drive es root norm (some i) = resolve_relative_path (root_at es (some i)) (drop 2 norm)
  resolve_drive es root norm none =
      if get_or norm 0 0 == 67 then resolve_relative_path root (drop 2 norm) else none

  resolve_plain : List MountEntry → Option ℕ → List ℕ → ℕ × Option ℕ → Option ℕ
  unfolding root_at
  resolve_plain es root norm (longest, some i) =
      resolve_relative_path (root_at es (some i)) (drop longest norm)
  resolve_plain es root norm (longest, none) = resolve_relative_path root norm

  resolve_normal : List MountEntry → Option ℕ → List ℕ → Option ℕ
  unfolding resolve_drive resolve_plain best_mount find_mount
  resolve_normal es root norm =
      if get_or norm 1 0 == colon
      then resolve_drive es root norm
          (find_mount (λ e. e.in_use && e.drive_letter == to_upper (get_or norm 0 0)) es 0)
      else resolve_plain es root norm (best_mount es norm 0 0 none)

  pub vfs_resolve_path : List ℕ → List ℕ → List MountEntry → Option ℕ → List ℕ → Option (Option ℕ)
  unfolding resolve_normal
  vfs_resolve_path stack cwd es root path =
      Option.map (resolve_normal es root) (vfs_normalize_path stack cwd 256 path)
