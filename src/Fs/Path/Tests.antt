-- ===== src/Fs/Path/Tests.antt =====
-- The paths of the shell's examples.
use zwei_os.Base.{ℕ, ◌≡◌, refl, ◌≤◌, ◌⊎◌, none, some, List, [], ◌∷◌, arith}
use zwei_os.Fs.Path.{vfs_normalize_path}
use zwei_os.Fs.Path.Normal.{IsNormal, vfs_normalize_path_twice}

-- "/" and "a\\b/"
abbrev root : List ℕ
root = 47 ∷ []

abbrev relative : List ℕ
relative = 97 ∷ 92 ∷ 92 ∷ 98 ∷ 47 ∷ []

-- It becomes "/a/b".
relative_lem : vfs_normalize_path [] root 256 relative ≡ some (47 ∷ 97 ∷ 47 ∷ 98 ∷ [])
unfolding vfs_normalize_path
relative_lem = refl

vfs_normalize_path_twice_example :
    ((vfs_normalize_path (7 ∷ []) root 256 relative ≡ none) × (255 ≤ 1))
    ⊎ ((p : List ℕ) × (vfs_normalize_path (7 ∷ []) root 256 relative ≡ some p)
        × IsNormal 256 p
        × (vfs_normalize_path [] relative 256 p ≡ some p))
vfs_normalize_path_twice_example =
    vfs_normalize_path_twice (7 ∷ []) [] root relative 256 relative (omega arith)
