-- ===== src/Fs/Mount/Tests.antt =====
-- The theorems at a root and a mount on "/mnt".
use zwei_os.Base.{ℕ, ◌+◌, ◌≡◌, refl, Bool, true, Option, none, some, List, [], ◌∷◌, arith, ◌==◌}
use zwei_os.Fs.Mount.{MountEntry, no_mount, best_mount, resolve_relative_path}
use zwei_os.Fs.Mount.Longest.{IsBest, best_mount-IsBest}
use zwei_os.Fs.Mount.Walk.{IsName, join, walk, resolve_relative_path-join}

abbrev mounts : List MountEntry
mounts =
    record { mount_path = 47 ∷ []; drive_letter = 67; root_vnode = some 1; in_use = true }
    ∷ record {
      mount_path = 47 ∷ 109 ∷ 110 ∷ 116 ∷ [];
      drive_letter = 68;
      root_vnode = some 2;
      in_use = true;
    }
    ∷ no_mount
    ∷ []

-- "/mnt/a"
abbrev mounted : List ℕ
mounted = 47 ∷ 109 ∷ 110 ∷ 116 ∷ 47 ∷ 97 ∷ []

best_of_mounts : best_mount mounts mounted 0 0 none ≡ (4, some 1)
unfolding best_mount
best_of_mounts = refl

best_mount-IsBest_example : IsBest mounts mounted 3 4 (some 1)
unfolding best_mount
best_mount-IsBest_example = best_mount-IsBest mounts mounted

-- One directory, and names looked up by their first character.
abbrev is_dir : ℕ → Bool
is_dir n = n == 2

abbrev look : ℕ → List ℕ → Option ℕ
look n [] = none
look n (c ∷ cs) = some (n + c)

a-IsName : IsName (97 ∷ [])
a-IsName = record {
  plain = (omega arith, (omega arith, tt));
  some_char = omega arith;
  short = omega arith;
  no_dot = refl;
}

resolve_relative_path-join_example :
    resolve_relative_path is_dir look (some 2) (join ((97 ∷ []) ∷ []))
    ≡ walk is_dir look (some 2) ((97 ∷ []) ∷ [])
resolve_relative_path-join_example =
    resolve_relative_path-join is_dir look (some 2) ((97 ∷ []) ∷ []) (a-IsName, tt)
