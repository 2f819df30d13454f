-- ===== src/Fs/Fat32/Names.antt =====
-- The short names of kernel/fs/fat32.cpp: `format_8_3_name`, `create_8_3_name` and
-- `str_equals_ignore_case`. A string is its characters before the terminator.
pub mod Short
use zwei_os.Base.{
  ℕ, zero, suc, ◌+◌, ◌-◌, ◌≤◌, ◌<◌, ◌≡◌, Bool, true, false, not, ◌&&◌, Option, none, some, List, [],
  ◌∷◌, ◌++◌, map, ltb, leb, ◌==◌, if◌then◌else◌, length, take, drop, replicate,
}
use zwei_os.Fs.Path.{to_upper, is_upper}

abbrev pub space : ℕ
space = 32

abbrev pub dot : ℕ
dot = 46

abbrev pub to_lower : ℕ → ℕ
to_lower c = if is_upper c then c + 32 else c

-- The loops that leave the spaces out.
pub no_spaces : List ℕ → List ℕ
no_spaces [] = []
no_spaces (c ∷ cs) = let rest = no_spaces cs in if c == space then rest else c ∷ rest

-- An extension with its dot, if there is one.
pub with_dot : List ℕ → List ℕ
with_dot [] = []
with_dot (c ∷ cs) = dot ∷ (c ∷ cs)

-- `out_name` has room for `max_len - 1` characters.
pub format_8_3_name : List ℕ → ℕ → List ℕ
unfolding no_spaces with_dot
format_8_3_name fat_name max_len =
    let base = no_spaces (take 8 fat_name) in
    let ext = no_spaces (take 3 (drop 8 fat_name)) in
    take (max_len - 1) (map to_lower base ++ with_dot (map to_lower ext))

-- The loop that looks for the last dot.
pub last_dot : List ℕ → ℕ → Option ℕ → Option ℕ
last_dot [] i found = found
last_dot (c ∷ cs) i found = last_dot cs (i + 1) (if c == dot then some i else found)

-- What fits of a part, in capitals, filled up with spaces.
pub pad : ℕ → List ℕ → List ℕ
pad n cs = map to_upper (take n cs) ++ replicate (n - length cs) space

pub fat_name_of : List ℕ → Option ℕ → List ℕ
unfolding pad
fat_name_of in_name none = pad 8 in_name ++ replicate 3 space
fat_name_of in_name (some i) = pad 8 (take i in_name) ++ pad 3 (drop (i + 1) in_name)

pub create_8_3_name : List ℕ → List ℕ
unfolding fat_name_of last_dot
create_8_3_name in_name = fat_name_of in_name (last_dot in_name 0 none)

pub str_equals_ignore_case : List ℕ → List ℕ → Bool
str_equals_ignore_case [] [] = true
str_equals_ignore_case [] (y ∷ ys) = false
str_equals_ignore_case (x ∷ xs) [] = false
str_equals_ignore_case (x ∷ xs) (y ∷ ys) = to_lower x == to_lower y && str_equals_ignore_case xs ys
