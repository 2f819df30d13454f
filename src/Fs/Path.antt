-- ===== src/Fs/Path.antt =====
-- The paths of kernel/fs/vfs.cpp: `vfs_normalize_path`. A string is its characters before the
-- terminator. `stack` is what the memory behind the 255 first bytes of `combined` holds up to a 0.
pub mod Normal
mod Tests
use zwei_os.Base.{
  ℕ, zero, suc, ◌+◌, ◌-◌, ◌<◌, ◌≡◌, Bool, true, false, not, ◌&&◌, ◌||◌, Option, none, some, List,
  [], ◌∷◌, ◌++◌, ltb, leb, ◌==◌, if◌then◌else◌, length, take, drop, get_or,
}

-- The characters '/', '\' and ':'.
abbrev pub slash : ℕ
slash = 47

abbrev pub backslash : ℕ
backslash = 92

abbrev pub colon : ℕ
colon = 58

abbrev pub is_lower : ℕ → Bool
is_lower c = leb 97 c && leb c 122

abbrev pub is_upper : ℕ → Bool
is_upper c = leb 65 c && leb c 90

abbrev pub to_upper : ℕ → ℕ
to_upper c = if is_lower c then c - 32 else c

abbrev pub has_drive : List ℕ → Bool
has_drive path =
    (is_lower (get_or path 0 0) || is_upper (get_or path 0 0)) && get_or path 1 0 == colon

-- The last character, or 0.
abbrev pub last_or : ℕ → List ℕ → ℕ
last_or c [] = c
last_or c (x ∷ xs) = last_or x xs

-- `cwd_len` and `combined` before the path is put behind it.
abbrev lacks_slash : List ℕ → Bool
lacks_slash cwd = not (length cwd == 0) && not (last_or 0 cwd == slash)

abbrev directory : List ℕ → List ℕ
directory cwd = if lacks_slash cwd then cwd ++ slash ∷ [] else cwd

-- A path behind the working directory; `none` where the terminator behind the slash is written past
-- the end of `combined`. A path that fills the room is not terminated, unless there is no room and the
-- slash has its terminator.
pub combine : List ℕ → List ℕ → List ℕ → Option (List ℕ)
combine stack cwd path =
    let dir = directory cwd in
    let text = dir ++ take (255 - length dir) path in
    if ltb 255 (length dir)
    then none
    else if ltb (length path) (255 - length dir) || (lacks_slash cwd && length dir == 255)
    then some text
    else some (text ++ stack)

-- The loop, by the room that is left, behind the character `last`.
pub copy_path : List ℕ → ℕ → ℕ → List ℕ
copy_path [] room last = []
copy_path (c ∷ cs) zero last = []
copy_path (c ∷ cs) (suc room) last =
    let c' = if c == backslash then slash else c in
    let skipped = copy_path cs (suc room) last in
    let copied = c' ∷ copy_path cs room c' in
    if c' == slash && last == slash then skipped else copied

-- One slash at the end is dropped.
pub drop_slash : List ℕ → List ℕ
drop_slash [] = []
drop_slash (c ∷ []) = if c == slash then [] else c ∷ []
drop_slash (c ∷ d ∷ cs) = c ∷ drop_slash (d ∷ cs)

pub body_of : List ℕ → ℕ → List ℕ
unfolding copy_path drop_slash
body_of src room = drop_slash (copy_path src room slash)

abbrev plain : ℕ → List ℕ → List ℕ
plain max_len src = slash ∷ body_of src (max_len - 2)

plain_combined : ℕ → Option (List ℕ) → Option (List ℕ)
unfolding body_of
plain_combined max_len none = none
plain_combined max_len (some src) = some (plain max_len src)

-- `max_len` is over 4, so that the first characters have room; `none` where `combine` fails.
pub vfs_normalize_path : List ℕ → List ℕ → ℕ → List ℕ → Option (List ℕ)
unfolding combine body_of plain_combined
vfs_normalize_path stack cwd max_len path =
    if has_drive path
    then some (to_upper (get_or path 0 0) ∷ colon ∷ slash ∷ body_of (drop 2 path) (max_len - 4))
    else if get_or path 0 0 == slash || get_or path 0 0 == backslash
    then some (plain max_len path)
    else plain_combined max_len (combine stack cwd path)
