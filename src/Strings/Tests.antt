-- ===== src/Strings/Tests.antt =====
-- A string of five bytes at address 100, in memory that is zero elsewhere.
use zwei_os.Base.{ℕ, ◌-◌, ◌≡◌, refl, [], ◌∷◌, get_or, leb, ltb, ◌&&◌, if◌then◌else◌}
use zwei_os.Strings.{block_copy, back_loop, memmove}
use zwei_os.Strings.Copy.{memmove_lem}

abbrev memory : ℕ → ℕ
memory a = if leb 100 a && ltb a 105 then get_or (90 ∷ 119 ∷ 101 ∷ 105 ∷ 33 ∷ []) (a - 100) 0 else 0

memmove_lem_example : memmove memory 103 100 20 ≡ block_copy 20 103 100 memory
memmove_lem_example = memmove_lem memory 103 100 20

moved : memmove memory 101 100 5 104 ≡ 105
unfolding memmove back_loop
moved = refl
