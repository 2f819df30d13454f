-- ===== src/Fs/Fat32/Names/Short.antt =====
-- A short name comes back from its directory entry.
use zwei_os.Base.{
  ℕ, zero, suc, ◌+◌, ◌-◌, ◌≤◌, ◌≡◌, ◌≢◌, refl, ap, ap₂, sym, subst, ◌∙◌, false, Option, none, some,
  List, [], ◌∷◌, ◌++◌, map, arith, ◌==◌, if◌then◌else◌, length, take, drop, replicate,
  length-append, take_all, take_front, drop_front, length-map, length-take, length-replicate,
  append-nil,
}
use zwei_os.Fs.Path.{to_upper, is_upper}
use zwei_os.Fs.Fat32.Names.{
  space, dot, to_lower, no_spaces, with_dot, format_8_3_name, last_dot, pad, fat_name_of,
  create_8_3_name,
}

-- Characters of a short name: no capital, no space, no dot.
abbrev pub IsLowerCase : List ℕ → Type 0
IsLowerCase [] = Unit
IsLowerCase (c ∷ cs) = (is_upper c ≡ false) × (c ≢ space) × (c ≢ dot) × IsLowerCase cs

lower_upper : (cs : List ℕ) → IsLowerCase cs → map to_lower (map to_upper cs) ≡ cs
lower_upper [] h = refl
lower_upper (c ∷ cs) (u, s, d, h) = ap₂ (λ x xs. x ∷ xs) (ground (arith, u)) (lower_upper cs h)

no_spaces-upper : (cs : List ℕ) → IsLowerCase cs → no_spaces (map to_upper cs) ≡ map to_upper cs
unfolding no_spaces
no_spaces-upper [] h = refl
no_spaces-upper (c ∷ cs) (u, s, d, h) = ground (arith, u, s, no_spaces-upper cs h)

no_spaces-append : (xs ys : List ℕ) → no_spaces (xs ++ ys) ≡ no_spaces xs ++ no_spaces ys
unfolding no_spaces
no_spaces-append [] ys = refl
no_spaces-append (x ∷ xs) ys = ground (arith, no_spaces-append xs ys)

no_spaces-replicate : (n : ℕ) → no_spaces (replicate n space) ≡ []
unfolding no_spaces
no_spaces-replicate zero = refl
no_spaces-replicate (suc n) = no_spaces-replicate n

-- A part that fits is found again in the field that it is padded to.
part :
    (n : ℕ) (cs : List ℕ)
    → IsLowerCase cs
    → length cs ≤ n
    → map to_lower (no_spaces (pad n cs)) ≡ cs
unfolding pad
part n cs h l =
    ap (λ t. map to_lower (no_spaces (map to_upper t ++ replicate (n - length cs) space)))
      (take_all n cs l)
    ∙ ap (map to_lower) (no_spaces-append (map to_upper cs) (replicate (n - length cs) space))
    ∙ ap (λ r. map to_lower (no_spaces (map to_upper cs) ++ r))
        (no_spaces-replicate (n - length cs))
    ∙ ap (map to_lower) (append-nil (no_spaces (map to_upper cs)))
    ∙ ap (map to_lower) (no_spaces-upper cs h)
    ∙ lower_upper cs h

length-pad : (n : ℕ) (cs : List ℕ) → length (pad n cs) ≡ n
unfolding pad
length-pad n cs = omega (
  arith,
  length-append (map to_upper (take n cs)) (replicate (n - length cs) space),
  length-map (take n cs) to_upper,
  length-take n cs,
  length-replicate (n - length cs) space,
)

-- The two fields of an entry.
fields :
    (base ext : List ℕ)
    → (take 8 (pad 8 base ++ pad 3 ext) ≡ pad 8 base)
      × (take 3 (drop 8 (pad 8 base ++ pad 3 ext)) ≡ pad 3 ext)
fields base ext =
    let b = length-pad 8 base in
    let e = length-pad 3 ext in
    (
      subst (λ n. take n (pad 8 base ++ pad 3 ext) ≡ pad 8 base) b
          (take_front (pad 8 base) (pad 3 ext)),
      ap (take 3) (
            subst (λ n. drop n (pad 8 base ++ pad 3 ext) ≡ pad 3 ext) b
              (drop_front (pad 8 base) (pad 3 ext)))
          ∙ take_all 3 (pad 3 ext) (omega (arith, e)),
    )

last_dot-append :
    (cs rest : List ℕ) (i : ℕ) (found : Option ℕ)
    → IsLowerCase cs
    → last_dot (cs ++ rest) i found ≡ last_dot rest (i + length cs) found
unfolding last_dot
last_dot-append [] rest i found h =
    ap (λ n. last_dot rest n found) {x = i} {y = i + 0} (omega arith)
last_dot-append (c ∷ cs) rest i found (u, s, d, h) =
    ap (last_dot (cs ++ rest) (i + 1)) {x = if c == dot then some i else found} {y = found}
      (ground (arith, d))
    ∙ last_dot-append cs rest (i + 1) found h
    ∙ ap (λ n. last_dot rest n found) {x = i + 1 + length cs} {y = i + suc (length cs)}
        (omega arith)

last_dot_same :
    (cs : List ℕ) (i : ℕ) (found : Option ℕ) → IsLowerCase cs → last_dot cs i found ≡ found
unfolding last_dot
last_dot_same cs i found h =
    ap (λ xs. last_dot xs i found) (sym (append-nil cs)) ∙ last_dot-append cs [] i found h

drop_behind : (xs : List ℕ) (y : ℕ) (ys : List ℕ) → drop (length xs + 1) (xs ++ y ∷ ys) ≡ ys
drop_behind [] y ys = refl
drop_behind (x ∷ xs) y ys =
    ap (λ n. drop n (x ∷ (xs ++ y ∷ ys))) {x = suc (length xs) + 1} {y = suc (length xs + 1)}
      (omega arith)
    ∙ drop_behind xs y ys

length-with_dot : (xs : List ℕ) → length (with_dot xs) ≤ length xs + 1
unfolding with_dot
length-with_dot [] = omega arith
length-with_dot (x ∷ xs) = omega arith

-- The name is taken apart at its dot.
create_8_3_name-with_dot :
    (base ext : List ℕ)
    → IsLowerCase base
    → IsLowerCase ext
    → create_8_3_name (base ++ with_dot ext) ≡ pad 8 base ++ pad 3 ext
unfolding create_8_3_name with_dot last_dot
create_8_3_name-with_dot base [] h k =
    ap create_8_3_name (append-nil base) ∙ ap (fat_name_of base) (last_dot_same base 0 none h)
create_8_3_name-with_dot base (e ∷ es) h k =
    let name = base ++ dot ∷ (e ∷ es) in
    let at : last_dot name 0 none ≡ some (length base) =
      last_dot-append base (dot ∷ (e ∷ es)) 0 none h
      ∙ ap (λ n. last_dot (e ∷ es) (n + 1) (some n)) {x = 0 + length base} {y = length base}
          (omega arith)
      ∙ last_dot_same (e ∷ es) (length base + 1) (some (length base)) k in
    let front : take (length base) name ≡ base = take_front base (dot ∷ (e ∷ es)) in
    let behind : drop (length base + 1) name ≡ e ∷ es = drop_behind base dot (e ∷ es) in
    ap (fat_name_of name) at ∙ ap₂ (λ b x. pad 8 b ++ pad 3 x) front behind

-- A name of up to eight and an extension of up to three characters, without capitals, spaces and
-- further dots, is written to a directory entry of eleven characters from which it is read again.
pub format_8_3_name-create_8_3_name :
    (base ext : List ℕ)
    → IsLowerCase base
    → IsLowerCase ext
    → length base ≤ 8
    → length ext ≤ 3
    → (length (create_8_3_name (base ++ with_dot ext)) ≡ 11)
      × (format_8_3_name (create_8_3_name (base ++ with_dot ext)) 64 ≡ base ++ with_dot ext)
unfolding format_8_3_name
format_8_3_name-create_8_3_name base ext h k lb le =
    let e = create_8_3_name-with_dot base ext h k in
    let f = fields base ext in
    (
      ap length e
          ∙ omega
              (arith, length-append (pad 8 base) (pad 3 ext), length-pad 8 base, length-pad 3 ext),
      ap (λ n. format_8_3_name n 64) e
          ∙ ap₂
              (λ b x. take 63 (map to_lower (no_spaces b) ++ with_dot (map to_lower (no_spaces x))))
              f.0 f.1
          ∙ ap₂ (λ b x. take 63 (b ++ with_dot x)) (part 8 base h lb) (part 3 ext k le)
          ∙ take_all 63 (base ++ with_dot ext)
              (omega (arith, length-append base (with_dot ext), length-with_dot ext)),
    )
