-- ===== src/Fs/Path/Normal.antt =====
-- Normal paths.
use zwei_os.Base.{
  ℕ, zero, suc, ◌-◌, ◌≤◌, ◌<◌, ◌≡◌, refl, ap, sym, subst, ◌∙◌, ◌≢◌, ◌⊎◌, inl, inr, true, Option,
  none, some, length-append, ◌&&◌, ◌||◌, List, [], ◌∷◌, arith, ◌==◌, if◌then◌else◌, length, drop,
  get_or, Bool-cases,
}
use zwei_os.Fs.Path.{
  slash, backslash, colon, to_upper, is_upper, has_drive, combine, copy_path, drop_slash, body_of,
  plain_combined, vfs_normalize_path,
}

-- Behind the character `last`: no backslash, no two slashes in a row.
abbrev pub IsSingle : ℕ → List ℕ → Type 0
IsSingle last [] = Unit
IsSingle last (c ∷ cs) = (c ≢ backslash) × ((c ≡ slash → last ≢ slash) × IsSingle c cs)

copy_path_lem :
    (cs : List ℕ) (room last : ℕ)
    → IsSingle last (copy_path cs room last) × (length (copy_path cs room last) ≤ room)
unfolding copy_path
copy_path_lem [] room last = (tt, omega arith)
copy_path_lem (c ∷ cs) zero last = (tt, omega arith)
copy_path_lem (c ∷ cs) (suc room) last =
    let c' = if c == backslash then slash else c in
    let (s, h) = copy_path_lem cs (suc room) last in
    let (s', h') = copy_path_lem cs room c' in
    let plain : c' ≢ backslash = ground arith in
    elim (Bool-cases (c' == slash && last == slash)) [
      | inl f ↦
          subst (λ l. IsSingle last l × (length l ≤ suc room))
            (sym
              (ap (λ b. if b then copy_path cs (suc room) last else c' ∷ copy_path cs room c') f))
            (s, h)
      | inr f ↦
          subst (λ l. IsSingle last l × (length l ≤ suc room))
            (sym
              (ap (λ b. if b then copy_path cs (suc room) last else c' ∷ copy_path cs room c') f))
            ((plain, (λ e. ground (arith, f, e), s')), omega arith)
    ]

-- What is single is copied as it is.
copy_path-IsSingle :
    (cs : List ℕ) (room last : ℕ)
    → IsSingle last cs
    → length cs ≤ room
    → copy_path cs room last ≡ cs
unfolding copy_path
copy_path-IsSingle [] room last s h = refl
copy_path-IsSingle (c ∷ cs) zero last s h = absurd (omega arith)
copy_path-IsSingle (c ∷ cs) (suc room) last (nb, (ns, s)) h =
    ground (arith, nb, ns, copy_path-IsSingle cs room c s (omega arith))

drop_slash-IsSingle : (cs : List ℕ) (last : ℕ) → IsSingle last cs → IsSingle last (drop_slash cs)
unfolding drop_slash
drop_slash-IsSingle [] last s = tt
drop_slash-IsSingle (c ∷ []) last s = elim (Bool-cases (c == slash)) [
  | inl f ↦ subst (IsSingle last) (sym (ap (λ b. if b then [] else c ∷ []) f)) tt
  | inr f ↦ subst (IsSingle last) (sym (ap (λ b. if b then [] else c ∷ []) f)) s
]
drop_slash-IsSingle (c ∷ d ∷ cs) last (nb, (ns, s)) = (nb, (ns, drop_slash-IsSingle (d ∷ cs) c s))

length-drop_slash : (cs : List ℕ) → length (drop_slash cs) ≤ length cs
unfolding drop_slash
length-drop_slash [] = omega arith
length-drop_slash (c ∷ []) = ground arith
length-drop_slash (c ∷ d ∷ cs) = omega (arith, length-drop_slash (d ∷ cs))

-- A single path has one slash at its end at most.
drop_slash_twice :
    (cs : List ℕ) (last : ℕ) → IsSingle last cs → drop_slash (drop_slash cs) ≡ drop_slash cs
unfolding drop_slash
drop_slash_twice [] last s = refl
drop_slash_twice (c ∷ []) last s = ground arith
drop_slash_twice (c ∷ d ∷ []) last (nb, (ns, (nb', (ns', s)))) = ground (arith, ns')
drop_slash_twice (c ∷ d ∷ e ∷ cs) last (nb, (ns, s)) =
    ap (λ l. c ∷ l) (drop_slash_twice (d ∷ e ∷ cs) c s)

-- A body is single and short, and is a body of its own.
pub record IsBody (room : ℕ) (cs : List ℕ) : Type 0 where
  pub single : IsSingle slash cs
  pub short : length cs ≤ room
  pub ends : drop_slash cs ≡ cs

pub body_of-IsBody : (src : List ℕ) (room : ℕ) → IsBody room (body_of src room)
unfolding body_of
body_of-IsBody src room =
    let (s, h) = copy_path_lem src room slash in
    record {
      single = drop_slash-IsSingle (copy_path src room slash) slash s;
      short = omega (arith, length-drop_slash (copy_path src room slash));
      ends = drop_slash_twice (copy_path src room slash) slash s;
    }

body_of-slash :
    (cs : List ℕ) (room : ℕ) → 0 < room → IsBody room cs → body_of (slash ∷ cs) room ≡ cs
unfolding body_of copy_path
body_of-slash cs zero h b = absurd (omega arith)
body_of-slash cs (suc room) h b =
    ap drop_slash (copy_path-IsSingle cs (suc room) slash b.single b.short) ∙ b.ends

-- A normal path: a drive's letter and a colon, if there is a drive; a slash; and then no backslash, no
-- two slashes in a row, no slash at the end. It fits with its terminator.
abbrev pub IsNormal : ℕ → List ℕ → Type 0
IsNormal max_len path =
    (length path < max_len)
    × (((body : List ℕ) × (path ≡ slash ∷ body) × IsBody (max_len - 2) body)
        ⊎ ((drive : ℕ) × (body : List ℕ) × (is_upper drive ≡ true)
            × (path ≡ drive ∷ colon ∷ slash ∷ body)
            × IsBody (max_len - 4) body))

plain_path :
    (max_len : ℕ) (src : List ℕ)
    → 5 ≤ max_len
    → IsNormal max_len (slash ∷ body_of src (max_len - 2))
plain_path max_len src h =
    let b = body_of-IsBody src (max_len - 2) in
    (omega (arith, b.short), inl (body_of src (max_len - 2), refl, b))

combine-none : (stack cwd path : List ℕ) → combine stack cwd path ≡ none → 255 ≤ length cwd
unfolding combine
combine-none stack cwd path e = ground (arith, e, length-append cwd (slash ∷ []))

plain_result :
    (stack cwd : List ℕ) (max_len : ℕ) (path : List ℕ) (o : Option (List ℕ))
    → 5 ≤ max_len
    → combine stack cwd path ≡ o
    → ((plain_combined max_len o ≡ none) × (255 ≤ length cwd))
      ⊎ ((p : List ℕ) × (plain_combined max_len o ≡ some p) × IsNormal max_len p)
unfolding plain_combined
plain_result stack cwd max_len path none h e = inl (refl, combine-none stack cwd path e)
plain_result stack cwd max_len path (some src) h e =
    inr (slash ∷ body_of src (max_len - 2), refl, plain_path max_len src h)

pub vfs_normalize_path-IsNormal :
    (stack cwd : List ℕ) (max_len : ℕ) (path : List ℕ)
    → 5 ≤ max_len
    → ((vfs_normalize_path stack cwd max_len path ≡ none) × (255 ≤ length cwd))
      ⊎ ((p : List ℕ) × (vfs_normalize_path stack cwd max_len path ≡ some p) × IsNormal max_len p)
unfolding vfs_normalize_path
vfs_normalize_path-IsNormal stack cwd max_len path h = elim (Bool-cases (has_drive path)) [
  | inl d ↦
      let letter : is_upper (to_upper (get_or path 0 0)) ≡ true = ground (arith, d) in
      let b = body_of-IsBody (drop 2 path) (max_len - 4) in
      inr (
        to_upper (get_or path 0 0) ∷ colon ∷ slash ∷ body_of (drop 2 path) (max_len - 4),
        ground (arith, d),
        (
          omega (arith, b.short),
          inr (to_upper (get_or path 0 0), body_of (drop 2 path) (max_len - 4), letter, refl, b),
        ),
      )
  | inr d ↦ elim (Bool-cases (get_or path 0 0 == slash || get_or path 0 0 == backslash)) [
    | inl a ↦
        inr (slash ∷ body_of path (max_len - 2), ground (arith, d, a), plain_path max_len path h)
    | inr a ↦
        let e : vfs_normalize_path stack cwd max_len path
            ≡ plain_combined max_len (combine stack cwd path) =
          ground (arith, d, a) in
        elim (plain_result stack cwd max_len path (combine stack cwd path) h refl) [
          | inl (n, long) ↦ inl (e ∙ n, long)
          | inr (p, made, n) ↦ inr (p, e ∙ made, n)
        ]
  ]
]

-- A normal path is what it is made into, from every working directory.
pub vfs_normalize_path-same :
    (stack cwd : List ℕ) (max_len : ℕ) (path : List ℕ)
    → 5 ≤ max_len
    → IsNormal max_len path
    → vfs_normalize_path stack cwd max_len path ≡ some path
unfolding vfs_normalize_path
vfs_normalize_path-same stack cwd max_len path h (_, inl (body, e, b)) =
    subst (λ p. vfs_normalize_path stack cwd max_len p ≡ some p) (sym e)
      (ap (λ l. some (slash ∷ l)) (body_of-slash body (max_len - 2) (omega arith) b))
vfs_normalize_path-same stack cwd max_len path h (_, inr (drive, body, letter, e, b)) =
    let again = body_of-slash body (max_len - 4) (omega arith) b in
    subst (λ p. vfs_normalize_path stack cwd max_len p ≡ some p) (sym e)
      (ground (arith, letter, again))

-- From any path, whatever the stack holds, `vfs_normalize_path` gives a normal path within the buffer,
-- and making that normal again, from any working directory, changes nothing; unless the working
-- directory has 255 characters or more, where it may write past its own buffer.
pub vfs_normalize_path_twice :
    (stack stack' cwd cwd' : List ℕ) (max_len : ℕ) (path : List ℕ)
    → 5 ≤ max_len
    → ((vfs_normalize_path stack cwd max_len path ≡ none) × (255 ≤ length cwd))
      ⊎ ((p : List ℕ) × (vfs_normalize_path stack cwd max_len path ≡ some p)
          × IsNormal max_len p
          × (vfs_normalize_path stack' cwd' max_len p ≡ some p))
vfs_normalize_path_twice stack stack' cwd cwd' max_len path h =
    elim (vfs_normalize_path-IsNormal stack cwd max_len path h) [
      | inl failed ↦ inl failed
      | inr (p, e, n) ↦ inr (p, e, n, vfs_normalize_path-same stack' cwd' max_len p h n)
    ]
