-- ===== src/Fs/Mount/Walk.antt =====
-- A path is resolved name by name.
use zwei_os.Base.{
  ℕ, zero, suc, ◌+◌, ◌≤◌, ◌<◌, ◌≡◌, refl, ap, sym, ◌∙◌, ◌≢◌, Bool, false, Option, none, some, List,
  [], ◌∷◌, ◌++◌, arith, if◌then◌else◌, length, length-append,
}
use zwei_os.Fs.Path.{slash, backslash}
use zwei_os.Fs.Mount.{
  str_eq, skip_slashes, skip_plain_slashes, next_token, descend, resolve_loop,
  resolve_relative_path,
}

abbrev pub IsPlain : List ℕ → Type 0
IsPlain [] = Unit
IsPlain (c ∷ cs) = (c ≢ slash) × ((c ≢ backslash) × IsPlain cs)

-- A name in a directory, of 63 characters at most.
pub record IsName (name : List ℕ) : Type 0 where
  pub plain : IsPlain name
  pub some_char : 0 < length name
  pub short : length name ≤ 63
  pub no_dot : str_eq name (46 ∷ []) ≡ false

abbrev pub AllNames : List (List ℕ) → Type 0
AllNames [] = Unit
AllNames (n ∷ ns) = IsName n × AllNames ns

-- "/a/b/c"
abbrev pub join : List (List ℕ) → List ℕ
join [] = []
join (n ∷ ns) = slash ∷ (n ++ join ns)

-- A token ends at the slash behind it.
next_token_name :
    (n : List ℕ) (ns : List (List ℕ)) (room : ℕ)
    → IsPlain n
    → length n ≤ room
    → next_token room (n ++ join ns) ≡ (n, join ns)
unfolding next_token
next_token_name [] [] zero p h = refl
next_token_name [] [] (suc room) p h = refl
next_token_name [] (m ∷ ns) zero p h = refl
next_token_name [] (m ∷ ns) (suc room) p h = refl
next_token_name (c ∷ cs) ns zero p h = absurd (omega arith)
next_token_name (c ∷ cs) ns (suc room) (a, (b, p)) h =
    ground (arith, a, b, next_token_name cs ns room p (omega arith))

skip_slashes_name : (n : List ℕ) (rest : List ℕ) → IsName n → skip_slashes (n ++ rest) ≡ n ++ rest
unfolding skip_slashes
skip_slashes_name [] rest v = absurd (omega (arith, v.some_char))
skip_slashes_name (c ∷ cs) rest v = let (a, (b, p)) = v.plain in ground (arith, a, b)

length-skip_slashes : (cs : List ℕ) → length (skip_slashes cs) ≤ length cs
unfolding skip_slashes
length-skip_slashes [] = omega arith
length-skip_slashes (c ∷ cs) = ground (arith, length-skip_slashes cs)

skip_plain_slashes_name :
    (n : List ℕ) (rest : List ℕ) → IsName n → skip_plain_slashes (n ++ rest) ≡ n ++ rest
unfolding skip_plain_slashes
skip_plain_slashes_name [] rest v = absurd (omega (arith, v.some_char))
skip_plain_slashes_name (c ∷ cs) rest v = let (a, (b, p)) = v.plain in ground (arith, a)

skip_plain_slashes-join :
    (ns : List (List ℕ)) → AllNames ns → skip_plain_slashes (join ns) ≡ skip_slashes (join ns)
unfolding skip_plain_slashes skip_slashes
skip_plain_slashes-join [] v = refl
skip_plain_slashes-join (n ∷ ns) (v, vs) =
    skip_plain_slashes_name n (join ns) v ∙ sym (skip_slashes_name n (join ns) v)

module _ (is_dir : ℕ → Bool) (lookup : ℕ → List ℕ → Option ℕ) where
  -- The node that names lead to, one after the other.
  pub walk : Option ℕ → List (List ℕ) → Option ℕ
  walk curr [] = curr
  walk none (n ∷ ns) = none
  walk (some curr) (n ∷ ns) = walk (if is_dir curr then lookup curr n else none) ns

  walk-none : (ns : List (List ℕ)) → walk none ns ≡ none
  unfolding walk
  walk-none [] = refl
  walk-none (n ∷ ns) = refl

  resolve_loop_step :
      (fuel curr : ℕ) (path token rest : List ℕ)
      → 0 < length path
      → next_token 63 path ≡ (token, rest)
      → resolve_loop is_dir lookup (suc fuel) (some curr) path
        ≡ resolve_loop is_dir lookup fuel (descend is_dir lookup curr token) (skip_slashes rest)
  unfolding resolve_loop
  resolve_loop_step fuel curr [] token rest h e = absurd (omega arith)
  resolve_loop_step fuel curr (c ∷ cs) token rest h e =
      ap (λ r. resolve_loop is_dir lookup fuel (descend is_dir lookup curr r.0) (skip_slashes r.1))
        e

  descend_name :
      (curr : ℕ) (n : List ℕ)
      → IsName n
      → descend is_dir lookup curr n ≡ (if is_dir curr then lookup curr n else none)
  unfolding descend
  descend_name curr n v = ground (arith, v)

  -- Fuel above the length is enough.
  resolve_loop-walk :
      (curr : Option ℕ) (ns : List (List ℕ)) (fuel : ℕ)
      → AllNames ns
      → length (skip_slashes (join ns)) < fuel
      → resolve_loop is_dir lookup fuel curr (skip_slashes (join ns)) ≡ walk curr ns
  unfolding resolve_loop walk
  resolve_loop-walk curr ns zero v h = absurd (omega arith)
  resolve_loop-walk none ns (suc fuel) v h = sym (walk-none ns)
  resolve_loop-walk (some curr) [] (suc fuel) v h = refl
  resolve_loop-walk (some curr) (n ∷ ns) (suc fuel) (v, vs) h =
      let e = skip_slashes_name n (join ns) v in
      let long = length-append n (join ns) in
      ap (resolve_loop is_dir lookup (suc fuel) (some curr)) e
      ∙ resolve_loop_step fuel curr (n ++ join ns) n (join ns) (omega (arith, long, v.some_char))
          (next_token_name n ns 63 v.plain v.short)
      ∙ ap (λ o. resolve_loop is_dir lookup fuel o (skip_slashes (join ns))) (descend_name curr n v)
      ∙ resolve_loop-walk (if is_dir curr then lookup curr n else none) ns fuel vs
          (omega (arith, ap length e, long, v.some_char, length-skip_slashes (join ns)))

-- A path of names is resolved as looking up one name after the other, in directories only: the
-- resolution fails if and only if a step does.
pub resolve_relative_path-join :
    (is_dir : ℕ → Bool) (lookup : ℕ → List ℕ → Option ℕ) (start : Option ℕ) (ns : List (List ℕ))
    → AllNames ns
    → resolve_relative_path is_dir lookup start (join ns) ≡ walk is_dir lookup start ns
unfolding resolve_relative_path
resolve_relative_path-join is_dir lookup start ns v =
    let e : skip_plain_slashes (join ns) ≡ skip_slashes (join ns) = skip_plain_slashes-join ns v in
    ap (λ p. resolve_loop is_dir lookup (length p + 1) start p) e
    ∙ resolve_loop-walk is_dir lookup start ns (length (skip_slashes (join ns)) + 1) v (omega arith)
