-- ===== src/Fs/Mount/Longest.antt =====
-- The mount that a path is resolved from is the one with the longest prefix.
use zwei_os.Base.{
  ℕ, suc, ◌+◌, ◌≤◌, ◌<◌, ◌≡◌, refl, ap, sym, subst, ◌∙◌, ◌⊎◌, inl, inr, Bool, true, ◌&&◌, ◌||◌,
  Option, none, some, List, [], ◌∷◌, arith, ltb, ◌==◌, length, get_or, Bool-cases, ℕ_discrete,
}
use zwei_os.Fs.Mount.{MountEntry, no_mount, covers, is_root_path, better, best_mount}

-- An entry that the path lies under: the root, or a prefix that ends at a name's end.
abbrev pub is_over : List ℕ → MountEntry → Bool
is_over norm e = e.in_use && (is_root_path e.mount_path || covers norm e)

-- What the scan has found: the longest of the entries over the path, up to `n`.
pub record IsBest (es : List MountEntry) (norm : List ℕ) (n : ℕ) (longest : ℕ) (best : Option ℕ)
    : Type 0 where
  pub covered :
      (j : ℕ)
      → j < n
      → is_over norm (get_or es j no_mount) ≡ true
      → length (get_or es j no_mount).mount_path ≤ longest
  pub there :
      ((longest ≡ 0) × (best ≡ none))
      ⊎ ((i : ℕ) × (best ≡ some i)
          × (i < n)
          × (0 < longest)
          × (is_over norm (get_or es i no_mount) ≡ true)
          × (length (get_or es i no_mount).mount_path ≡ longest))

keep-IsBest :
    (es : List MountEntry) (norm : List ℕ) (n longest : ℕ) (best : Option ℕ)
    → (is_over norm (get_or es n no_mount) ≡ true
        → length (get_or es n no_mount).mount_path ≤ longest)
    → IsBest es norm n longest best
    → IsBest es norm (n + 1) longest best
keep-IsBest es norm n longest best here b = record {
  covered = λ j h o. elim (ℕ_discrete j n) [
    | yes e ↦
        subst (λ j. length (get_or es j no_mount).mount_path ≤ longest) (sym e)
          (here (subst (λ j. is_over norm (get_or es j no_mount) ≡ true) e o))
    | no ne ↦ b.covered j (omega (arith, ne)) o
  ];
  there = elim b.there [
    | inl f ↦ inl f
    | inr (i, e, h, p, o, l) ↦ inr (i, e, omega arith, p, o, l)
  ];
}

take-IsBest :
    (es : List MountEntry) (norm : List ℕ) (n longest mlen : ℕ) (best : Option ℕ)
    → is_over norm (get_or es n no_mount) ≡ true
    → length (get_or es n no_mount).mount_path ≡ mlen
    → longest < mlen
    → IsBest es norm n longest best
    → IsBest es norm (n + 1) mlen (some n)
take-IsBest es norm n longest mlen best o l more b = record {
  covered = λ j h o'. elim (ℕ_discrete j n) [
    | yes e ↦ omega (arith, ap (λ j. length (get_or es j no_mount).mount_path) e)
    | no ne ↦ omega (arith, b.covered j (omega (arith, ne)) o')
  ];
  there = inr (n, refl, omega arith, omega arith, o, l);
}

better-IsBest :
    (es : List MountEntry) (norm : List ℕ) (n longest : ℕ) (best : Option ℕ)
    → IsBest es norm n longest best
    → IsBest es norm
        (n + 1)
        (better (get_or es n no_mount) norm n longest best).0
        (better (get_or es n no_mount) norm n longest best).1
unfolding better
better-IsBest es norm n longest best b =
    let e = get_or es n no_mount in
    let kept =
      λ (same : better e norm n longest best ≡ (longest, best))
          (here : is_over norm e ≡ true → length e.mount_path ≤ longest).
        subst (λ r. IsBest es norm (n + 1) r.0 r.1) (sym same)
          (keep-IsBest es norm n longest best here b) in
    let taken =
      λ (mlen : ℕ) (new : better e norm n longest best ≡ (mlen, some n)) (o : is_over norm e ≡ true)
          (l : length e.mount_path ≡ mlen) (more : longest < mlen).
        subst (λ r. IsBest es norm (n + 1) r.0 r.1) (sym new)
          (take-IsBest es norm n longest mlen best o l more b) in
    elim (Bool-cases e.in_use) [
      | inr u ↦ kept (ground (arith, u)) (λ o. absurd (ground (arith, u, o)))
      | inl u ↦ elim (Bool-cases (is_root_path e.mount_path)) [
        | inl r ↦ elim (Bool-cases (longest == 0)) [
          | inl z ↦
              taken 1 (ground (arith, u, r, z)) (ground (arith, u, r)) (ground (arith, r))
                (ground (arith, z))
          | inr z ↦ kept (ground (arith, u, r, z)) (λ o. ground (arith, r, z))
        ]
        | inr r ↦ elim (Bool-cases (covers norm e && ltb longest (length e.mount_path))) [
          | inl c ↦
              taken (length e.mount_path) (ground (arith, u, r, c)) (ground (arith, u, r, c)) refl
                (ground (arith, c))
          | inr c ↦ kept (ground (arith, u, r, c)) (λ o. ground (arith, u, r, c, o))
        ]
      ]
    ]

best_mount_lem :
    (all es : List MountEntry) (norm : List ℕ) (i longest : ℕ) (best : Option ℕ)
    → ((k : ℕ) → get_or all (i + k) no_mount ≡ get_or es k no_mount)
    → IsBest all norm i longest best
    → IsBest all norm
        (i + length es)
        (best_mount es norm i longest best).0
        (best_mount es norm i longest best).1
unfolding best_mount
best_mount_lem all [] norm i longest best same b =
    subst (λ n. IsBest all norm n longest best) (omega arith) b
best_mount_lem all (e ∷ es) norm i longest best same b =
    let here : get_or all i no_mount ≡ e =
      ap (λ n. get_or all n no_mount) {x = i} {y = i + 0} (omega arith) ∙ same 0 in
    let next =
      subst
        (λ e.
          IsBest all norm (i + 1) (better e norm i longest best).0 (better e norm i longest best).1)
        here (better-IsBest all norm i longest best b) in
    let n : i + 1 + length es ≡ i + suc (length es) = omega arith in
    subst
      (λ n.
        IsBest all norm n (best_mount (e ∷ es) norm i longest best).0
          (best_mount (e ∷ es) norm i longest best).1)
      n
      (best_mount_lem all es norm (i + 1) (better e norm i longest best).0
        (better e norm i longest best).1
        (λ k.
          ap (λ n. get_or all n no_mount) {x = i + 1 + k} {y = i + suc k} (omega arith)
          ∙ same (suc k))
        next)

-- The scan of the mount table finds a mount over the path if there is one, and none over the path is
-- longer. A mount is over a path if it is the root's, or the path's beginning up to the end of a name.
pub best_mount-IsBest :
    (es : List MountEntry) (norm : List ℕ)
    → IsBest es norm (length es) (best_mount es norm 0 0 none).0 (best_mount es norm 0 0 none).1
best_mount-IsBest es norm =
    let none_yet : IsBest es norm 0 0 none = record {
      covered = λ j h o. absurd (omega arith);
      there = inl (refl, refl);
    } in
    subst (λ n. IsBest es norm n (best_mount es norm 0 0 none).0 (best_mount es norm 0 0 none).1)
      {x = 0 + length es} {y = length es} (omega arith)
      (best_mount_lem es es norm 0 0 none
        (λ k. ap (λ n. get_or es n no_mount) {x = 0 + k} {y = k} (omega arith)) none_yet)
