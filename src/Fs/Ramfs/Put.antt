-- ===== src/Fs/Ramfs/Put.antt =====
-- The copy into a file's buffer: an overwrite of what the file holds.
use zwei_os.Base.{
  ℕ, ◌+◌, ◌-◌, ◌^◌, ◌≤◌, ◌<◌, ◌≡◌, refl, sym, ap, ap₂, subst, ◌∙◌, ◌⊎◌, inl, inr, true, some,
  Option-cases, Bool-cases, List, [], ◌∷◌, ◌++◌, arith, ltb, if◌then◌else◌, length, get_or, take,
  drop, take-append-drop,
}
use zwei_os.Mm.Heap.{Heap}
use zwei_os.Mm.Heap.Alloc.{IsValid}
use zwei_os.Fs.Ramfs.{RamfsFile, read_bytes, store_bytes, put_buffer}
use zwei_os.Fs.Ramfs.Bytes.{
  at_range, read_bytes-congr, read_bytes-add, read_bytes-list, take-read_bytes, drop-read_bytes,
}
use zwei_os.Fs.Ramfs.Held.{
  IsWithin, IsFile, bytes_at, contents, contents_eq, contents-congr, bytes_at-some,
}

-- `bs` in place of the elements from `offset` on.
abbrev pub overwrite : List ℕ → ℕ → List ℕ → List ℕ
overwrite xs offset bs = take offset xs ++ (bs ++ drop (offset + length bs) xs)

module _ (t : Heap) (p n offset : ℕ) (bs : List ℕ) (h : offset ≤ n) where
  abbrev m' : ℕ → ℕ
  m' = (store_bytes t (p + offset) (length bs) bs).bytes

  abbrev rest : ℕ
  rest = n - (offset + length bs)

  inside : (i : ℕ) → i < length bs → m' (p + offset + i) ≡ get_or bs i 0
  inside i l =
      let same : get_or bs (p + offset + i - (p + offset)) 0 ≡ get_or bs i 0 =
        ap (λ k. get_or bs k 0) (omega arith) in
      ground (arith, same)

  behind :
      (i : ℕ) → i < rest → m' (p + offset + length bs + i) ≡ t.bytes (p + (offset + length bs) + i)
  behind i l =
      let same : t.bytes (p + offset + length bs + i) ≡ t.bytes (p + (offset + length bs) + i) =
        ap t.bytes (omega arith) in
      ground (arith, same)

  read_bytes-store :
      read_bytes m' p (offset + (length bs + rest)) ≡ overwrite (read_bytes t.bytes p n) offset bs
  read_bytes-store =
      read_bytes-add m' p offset (length bs + rest)
      ∙ ap₂ (λ x y. x ++ y)
          (read_bytes-congr m' t.bytes p p offset (λ i l. ground (arith, l))
            ∙ at_range t.bytes refl (omega (arith, h))
            ∙ sym (take-read_bytes t.bytes p offset n))
          (read_bytes-add m' (p + offset) (length bs) rest
            ∙ ap₂ (λ x y. x ++ y) (read_bytes-list m' (p + offset) bs inside)
                (read_bytes-congr m' t.bytes (p + offset + length bs) (p + (offset + length bs))
                    rest behind
                  ∙ sym (drop-read_bytes t.bytes p (offset + length bs) n)))

-- Two buffers with no byte in common.
unfoldable pub IsApart : RamfsFile → RamfsFile → Type 0
IsApart f h =
    (p q : ℕ)
    → f.data_at ≡ some p
    → h.data_at ≡ some q
    → (p + f.capacity ≤ q) ⊎ (q + h.capacity ≤ p)

abbrev pub sized : RamfsFile → ℕ → RamfsFile
sized g required = record g { size = if ltb g.size required then required else g.size }

empty : (bs : List ℕ) → length bs ≡ 0 → bs ≡ []
empty [] e = refl
empty (b ∷ bs) e = absurd (omega (arith, e))

overwrite-nil : (xs : List ℕ) (offset : ℕ) → overwrite xs offset [] ≡ xs
overwrite-nil xs offset =
    ap (λ n. take offset xs ++ drop n xs) {x = offset + 0} {y = offset} (omega arith)
    ∙ take-append-drop offset xs

put_eq_store :
    (t : Heap) (g : RamfsFile) (offset : ℕ) (bs : List ℕ) (p : ℕ)
    → g.data_at ≡ some p
    → ltb 0 (length bs) ≡ true
    → p + offset < 2 ^ 64
    → put_buffer t g offset (length bs) (some bs) ≡ store_bytes t (p + offset) (length bs) bs
unfolding put_buffer
put_eq_store t g offset bs p e l h =
    rw (e, l) (ap (λ a. store_bytes t a (length bs) bs) (omega (arith, h)))

put_eq_self :
    (t : Heap) (g : RamfsFile) (offset : ℕ) (bs : List ℕ)
    → length bs ≡ 0
    → put_buffer t g offset (length bs) (some bs) ≡ t
unfolding put_buffer
put_eq_self t g offset bs z = elim (Option-cases g.data_at) [
  | inl e ↦ rw e refl
  | inr (p, e) ↦ rw (e, z) refl
]

module _ (t : Heap) (g : RamfsFile) (offset : ℕ) (bs : List ℕ) (v : IsValid t) (w : IsFile t g)
    (start : offset ≤ g.size) (room : offset + length bs ≤ g.capacity) where
  abbrev u : Heap
  u = put_buffer t g offset (length bs) (some bs)

  put_cases :
      ((u ≡ t) × (length bs ≡ 0))
      ⊎ ((p : ℕ) × (g.data_at ≡ some p) × (u ≡ store_bytes t (p + offset) (length bs) bs))
  unfolding IsWithin
  put_cases = elim (Bool-cases (ltb 0 (length bs))) [
    | inr l ↦ inl (put_eq_self t g offset bs (ground (arith, l)), ground (arith, l))
    | inl l ↦ elim (Option-cases g.data_at) [
      | inl e ↦ absurd (ground (arith, l, room, subst (λ o. IsWithin t o g.capacity) e w.within))
      | inr (p, e) ↦
          let i = subst (λ o. IsWithin t o g.capacity) e w.within in
          inr (p, e, put_eq_store t g offset bs p e l (omega (arith, i.1, v.within, w.fits)))
    ]
  ]

  pub put-IsValid : IsValid u
  put-IsValid = elim put_cases [
    | inl (e, z) ↦ subst IsValid (sym e) v
    | inr (p, d, e) ↦
        subst IsValid (sym e) (record { aligned = v.aligned; within = v.within; blocks = v.blocks })
  ]

  pub dynamic_offset-put : u.dynamic_offset ≡ t.dynamic_offset
  dynamic_offset-put = elim put_cases [
    | inl (e, z) ↦ ap (λ s. s.dynamic_offset) e
    | inr (p, d, e) ↦ ap (λ s. s.dynamic_offset) e
  ]

  pub contents-put : contents u (sized g (offset + length bs)) ≡ overwrite (contents t g) offset bs
  unfolding contents
  contents-put = elim put_cases [
    | inl (e, z) ↦
        ap₂ (λ s n. bytes_at s n g.data_at) e (ground (arith, start, z))
        ∙ sym (overwrite-nil (contents t g) offset)
        ∙ ap (overwrite (contents t g) offset) (sym (empty bs z))
    | inr (p, d, e) ↦
        contents_eq u (sized g (offset + length bs)) (some p) d
        ∙ bytes_at-some u (sized g (offset + length bs)).size p
        ∙ ap (λ s. read_bytes s.bytes p (sized g (offset + length bs)).size) e
        ∙ at_range _ {p = p} refl (ground (arith, start))
        ∙ read_bytes-store t p g.size offset bs start
        ∙ ap (λ xs. overwrite xs offset bs)
            (sym (contents_eq t g (some p) d ∙ bytes_at-some t g.size p))
  ]

  pub contents-other : (h : RamfsFile) → IsFile t h → IsApart g h → contents u h ≡ contents t h
  unfolding IsApart
  contents-other h k a = elim put_cases [
    | inl (e, z) ↦ ap (λ s. contents s h) e
    | inr (p, d, e) ↦ contents-congr h u t (λ q n i l.
        let sides = a p q d n in
        ap (λ s. s.bytes (q + i)) e ∙ ground (arith, sides, k.fits, l, room))
  ]
