-- ===== src/Fs/Ramfs/Overwrite.antt =====
-- `ramfs_file_read` and `ramfs_file_write` on what files hold.
use zwei_os.Base.{
  some_injective, ℕ, ◌+◌, ◌%◌, ◌^◌, ◌≤◌, ◌<◌, ◌≡◌, refl, sym, ap, ap₂, subst, ◌∙◌, ◌⊎◌, inl, inr,
  Option, none, some, Option-cases, Bool-cases, List, ℤ, pos, to_int, negsuc, arith, ltb, length,
}
use zwei_os.Mm.Heap.{Heap, word, heap_init_size}
use zwei_os.Mm.Heap.Alloc.{IsValid, needed}
use zwei_os.Fs.Ramfs.{
  VNodeType, RamfsFile, FileNode, new_cap, grow, put_buffer, extended, write_file, ramfs_file_write,
}
use zwei_os.Fs.Ramfs.Held.{IsWithin, IsWithin-later, IsFile, contents, contents-congr}
use zwei_os.Fs.Ramfs.Grow.{IsGrown, grow_lem}
use zwei_os.Fs.Ramfs.Put.{
  IsApart, overwrite, sized, put-IsValid, dynamic_offset-put, contents-put, contents-other,
}

pub to_int-small : (n : ℕ) → n < 2 ^ 31 → to_int n ≡ pos n
unfolding to_int
to_int-small n h = ground (arith, h)

-- The node of a file.
abbrev pub file_node : RamfsFile → FileNode
file_node f = record { type = VNodeType.file; size = f.size; fs_data = some f }

-- A write of `bs` over a file `f` leaves a file `g`, and another file `h` as it is.
pub record IsWritten (s : Heap) (f h : RamfsFile) (offset : ℕ) (bs : List ℕ) (g : RamfsFile)
    (t : Heap) : Type 0 where
  pub valid : IsValid t
  pub is_file : IsFile t g
  pub written : contents t g ≡ overwrite (contents s f) offset bs
  pub other : contents t h ≡ contents s h
  pub other_file : IsFile t h
  pub apart : IsApart g h

pub bounded : (s : Heap) (f : RamfsFile) → IsValid s → IsFile s f → f.capacity < heap_init_size
unfolding IsWithin
bounded s f v w = elim (Option-cases f.data_at) [
  | inl e ↦ omega (arith, subst (λ o. IsWithin s o f.capacity) e w.within)
  | inr (p, e) ↦ omega (arith, v.within, (subst (λ o. IsWithin s o f.capacity) e w.within).1)
]

module _ (s : Heap) (f h : RamfsFile) (offset : ℕ) (bs : List ℕ) (v : IsValid s) (w : IsFile s f)
    (k : IsFile s h) (a : IsApart f h) (start : offset ≤ f.size) (small : length bs ≤ 2 ^ 61) where
  abbrev required : ℕ
  required = offset + length bs

  required_eq : (offset + length bs) % word ≡ required
  required_eq = omega (arith, bounded s f v w, w.fits)

  -- What the write makes of the result of `grow`.
  finished : ℕ → Option RamfsFile × Heap → ℤ × FileNode × Heap
  finished q r = elim r.0 [
    | none ↦ (negsuc 0, file_node f, r.1)
    | some g ↦ (
      to_int (length bs),
      extended (file_node f) g q,
      put_buffer r.1 g offset (length bs) (some bs),
    )
  ]

  write_unfolded :
      ramfs_file_write s (file_node f) offset (length bs) (some bs)
      ≡ finished required (grow s f required)
  unfolding ramfs_file_write write_file finished
  write_unfolded = ap (λ q. finished q (grow s f q)) required_eq

  module _ (g : RamfsFile) (t : Heap) (e : grow s f required ≡ (some g, t))
      (grown : IsGrown s f required g t) where
    abbrev filled : Heap
    filled = put_buffer t g offset (length bs) (some bs)

    extended_eq : extended (file_node f) g required ≡ file_node (sized g required)
    unfolding extended
    extended_eq = elim (Bool-cases (ltb g.size required)) [
      | inl l ↦ rw l refl
      | inr l ↦ rw (l, grown.size_eq) refl
    ]

    write_eq :
        ramfs_file_write s (file_node f) offset (length bs) (some bs)
        ≡ (pos (length bs), file_node (sized g required), filled)
    unfolding finished
    write_eq =
        write_unfolded
        ∙ ap (finished required) e
        ∙ ap₂ (λ r n. (r, n, filled))
            (to_int-small (length bs)
              (omega (arith, bounded t g grown.valid grown.is_file, grown.room)))
            extended_eq

    new-IsApart : IsApart g h
    unfolding IsApart IsWithin
    new-IsApart p q d n = elim grown.place [
      | inl (x, c) ↦ rw c (a p q (sym x ∙ d) n)
      | inr (p', x, later) ↦
          let same : p' ≡ p = some_injective (sym x ∙ d) in
          inr (omega (arith, later, same, (subst (λ o. IsWithin s o h.capacity) n k.within).1))
    ]

    grown-IsWritten : IsWritten s f h offset bs (sized g required) filled
    unfolding IsApart IsWithin
    grown-IsWritten =
        let first : offset ≤ g.size = omega (arith, start, grown.size_eq) in
        let kept : IsFile t h = record {
          within = IsWithin-later s t h.data_at h.capacity grown.later k.within;
          fits = k.fits;
        } in
        let o = dynamic_offset-put t g offset bs grown.valid grown.is_file first grown.room in
        let b : IsApart g h = new-IsApart in
        record {
          valid = put-IsValid t g offset bs grown.valid grown.is_file first grown.room;
          is_file = record {
            within =
                IsWithin-later t filled g.data_at g.capacity (omega (arith, o))
                  grown.is_file.within;
            fits = ground (arith, grown.room, grown.is_file.fits);
          };
          written =
              contents-put t g offset bs grown.valid grown.is_file first grown.room
              ∙ ap (λ xs. overwrite xs offset bs) grown.kept;
          other =
              contents-other t g offset bs grown.valid grown.is_file first grown.room h kept b
              ∙ contents-congr h t s (λ q n i l.
                grown.frame (q + i)
                  (omega (arith, l, k.fits, (subst (λ o. IsWithin s o h.capacity) n k.within).1)));
          other_file = record {
            within = IsWithin-later t filled h.data_at h.capacity (omega (arith, o)) kept.within;
            fits = k.fits;
          };
          apart = b;
        }

  -- In a valid heap, of a file `f` and another file `h`, each in a buffer below the next block and the
  -- two apart: a write of at most 2 ^ 61 bytes at an offset within `f` either returns -1 and changes
  -- nothing, and then the heap has no room for the larger buffer; or it returns the number of bytes,
  -- `f` holds what it held with the bytes in place of those from the offset on, and grows if they reach
  -- behind its end, the heap stays valid, `h` holds what it held, and both buffers are still such.
  pub ramfs_file_write_lem :
      let (r, n, t) = ramfs_file_write s (file_node f) offset (length bs) (some bs) in
      ((r ≡ negsuc 0)
        × (n ≡ file_node f)
        × (t ≡ s)
        × (heap_init_size ≤ s.dynamic_offset + needed (new_cap required)))
      ⊎ ((g : RamfsFile) × (r ≡ pos (length bs))
          × (n ≡ file_node g)
          × IsWritten s f h offset bs g t)
  unfolding finished
  ramfs_file_write_lem =
      elim (grow_lem s f required v w (omega (arith, bounded s f v w, w.fits, start, small))) [
        | inl (e, full) ↦
            rw (write_unfolded ∙ ap (finished required) e) (inl (refl, refl, refl, full))
        | inr (g, t, e, grown) ↦
            rw (write_eq g t e grown)
              (inr (sized g required, refl, refl, grown-IsWritten g t e grown))
      ]
