-- ===== src/Fs/Ramfs/Read.antt =====
-- `ramfs_file_read` on what a file holds.
use zwei_os.Base.{
  ℕ, ◌+◌, ◌-◌, ◌<◌, min, ◌≡◌, refl, sym, ap, ap₂, subst, ◌∙◌, inl, inr, true, false, none, some,
  Option-cases, Bool-cases, List, [], pos, arith, leb, length, take, drop, length-drop, length-take,
  take_all, drop_all,
}
use zwei_os.Mm.Heap.{Heap}
use zwei_os.Mm.Heap.Alloc.{IsValid}
use zwei_os.Fs.Ramfs.{RamfsFile, read_data, ramfs_file_read}
use zwei_os.Fs.Ramfs.Bytes.{length-read_bytes, take-read_bytes, drop-read_bytes}
use zwei_os.Fs.Ramfs.Held.{IsWithin, IsFile, contents, bytes_at-empty, bytes_at-some, contents_eq}
use zwei_os.Fs.Ramfs.Overwrite.{file_node, bounded, to_int-small}

pub length-contents : (s : Heap) (f : RamfsFile) → IsFile s f → length (contents s f) ≡ f.size
unfolding IsWithin
length-contents s f w = elim (Option-cases f.data_at) [
  | inl e ↦
      let z : f.size ≡ 0 = omega (arith, w.fits, subst (λ o. IsWithin s o f.capacity) e w.within) in
      ap length (contents_eq s f none e ∙ bytes_at-empty s f.size none z) ∙ sym z
  | inr (p, e) ↦
      ap length (contents_eq s f (some p) e ∙ bytes_at-some s f.size p)
      ∙ length-read_bytes s.bytes p f.size
]

module _ (s : Heap) (f : RamfsFile) (offset size : ℕ) (v : IsValid s) (w : IsFile s f) where
  abbrev read_range : List ℕ
  read_range = take size (drop offset (contents s f))

  length-read_range : length read_range ≡ min size (f.size - offset)
  length-read_range =
      length-take size (drop offset (contents s f))
      ∙ ap (min size)
          (length-drop offset (contents s f) ∙ ap (λ n. n - offset) (length-contents s f w))

  read_unfolded :
      (leb f.size offset ≡ false
        → ramfs_file_read s (file_node f) offset size
          ≡ read_data s f.data_at offset (min size (f.size - offset)))
      × (leb f.size offset ≡ true → ramfs_file_read s (file_node f) offset size ≡ (pos 0, []))
  unfolding ramfs_file_read
  read_unfolded = (λ l. rw l refl, λ l. rw l refl)

  read_data_lem :
      (l : offset < f.size)
      → read_data s f.data_at offset (min size (f.size - offset))
        ≡ (pos (length read_range), read_range)
  unfolding read_data IsWithin
  read_data_lem l = elim (Option-cases f.data_at) [
    | inl e ↦ absurd (omega (arith, l, w.fits, subst (λ o. IsWithin s o f.capacity) e w.within))
    | inr (p, e) ↦
        ap (λ o. read_data s o offset (min size (f.size - offset))) e
        ∙ (ap₂ (λ r bs. (r, bs))
            (to_int-small _ (omega (arith, bounded s f v w, w.fits))
              ∙ ap pos (sym length-read_range))
            (sym (
              ap (λ xs. take size (drop offset xs))
                (contents_eq s f (some p) e ∙ bytes_at-some s f.size p)
              ∙ ap (take size) (drop-read_bytes s.bytes p offset f.size)
              ∙ take-read_bytes s.bytes (p + offset) size (f.size - offset))))
  ]

  -- In a valid heap, of a file in a buffer below the next block: a read returns how many bytes it gives,
  -- and gives those that the file holds from the offset on, as many as were asked for or as there are.
  pub ramfs_file_read_lem :
      ramfs_file_read s (file_node f) offset size ≡ (pos (length read_range), read_range)
  ramfs_file_read_lem = elim (Bool-cases (leb f.size offset)) [
    | inl l ↦
        let nothing : read_range ≡ [] =
          ap (take size) (drop_all offset (contents s f) (ground (arith, length-contents s f w, l)))
          ∙ take_all size [] (omega arith) in
        read_unfolded.1 l ∙ ap (λ xs. (pos (length xs), xs)) (sym nothing)
    | inr l ↦ read_unfolded.0 l ∙ read_data_lem (ground (arith, l))
  ]
