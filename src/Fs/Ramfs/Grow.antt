-- ===== src/Fs/Ramfs/Grow.antt =====
-- `grow`: the file's bytes move to a block of the heap that nothing else lies in.
use zwei_os.Base.{
  ℕ, ◌+◌, ◌-◌, ◌^◌, ◌≤◌, ◌<◌, ◌≡◌, refl, sym, ap, subst, ◌∙◌, ◌⊎◌, inl, inr, true, Option, none,
  some, Option-cases, Bool-cases, arith, leb, ltb,
}
use zwei_os.Mm.Heap.{Heap, heap_init_size, header_size, kfree, copy_bytes}
use zwei_os.Mm.Heap.Alloc.{IsValid, IsSane, needed, placed, kmalloc_cases, placed-IsValid}
use zwei_os.Mm.Heap.Release.{kfree-IsValid, dynamic_offset-kfree, bytes-kfree}
use zwei_os.Fs.Ramfs.{RamfsFile, move_data, new_cap, grow}
use zwei_os.Fs.Ramfs.Bytes.{read_bytes-congr}
use zwei_os.Fs.Ramfs.Held.{
  IsWithin, IsFile, bytes_at, contents, IsWithin-later, bytes_at-empty, bytes_at-some, contents_eq,
}

-- A file that has grown to `required` bytes: it holds what it held, and nothing else has changed.
pub record IsGrown (s : Heap) (f : RamfsFile) (required : ℕ) (g : RamfsFile) (t : Heap)
    : Type 0 where
  pub valid : IsValid t
  pub is_file : IsFile t g
  pub room : required ≤ g.capacity
  pub size_eq : g.size ≡ f.size
  pub kept : contents t g ≡ contents s f
  pub frame : (a : ℕ) → a < s.dynamic_offset → t.bytes a ≡ s.bytes a
  pub later : s.dynamic_offset ≤ t.dynamic_offset
  pub place :
      ((g.data_at ≡ f.data_at) × (g.capacity ≡ f.capacity))
      ⊎ ((p : ℕ) × (g.data_at ≡ some p) × (s.dynamic_offset ≤ p))

move_cases :
    (t : Heap) (f : RamfsFile) (b : ℕ)
    → IsFile t f
    → ((move_data t f b ≡ t) × (f.size ≡ 0))
      ⊎ ((p : ℕ) × (f.data_at ≡ some p)
          × (move_data t f b ≡ kfree (copy_bytes t b p f.size) (some p)))
unfolding move_data IsWithin
move_cases t f b w = elim (Option-cases f.data_at) [
  | inl e ↦ inl (rw e refl, omega (arith, w.fits, subst (λ o. IsWithin t o f.capacity) e w.within))
  | inr (p, e) ↦ elim (Bool-cases (ltb 0 f.size)) [
    | inl l ↦ inr (p, e, rw (e, l) refl)
    | inr l ↦ inl (rw (e, l) refl, ground (arith, l))
  ]
]

copied-IsValid : (s : Heap) (b p n : ℕ) → IsValid s → IsValid (copy_bytes s b p n)
copied-IsValid s b p n v = record { aligned = v.aligned; within = v.within; blocks = v.blocks }

-- A move into a buffer that lies behind all of the file's bytes.
module _ (t : Heap) (f : RamfsFile) (b end : ℕ) (v : IsValid t) (w : IsFile t f) (lo : end ≤ b)
    (below : (p : ℕ) → f.data_at ≡ some p → p + f.size ≤ end) where
  moved-IsValid : IsValid (move_data t f b)
  moved-IsValid = elim (move_cases t f b w) [
    | inl (e, z) ↦ subst IsValid (sym e) v
    | inr (p, d, e) ↦
        subst IsValid (sym e) (kfree-IsValid _ (some p) (copied-IsValid t b p f.size v))
  ]

  dynamic_offset-moved : (move_data t f b).dynamic_offset ≡ t.dynamic_offset
  dynamic_offset-moved = elim (move_cases t f b w) [
    | inl (e, z) ↦ ap (λ h. h.dynamic_offset) e
    | inr (p, d, e) ↦ ap (λ h. h.dynamic_offset) e ∙ dynamic_offset-kfree _ (some p)
  ]

  bytes-moved : (a : ℕ) → a < end → (move_data t f b).bytes a ≡ t.bytes a
  bytes-moved a l = elim (move_cases t f b w) [
    | inl (e, z) ↦ ap (λ h. h.bytes a) e
    | inr (p, d, e) ↦
        ap (λ h. h.bytes a) e
        ∙ bytes-kfree (copy_bytes t b p f.size) (some p) a
        ∙ ground (arith, lo, l)
  ]

  kept_lem : bytes_at (move_data t f b) f.size (some b) ≡ contents t f
  kept_lem = elim (move_cases t f b w) [
    | inl (e, z) ↦
        bytes_at-empty (move_data t f b) f.size (some b) z
        ∙ sym (bytes_at-empty t f.size f.data_at z)
        ∙ sym (contents_eq t f f.data_at refl)
    | inr (p, d, e) ↦
        bytes_at-some (move_data t f b) f.size b
        ∙ read_bytes-congr _ t.bytes b p f.size (λ i l.
          ap (λ h. h.bytes (b + i)) e
          ∙ bytes-kfree (copy_bytes t b p f.size) (some p) (b + i)
          ∙ at_copy p i l)
        ∙ sym (contents_eq t f (some p) d ∙ bytes_at-some t f.size p)
  ]
    where
      at_copy : (p i : ℕ) → i < f.size → (copy_bytes t b p f.size).bytes (b + i) ≡ t.bytes (p + i)
      at_copy p i l =
          let same : t.bytes (p + (b + i - b)) ≡ t.bytes (p + i) = ap t.bytes (omega arith) in
          ground (arith, same)

module _ (s : Heap) (f : RamfsFile) (required : ℕ) (v : IsValid s) (w : IsFile s f)
    (small : required ≤ 2 ^ 62) where
  abbrev next : ℕ
  next = s.dynamic_offset + header_size

  caps :
      (IsSane (new_cap required))
      × (required ≤ new_cap required)
      × (next + new_cap required ≤ s.dynamic_offset + needed (new_cap required))
  caps = ground arith

  abbrev after : Heap
  after = placed s (new_cap required)

  placed-IsFile : IsFile after f
  unfolding placed
  placed-IsFile = record {
    within = IsWithin-later s after f.data_at f.capacity (omega arith) w.within;
    fits = w.fits;
  }

  below : (p : ℕ) → f.data_at ≡ some p → p + f.size ≤ s.dynamic_offset
  unfolding IsWithin
  below p e = omega (arith, w.fits, (subst (λ o. IsWithin s o f.capacity) e w.within).1)

  abbrev bigger : RamfsFile
  bigger = record f { data_at = some next; capacity = new_cap required }

  bigger-IsGrown :
      ltb f.capacity required ≡ true
      → s.dynamic_offset + needed (new_cap required) < heap_init_size
      → IsGrown s f required bigger (move_data after f next)
  unfolding IsWithin placed contents
  bigger-IsGrown l room =
      let u = placed-IsValid s (new_cap required) v room in
      let o =
        dynamic_offset-moved after f next s.dynamic_offset u placed-IsFile (omega arith) below in
      record {
        valid = moved-IsValid after f next s.dynamic_offset u placed-IsFile (omega arith) below;
        is_file = record {
          within = (omega arith, omega (arith, o, caps));
          fits = ground (arith, w.fits, l, caps);
        };
        room = caps.1;
        size_eq = refl;
        kept = kept_lem after f next s.dynamic_offset u placed-IsFile (omega arith) below;
        frame = bytes-moved after f next s.dynamic_offset u placed-IsFile (omega arith) below;
        later = omega (arith, o);
        place = inr (next, refl, omega arith);
      }

  with_buffer : Option ℕ × Heap → Option RamfsFile × Heap
  with_buffer r = elim r.0 [
    | none ↦ (none, r.1)
    | some p ↦
        (some (record f { data_at = some p; capacity = new_cap required }), move_data r.1 f p)
  ]

  -- A request that the heap has no room for changes nothing.
  pub grow_lem :
      ((grow s f required ≡ (none, s))
        × (heap_init_size ≤ s.dynamic_offset + needed (new_cap required)))
      ⊎ ((g : RamfsFile) × (t : Heap) × (grow s f required ≡ (some g, t))
          × IsGrown s f required g t)
  unfolding grow with_buffer
  grow_lem = elim (Bool-cases (leb required f.capacity)) [
    | inl l ↦ inr (
      f,
      s,
      rw l refl,
      record {
        valid = v;
        is_file = w;
        room = ground (arith, l);
        size_eq = refl;
        kept = refl;
        frame = λ a h. refl;
        later = omega arith;
        place = inl (refl, refl);
      },
    )
    | inr l ↦ elim (kmalloc_cases s (new_cap required) v caps.0) [
      | inl (e, full) ↦ inl (rw l (ap with_buffer e), full)
      | inr (e, room) ↦ inr (
        bigger,
        move_data after f next,
        rw l (ap with_buffer e),
        bigger-IsGrown (ground (arith, l)) room,
      )
    ]
  ]
