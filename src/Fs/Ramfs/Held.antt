-- ===== src/Fs/Ramfs/Held.antt =====
-- What a ramfs file holds: the bytes of its buffer in the heap.
use zwei_os.Base.{
  ℕ, ◌+◌, ◌≤◌, ◌<◌, ◌≡◌, refl, sym, ap, ◌∙◌, inl, inr, Option, none, some, Option-cases, List, [],
  arith,
}
use zwei_os.Mm.Heap.{Heap, header_size}
use zwei_os.Fs.Ramfs.{RamfsFile, read_bytes}
use zwei_os.Fs.Ramfs.Bytes.{read_bytes-congr}

-- A buffer of `capacity` bytes below the next block of the heap.
unfoldable pub IsWithin : Heap → Option ℕ → ℕ → Type 0
IsWithin s none capacity = capacity ≡ 0
IsWithin s (some p) capacity = (header_size ≤ p) × (p + capacity ≤ s.dynamic_offset)

pub record IsFile (s : Heap) (f : RamfsFile) : Type 0 where
  pub within : IsWithin s f.data_at f.capacity
  pub fits : f.size ≤ f.capacity

-- What a file holds.
pub bytes_at : Heap → ℕ → Option ℕ → List ℕ
bytes_at s size none = []
bytes_at s size (some p) = read_bytes s.bytes p size

unfoldable pub contents : Heap → RamfsFile → List ℕ
unfolding bytes_at
contents s f = bytes_at s f.size f.data_at

pub IsWithin-later :
    (s t : Heap) (o : Option ℕ) (c : ℕ)
    → s.dynamic_offset ≤ t.dynamic_offset
    → IsWithin s o c
    → IsWithin t o c
unfolding IsWithin
IsWithin-later s t none c h w = w
IsWithin-later s t (some p) c h w = (w.0, omega (arith, w.1))

pub bytes_at-empty : (s : Heap) (n : ℕ) (o : Option ℕ) → n ≡ 0 → bytes_at s n o ≡ []
unfolding bytes_at read_bytes
bytes_at-empty s n none e = refl
bytes_at-empty s n (some p) e = ap (read_bytes s.bytes p) e

bytes_at-none : (s t : Heap) (n : ℕ) → bytes_at s n none ≡ bytes_at t n none
unfolding bytes_at
bytes_at-none s t n = refl

pub bytes_at-some : (s : Heap) (n p : ℕ) → bytes_at s n (some p) ≡ read_bytes s.bytes p n
unfolding bytes_at
bytes_at-some s n p = refl

pub contents_eq :
    (s : Heap) (f : RamfsFile) (o : Option ℕ) → f.data_at ≡ o → contents s f ≡ bytes_at s f.size o
unfolding contents
contents_eq s f o e = ap (bytes_at s f.size) e

-- What a file holds lies in its buffer.
pub contents-congr :
    (h : RamfsFile) (s t : Heap)
    → ((q : ℕ) → h.data_at ≡ some q → (i : ℕ) → i < h.size → s.bytes (q + i) ≡ t.bytes (q + i))
    → contents s h ≡ contents t h
contents-congr h s t same = elim (Option-cases h.data_at) [
  | inl e ↦ contents_eq s h none e ∙ bytes_at-none s t h.size ∙ sym (contents_eq t h none e)
  | inr (q, e) ↦
      contents_eq s h (some q) e
      ∙ bytes_at-some s h.size q
      ∙ read_bytes-congr s.bytes t.bytes q q h.size (same q e)
      ∙ sym (contents_eq t h (some q) e ∙ bytes_at-some t h.size q)
]
