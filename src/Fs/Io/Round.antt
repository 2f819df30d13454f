-- ===== src/Fs/Io/Round.antt =====
-- A ramfs file through a descriptor: `vfs_write`, `vfs_lseek` and `vfs_read` in a row.
use zwei_os.Base.{
  ℕ, ◌+◌, ◌^◌, ◌≤◌, ◌<◌, ◌≡◌, refl, sym, ap, ap₂, ◌∙◌, inl, inr, true, none, some, List, ℤ, pos,
  arith, length, take, drop, take_front, drop_front, length-take, ==_iff, ◌==◌, if◌then◌else◌,
}
use zwei_os.Mm.Heap.{Heap, heap_init_size}
use zwei_os.Mm.Heap.Alloc.{IsValid, needed}
use zwei_os.Fs.Fd.{other, fd_at}
use zwei_os.Fs.Ramfs.{RamfsFile, new_cap, FileNode, ramfs_file_read, ramfs_file_write}
use zwei_os.Fs.Ramfs.Held.{IsWithin, IsFile, contents}
use zwei_os.Fs.Ramfs.Put.{IsApart, overwrite}
use zwei_os.Fs.Ramfs.Overwrite.{file_node, IsWritten, bounded, ramfs_file_write_lem}
use zwei_os.Fs.Ramfs.Read.{length-contents, ramfs_file_read_lem}
use zwei_os.Fs.Io.{Io, set_offset, advance, read_node, write_node, vfs_read, vfs_write, vfs_lseek}
use zwei_os.Fs.Io.Memory.{Ramfs, read_ramfs, write_ramfs, ramfs_ops}
use zwei_os.Fs.Io.Open.{
  IsOpen, vfs_write_eq, vfs_read_eq, vfs_lseek_eq, set_offset-IsOpen, advance-IsOpen, store-advance,
}

-- What is read where something was written.
take-overwrite :
    (xs bs : List ℕ) (o : ℕ) → o ≤ length xs → take (length bs) (drop o (overwrite xs o bs)) ≡ bs
take-overwrite xs bs o h =
    let e : length (take o xs) ≡ o = omega (arith, length-take o xs, h) in
    ap (take (length bs)) (ap (λ k. drop k (overwrite xs o bs)) (sym e) ∙ drop_front (take o xs) _)
    ∙ take_front bs (drop (o + length bs) xs)

abbrev pub no_file : RamfsFile
no_file = record { data_at = none; capacity = 0; size = 0 }

pub no_file-IsFile : (s : Heap) → IsFile s no_file
unfolding IsWithin
no_file-IsFile s = record { within = refl; fits = omega arith }

no_file-IsApart : (f : RamfsFile) → IsApart f no_file
unfolding IsApart
no_file-IsApart f p q d e = ground (arith, e)

module _ (io : Io Ramfs) (fd n : ℕ) (f : RamfsFile) (o : ℕ) (bs : List ℕ)
    (p : IsOpen io.files fd (other n) o) (at_node : io.store.nodes n ≡ file_node f)
    (v : IsValid io.store.heap) (w : IsFile io.store.heap f) (start : o ≤ f.size)
    (small : length bs ≤ 2 ^ 61)
    (room : io.store.heap.dynamic_offset + needed (new_cap (o + length bs)) < heap_init_size) where
  abbrev h : Heap
  h = io.store.heap

  -- The write succeeds.
  stored :
      (g : RamfsFile) × (t : Heap) × (ramfs_file_write h (file_node f) o (length bs) (some bs)
        ≡ (pos (length bs), file_node g, t))
      × IsWritten h f no_file o bs g t
  stored =
      elim (ramfs_file_write_lem h f no_file o bs v w (no_file-IsFile h) (no_file-IsApart f) start
        small) [
          | inl (e, e', e'', full) ↦ absurd (omega (arith, full, room))
          | inr (g, e, e', k) ↦
              let t = (ramfs_file_write h (file_node f) o (length bs) (some bs)).2 in
              (g, t, ap₂ (λ r x. (r, x, t)) e e', k)
        ]

  abbrev count : ℕ
  count = length bs

  -- The store behind a write's result, and the state behind the store's.
  kept : ℤ × FileNode × Heap → ℤ × Ramfs
  kept r =
      (r.0, record io.store { heap = r.2; nodes = λ k. if k == n then r.1 else io.store.nodes k })

  done : ℤ × Ramfs → ℤ × Io Ramfs
  done r = (r.0, advance (record io { store = r.1 }) fd r.0)

  write_unfolded :
      vfs_write ramfs_ops io (pos fd) (some bs) count
      ≡ done
          (kept (ramfs_file_write h (io.store.nodes n) (fd_at io.files fd).offset count (some bs)))
  unfolding write_node write_ramfs ramfs_ops done kept
  write_unfolded = vfs_write_eq ramfs_ops io fd (other n) o p bs count

  module _ (g : RamfsFile) (t : Heap)
      (e : ramfs_file_write h (file_node f) o count (some bs) ≡ (pos count, file_node g, t))
      (k : IsWritten h f no_file o bs g t) where
    abbrev st1 : Ramfs
    st1 = record io.store {
      heap = t;
      nodes = λ k. if k == n then file_node g else io.store.nodes k;
    }

    abbrev io1 : Io Ramfs
    io1 = advance (record io { store = st1 }) fd (pos count)

    abbrev io2 : Io Ramfs
    io2 = set_offset io1 fd o

    write_eq : vfs_write ramfs_ops io (pos fd) (some bs) count ≡ (pos count, io1)
    unfolding done kept
    write_eq =
        write_unfolded
        ∙ ap₂ (λ x q. done (kept (ramfs_file_write h x q count (some bs)))) at_node p.offset_eq
        ∙ ap (λ r. done (kept r)) e

    size_bound : f.size < 2 ^ 26
    size_bound = omega (arith, bounded h f v w, w.fits)

    open1 : IsOpen io1.files fd (other n) (o + count)
    open1 =
        advance-IsOpen ramfs_ops (record io { store = st1 }) fd (other n) o p count
          (omega (arith, start, small, size_bound))

    seek_eq : vfs_lseek ramfs_ops io1 (pos fd) (pos o) 0 ≡ (pos o, io2)
    seek_eq =
        vfs_lseek_eq ramfs_ops io1 fd (other n) (o + count) open1 o
          (omega (arith, start, size_bound))

    read_eq : ramfs_file_read t (file_node g) o count ≡ (pos count, bs)
    read_eq =
        ramfs_file_read_lem t g o count k.valid k.is_file
        ∙ ap (λ xs. (pos (length xs), xs))
            (ap (λ xs. take count (drop o xs)) k.written
              ∙ take-overwrite (contents h f) bs o (omega (arith, start, length-contents h f w)))

    open2 : IsOpen io2.files fd (other n) o
    open2 = set_offset-IsOpen ramfs_ops io1 fd (other n) (o + count) open1 o

    shown : ℤ × List ℕ → ℤ × List ℕ × Io Ramfs
    shown r = (r.0, r.1, advance io2 fd r.0)

    node_read : ramfs_file_read t (st1.nodes n) o count ≡ (pos count, bs)
    node_read = rw ((==_iff n n).1 refl) read_eq

    read_unfolded :
        vfs_read ramfs_ops io2 (pos fd) true count
        ≡ some (
            shown (
              ramfs_file_read io2.store.heap (io2.store.nodes n) (fd_at io2.files fd).offset count))
    unfolding read_node read_ramfs ramfs_ops shown
    read_unfolded = vfs_read_eq ramfs_ops io2 fd (other n) o open2 count

    vfs_read_lem : vfs_read ramfs_ops io2 (pos fd) true count ≡ some (shown (pos count, bs))
    vfs_read_lem =
        read_unfolded
        ∙ ap₂ (λ (s : Ramfs) q. some (shown (ramfs_file_read s.heap (s.nodes n) q count)))
            (store-advance (record io { store = st1 }) fd count) open2.offset_eq
        ∙ ap (λ r. some (shown r)) node_read

  -- An open descriptor stands within a ramfs file, whose buffer lies below the next block of a valid
  -- heap with room for the buffer that a longer file needs: a write of at most 2 ^ 61 bytes returns
  -- their number, a seek back to where they began returns that offset, and a read of as many bytes then
  -- returns their number and gives exactly them.
  pub vfs_read-vfs_write :
      let (r, io1) = vfs_write ramfs_ops io (pos fd) (some bs) (length bs) in
      let (q, io2) = vfs_lseek ramfs_ops io1 (pos fd) (pos o) 0 in
      (r ≡ pos (length bs))
      × (q ≡ pos o)
      × ((io3 : Io Ramfs) × (vfs_read ramfs_ops io2 (pos fd) true (length bs)
            ≡ some (pos (length bs), bs, io3)))
  unfolding shown
  vfs_read-vfs_write =
      let (g, t, e, k) = stored in
      rw (write_eq g t e k, seek_eq g t e k)
        (refl, refl, (advance (io2 g t e k) fd (pos (length bs)), vfs_read_lem g t e k))
