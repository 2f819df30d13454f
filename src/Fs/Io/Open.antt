-- ===== src/Fs/Io/Open.antt =====
-- What the calls do on an open descriptor of a node.
use zwei_os.Base.{
  ℕ, ◌+◌, ◌%◌, ◌^◌, ◌<◌, ◌≡◌, refl, ap, subst, ◌∙◌, true, false, Bool-cases, inl, inr, some, List,
  pos, arith, ltb, length, set, length-set, get_or, get_or-set_self,
}
use zwei_os.Fs.Fd.{VNode, Files, max_open_files, closed_fd, fd_at}
use zwei_os.Fs.Io.{
  VNodeOps, Io, to_int64, bits_of, is_bad_fd, set_offset, advance, read_node, write_node, seek_base,
  seek_to, vfs_read, vfs_write, vfs_lseek,
}

-- Descriptor `fd` is open, has `node`, and stands at `offset`.
pub record IsOpen (s : Files) (fd : ℕ) (node : VNode) (offset : ℕ) : Type 0 where
  pub in_table : fd < length s.fd_table
  pub below : fd < max_open_files
  pub opened : (fd_at s fd).is_open ≡ true
  pub node_eq : (fd_at s fd).node ≡ some node
  pub offset_eq : (fd_at s fd).offset ≡ offset

to_int64-small : (n : ℕ) → n < 2 ^ 63 → to_int64 (0 + bits_of (pos n)) ≡ pos n
unfolding to_int64 bits_of
to_int64-small n h = ground (arith, h)

open_lem : (s : Files) (fd : ℕ) (node : VNode) (o : ℕ) → IsOpen s fd node o → is_bad_fd s fd ≡ false
unfolding is_bad_fd
open_lem s fd node o p = ground (arith, p.below, p.opened)

module _ {S : Type 0} (ops : VNode → VNodeOps S) (io : Io S) (fd : ℕ) (node : VNode) (o : ℕ)
    (p : IsOpen io.files fd node o) where
  pub vfs_write_eq :
      (buf : List ℕ) (count : ℕ)
      → vfs_write ops io (pos fd) (some buf) count ≡ write_node (ops node) io fd buf count
  unfolding vfs_write
  vfs_write_eq buf count = rw (open_lem io.files fd node o p, p.node_eq) refl

  pub vfs_read_eq :
      (count : ℕ) → vfs_read ops io (pos fd) true count ≡ some (read_node (ops node) io fd count)
  unfolding vfs_read
  vfs_read_eq count = rw (open_lem io.files fd node o p, p.node_eq) refl

  lseek_unfolded :
      (to : ℕ)
      → vfs_lseek ops io (pos fd) (pos to) 0 ≡ seek_to io fd (to_int64 (0 + bits_of (pos to)))
  unfolding vfs_lseek seek_base
  lseek_unfolded to = rw (open_lem io.files fd node o p, p.node_eq) refl

  pub vfs_lseek_eq :
      (to : ℕ) → to < 2 ^ 63 → vfs_lseek ops io (pos fd) (pos to) 0 ≡ (pos to, set_offset io fd to)
  unfolding seek_to
  vfs_lseek_eq to h = lseek_unfolded to ∙ ap (seek_to io fd) (to_int64-small to h)

  pub set_offset-IsOpen : (to : ℕ) → IsOpen (set_offset io fd to).files fd node to
  set_offset-IsOpen to =
      let d = record (fd_at io.files fd) { offset = to } in
      let e : get_or (set io.files.fd_table fd d) fd closed_fd ≡ d =
        get_or-set_self io.files.fd_table fd d closed_fd p.in_table in
      record {
        in_table = omega (arith, p.in_table, length-set io.files.fd_table fd d);
        below = p.below;
        opened = ap (λ x. x.is_open) e ∙ p.opened;
        node_eq = ap (λ x. x.node) e ∙ p.node_eq;
        offset_eq = ap (λ x. x.offset) e;
      }

  pub advance-IsOpen :
      (n : ℕ) → o + n < 2 ^ 64 → IsOpen (advance io fd (pos n)).files fd node (o + n)
  unfolding advance
  advance-IsOpen n h = elim (Bool-cases (ltb 0 n)) [
    | inl l ↦ rw l (
        subst (IsOpen _ fd node) (omega (arith, h, p.offset_eq))
          (set_offset-IsOpen (((fd_at io.files fd).offset + n) % 2 ^ 64)))
    | inr l ↦ rw l (subst (IsOpen io.files fd node) (ground (arith, l)) p)
  ]

pub store-advance : {S : Type 0} → (io : Io S) (fd n : ℕ) → (advance io fd (pos n)).store ≡ io.store
unfolding advance
store-advance io fd n = elim (Bool-cases (ltb 0 n)) [ inl l ↦ rw l refl | inr l ↦ rw l refl ]
