-- ===== src/Fs/Ramfs/Bytes.antt =====
-- Ranges of bytes as lists: how `read_bytes` splits, and when two ranges read the same.
use zwei_os.Base.{
  ℕ, zero, suc, ◌+◌, ◌-◌, ◌<◌, min, ◌≡◌, refl, ap, ap₂, ◌∙◌, List, [], ◌∷◌, ◌++◌, arith, length,
  get_or, take, drop,
}
use zwei_os.Fs.Ramfs.{read_bytes}

pub at_range : (m : ℕ → ℕ) {p q n k : ℕ} → p ≡ q → n ≡ k → read_bytes m p n ≡ read_bytes m q k
at_range m e f = ap₂ (read_bytes m) e f

pub length-read_bytes : (m : ℕ → ℕ) (p n : ℕ) → length (read_bytes m p n) ≡ n
unfolding read_bytes
length-read_bytes m p zero = refl
length-read_bytes m p (suc n) = ap suc (length-read_bytes m (p + 1) n)

pub read_bytes-congr :
    (m m' : ℕ → ℕ) (p p' n : ℕ)
    → ((i : ℕ) → i < n → m (p + i) ≡ m' (p' + i))
    → read_bytes m p n ≡ read_bytes m' p' n
unfolding read_bytes
read_bytes-congr m m' p p' zero h = refl
read_bytes-congr m m' p p' (suc n) h =
    ap₂ (λ x xs. x ∷ xs)
      (ap m {x = p} {y = p + 0} (omega arith)
        ∙ h 0 (omega arith)
        ∙ ap m' {x = p' + 0} {y = p'} (omega arith))
      (read_bytes-congr m m' (p + 1) (p' + 1) n (λ i l.
        ap m {x = p + 1 + i} {y = p + suc i} (omega arith)
        ∙ h (suc i) (omega arith)
        ∙ ap m' {x = p' + suc i} {y = p' + 1 + i} (omega arith)))

pub read_bytes-add :
    (m : ℕ → ℕ) (p a b : ℕ) → read_bytes m p (a + b) ≡ read_bytes m p a ++ read_bytes m (p + a) b
unfolding read_bytes
read_bytes-add m p zero b = at_range m (omega arith) (omega arith)
read_bytes-add m p (suc a) b =
    ap (λ n. read_bytes m p n) {x = suc a + b} {y = suc (a + b)} (omega arith)
    ∙ ap (λ xs. m p ∷ xs)
        (read_bytes-add m (p + 1) a b
          ∙ ap (λ q. read_bytes m (p + 1) a ++ read_bytes m q b) {x = p + 1 + a} {y = p + suc a}
              (omega arith))

pub read_bytes-list :
    (m : ℕ → ℕ) (p : ℕ) (bs : List ℕ)
    → ((i : ℕ) → i < length bs → m (p + i) ≡ get_or bs i 0)
    → read_bytes m p (length bs) ≡ bs
unfolding read_bytes
read_bytes-list m p [] h = refl
read_bytes-list m p (b ∷ bs) h =
    ap₂ (λ x xs. x ∷ xs) (ap m {x = p} {y = p + 0} (omega arith) ∙ h 0 (omega arith))
      (read_bytes-list m (p + 1) bs
        (λ i l. ap m {x = p + 1 + i} {y = p + suc i} (omega arith) ∙ h (suc i) (omega arith)))

pub take-read_bytes : (m : ℕ → ℕ) (p k n : ℕ) → take k (read_bytes m p n) ≡ read_bytes m p (min k n)
unfolding read_bytes
take-read_bytes m p zero n = ap (read_bytes m p) {x = 0} {y = min 0 n} (omega arith)
take-read_bytes m p (suc k) zero = ap (read_bytes m p) {x = 0} {y = min (suc k) 0} (omega arith)
take-read_bytes m p (suc k) (suc n) =
    ap (λ xs. m p ∷ xs) (take-read_bytes m (p + 1) k n)
    ∙ ap (read_bytes m p) {x = suc (min k n)} {y = min (suc k) (suc n)} (omega arith)

pub drop-read_bytes :
    (m : ℕ → ℕ) (p k n : ℕ) → drop k (read_bytes m p n) ≡ read_bytes m (p + k) (n - k)
unfolding read_bytes
drop-read_bytes m p zero n = at_range m (omega arith) (omega arith)
drop-read_bytes m p (suc k) zero =
    ap (read_bytes m (p + suc k)) {x = 0} {y = 0 - suc k} (omega arith)
drop-read_bytes m p (suc k) (suc n) =
    drop-read_bytes m (p + 1) k n
    ∙ at_range m {p = p + 1 + k} {q = p + suc k} {n = n - k} {k = suc n - suc k} (omega arith)
        (omega arith)
