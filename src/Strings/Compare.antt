-- ===== src/Strings/Compare.antt =====
-- `memcmp` on ranges of bytes.
use zwei_os.Base.{
  ℕ, zero, suc, ◌+◌, ◌<◌, ◌≡◌, ◌≢◌, refl, sym, ap, ◌∙◌, ◌⊎◌, ◌↔◌, inl, inr, arith, ℤ, pos, negsuc,
  ==_iff, ℕ_discrete, ne→==,
}
use zwei_os.Strings.{difference, memcmp}

value : ℤ → ℕ
value (pos n) = n
value (negsuc n) = suc n

difference-zero : (x y : ℕ) → difference x y ≡ pos 0 → x ≡ y
unfolding difference value
difference-zero x y h =
    let zero_of : value (difference x y) ≡ 0 = ap value h in ground (arith, zero_of)

memcmp-suc :
    (m : ℕ → ℕ) (p1 p2 n : ℕ)
    → ((m p1 ≡ m p2) × (memcmp m p1 p2 (suc n) ≡ memcmp m (p1 + 1) (p2 + 1) n))
      ⊎ ((m p1 ≢ m p2) × (memcmp m p1 p2 (suc n) ≡ difference (m p1) (m p2)))
unfolding memcmp
memcmp-suc m p1 p2 n = elim (ℕ_discrete (m p1) (m p2)) [
  | yes e ↦ inl (e, rw ((==_iff (m p1) (m p2)).1 e) refl)
  | no k ↦ inr (k, rw (ne→== (m p1) (m p2) k) refl)
]

next : (m : ℕ → ℕ) (p i : ℕ) → m (p + suc i) ≡ m (p + 1 + i)
next m p i = ap m (omega arith)

first : (m : ℕ → ℕ) (p : ℕ) → m (p + 0) ≡ m p
first m p = ap m (omega arith)

ranges-suc :
    (m : ℕ → ℕ) (p1 p2 n : ℕ)
    → m p1 ≡ m p2
    → ((i : ℕ) → i < n → m (p1 + 1 + i) ≡ m (p2 + 1 + i))
    → (i : ℕ) → i < suc n
    → m (p1 + i) ≡ m (p2 + i)
ranges-suc m p1 p2 n e h zero l = first m p1 ∙ e ∙ sym (first m p2)
ranges-suc m p1 p2 n e h (suc i) l = next m p1 i ∙ h i (omega arith) ∙ sym (next m p2 i)

-- 0 is what equal ranges of bytes compare to, and no others do.
pub memcmp_lem :
    (m : ℕ → ℕ) (p1 p2 count : ℕ)
    → (memcmp m p1 p2 count ≡ pos 0) ↔ ((i : ℕ) → i < count → m (p1 + i) ≡ m (p2 + i))
unfolding memcmp
memcmp_lem m p1 p2 zero = (λ h i l. absurd (omega arith), λ h. refl)
memcmp_lem m p1 p2 (suc n) =
    let ih = memcmp_lem m (p1 + 1) (p2 + 1) n in
    elim (memcmp-suc m p1 p2 n) [
      | inl (e, f) ↦ (
        λ h. ranges-suc m p1 p2 n e (ih.0 (sym f ∙ h)),
        λ h. f ∙ ih.1 (λ i l. sym (next m p1 i) ∙ h (suc i) (omega arith) ∙ next m p2 i),
      )
      | inr (k, f) ↦ (
        λ h. absurd (k (difference-zero (m p1) (m p2) (sym f ∙ h))),
        λ h. absurd (k (sym (first m p1) ∙ h 0 (omega arith) ∙ first m p2)),
      )
    ]
