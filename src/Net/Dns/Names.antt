-- ===== src/Net/Dns/Names.antt =====
-- The loop over a name's labels ends.
use zwei_os.Base.{
  ℕ, zero, suc, ◌+◌, ◌≤◌, ◌≡◌, refl, ap, sym, subst, ◌∙◌, ◌⊎◌, inl, inr, not, ◌&&◌, List, arith,
  ltb, ◌==◌, if◌then◌else◌, Bool-cases,
}
use zwei_os.Net.Bytes.{byte_at}
use zwei_os.Net.Dns.{skip_name}

-- Fuel of the length is enough: the loop ends because its test fails, whatever fuel is given beyond.
pub skip_name_end :
    (fuel : ℕ) (bytes : List ℕ) (len offset : ℕ)
    → len ≤ offset + fuel
    → (len ≤ skip_name fuel bytes len offset)
      ⊎ (byte_at bytes (skip_name fuel bytes len offset) ≡ 0)
unfolding skip_name
skip_name_end zero bytes len offset h = inl (omega arith)
skip_name_end (suc fuel) bytes len offset h =
    elim (Bool-cases (ltb offset len && not (byte_at bytes offset == 0))) [
      | inl more ↦
          let e : skip_name (suc fuel) bytes len offset
              ≡ skip_name fuel bytes len (offset + byte_at bytes offset + 1) =
            ground (arith, more) in
          subst (λ r. (len ≤ r) ⊎ (byte_at bytes r ≡ 0)) (sym e)
            (skip_name_end fuel bytes len (offset + byte_at bytes offset + 1) (omega arith))
      | inr stop ↦
          let e : skip_name (suc fuel) bytes len offset ≡ offset = ground (arith, stop) in
          subst (λ r. (len ≤ r) ⊎ (byte_at bytes r ≡ 0)) (sym e) (ground (arith, stop))
    ]

pub skip_name_more :
    (fuel more : ℕ) (bytes : List ℕ) (len offset : ℕ)
    → len ≤ offset + fuel
    → skip_name (fuel + more) bytes len offset ≡ skip_name fuel bytes len offset
unfolding skip_name
skip_name_more zero zero bytes len offset h = refl
skip_name_more zero (suc more) bytes len offset h = ground arith
skip_name_more (suc fuel) more bytes len offset h =
    ap (λ n. skip_name n bytes len offset) {x = suc fuel + more} {y = suc (fuel + more)}
      (omega arith)
    ∙ ap (λ r. if ltb offset len && not (byte_at bytes offset == 0) then r else offset)
        (skip_name_more fuel more bytes len (offset + byte_at bytes offset + 1) (omega arith))
