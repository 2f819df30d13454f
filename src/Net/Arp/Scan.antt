-- ===== src/Net/Arp/Scan.antt =====
-- The two scans of the cache: for an address, and for a free entry.
use zwei_os.Base.{
  ℕ, zero, suc, ◌+◌, ◌<◌, ◌≡◌, refl, ◌⊎◌, inl, inr, true, false, ◌&&◌, none, some, List, [], ◌∷◌,
  arith, ◌==◌, length, get_or, Bool-cases,
}
use zwei_os.Net.Arp.{ArpEntry, empty_entry, find_ip, find_invalid}

abbrev pub entry : List ArpEntry → ℕ → ArpEntry
entry cache i = get_or cache i empty_entry

abbrev pub Holds : List ArpEntry → ℕ → ℕ → Type 0
Holds cache i ip = (i < length cache) × (((entry cache i).valid && (entry cache i).ip == ip) ≡ true)

-- The first match of a scan, or there is none.
pub find_ip_lem :
    (es : List ArpEntry) (ip from : ℕ)
    → ((find_ip es ip from ≡ none)
        × ((j : ℕ) → j < length es → ((entry es j).valid && (entry es j).ip == ip) ≡ false))
      ⊎ ((d : ℕ) × (find_ip es ip from ≡ some (d + from)) × Holds es d ip)
unfolding find_ip
find_ip_lem [] ip from = inl (refl, λ j h. absurd (omega arith))
find_ip_lem (e ∷ es) ip from = elim (Bool-cases (e.valid && e.ip == ip)) [
  | inl f ↦ inr (0, ground (arith, f), (omega arith, f))
  | inr f ↦ elim (find_ip_lem es ip (from + 1)) [
    | inl (n, all) ↦ inl (ground (arith, f, n), none_before all f)
    | inr (d, at, (h, m)) ↦ inr (suc d, ground (arith, f, at), (omega arith, m))
  ]
]
  where
    none_before :
        ((j : ℕ) → j < length es → ((entry es j).valid && (entry es j).ip == ip) ≡ false)
        → (e.valid && e.ip == ip) ≡ false
        → (j : ℕ) → j < suc (length es)
        → ((entry (e ∷ es) j).valid && (entry (e ∷ es) j).ip == ip) ≡ false
    none_before all f zero h = f
    none_before all f (suc j) h = all j (omega arith)

pub find_invalid_lem :
    (es : List ArpEntry) (from : ℕ)
    → ((find_invalid es from ≡ none) × ((j : ℕ) → j < length es → (entry es j).valid ≡ true))
      ⊎ ((d : ℕ) × (find_invalid es from ≡ some (d + from))
          × (d < length es)
          × ((entry es d).valid ≡ false))
unfolding find_invalid
find_invalid_lem [] from = inl (refl, λ j h. absurd (omega arith))
find_invalid_lem (e ∷ es) from = elim (Bool-cases e.valid) [
  | inr f ↦ inr (0, ground (arith, f), omega arith, f)
  | inl f ↦ elim (find_invalid_lem es (from + 1)) [
    | inl (n, all) ↦ inl (ground (arith, f, n), all_after all f)
    | inr (d, at, h, m) ↦ inr (suc d, ground (arith, f, at), omega arith, m)
  ]
]
  where
    all_after :
        ((j : ℕ) → j < length es → (entry es j).valid ≡ true)
        → e.valid ≡ true
        → (j : ℕ) → j < suc (length es)
        → (entry (e ∷ es) j).valid ≡ true
    all_after all f zero h = f
    all_after all f (suc j) h = all j (omega arith)
