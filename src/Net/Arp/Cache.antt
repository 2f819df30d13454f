-- ===== src/Net/Arp/Cache.antt =====
-- The cache as a finite map.
use zwei_os.Base.{
  ℕ, ◌+◌, ◌<◌, ◌≡◌, refl, ap, sym, subst, ◌∙◌, ◌≢◌, ◌⊎◌, inl, inr, true, false, ◌&&◌, none, some,
  List, arith, ◌==◌, if◌then◌else◌, length, set, length-set, get_or-set, Bool-cases,
}
use zwei_os.Net.Arp.{
  ArpEntry, empty_entry, new_entry, arp_cache_size, broadcast_mac, find_ip, insert_new, insert_at,
  arp_insert, mac_at, arp_lookup,
}
use zwei_os.Net.Arp.Scan.{entry, Holds, find_ip_lem, find_invalid_lem}

-- No two valid entries have one address.
pub record HasUniqueIps (cache : List ArpEntry) : Type 0 where
  pub size : length cache ≡ arp_cache_size
  pub distinct : (i j ip : ℕ) → Holds cache i ip → Holds cache j ip → i ≡ j

-- What the place that an insertion writes was: the address's, or free, or the first of a full cache.
abbrev pub IsPlaceFor : List ArpEntry → ℕ → ℕ → Type 0
IsPlaceFor cache ip at =
    Holds cache at ip
    ⊎ (((j : ℕ) → j < length cache → ((entry cache j).valid && (entry cache j).ip == ip) ≡ false)
        × (((entry cache at).valid ≡ false)
            ⊎ ((at ≡ 0) × ((j : ℕ) → j < length cache → (entry cache j).valid ≡ true))))

-- An insertion writes one entry.
insertion :
    (cache : List ArpEntry) (ip : ℕ) (mac : List ℕ)
    → length cache ≡ arp_cache_size
    → ip ≢ 0
    → (at : ℕ) × (at < length cache)
      × (arp_insert cache ip (some mac) ≡ set cache at (new_entry ip mac))
      × IsPlaceFor cache ip at
unfolding arp_insert insert_at insert_new
insertion cache ip mac size nz = elim (find_ip_lem cache ip 0) [
  | inr (d, e, (h, m)) ↦ (
    d,
    h,
    ground (
      arith,
      nz,
      e,
      m,
      ap (λ x. set cache x (new_entry ip mac)) {x = d + 0} {y = d} (omega arith),
    ),
    inl (h, m),
  )
  | inl (e, no_ip) ↦ elim (find_invalid_lem cache 0) [
    | inl (e', full) ↦ (0, omega arith, ground (arith, nz, e, e'), inr (no_ip, inr (refl, full)))
    | inr (d, e', h, free) ↦ (
      d,
      h,
      ground (
        arith,
        nz,
        e,
        e',
        ap (λ x. set cache x (new_entry ip mac)) {x = d + 0} {y = d} (omega arith),
      ),
      inr (no_ip, inl free),
    )
  ]
]

set-HasUniqueIps :
    (cache : List ArpEntry) (ip at : ℕ) (mac : List ℕ)
    → at < length cache
    → IsPlaceFor cache ip at
    → HasUniqueIps cache
    → HasUniqueIps (set cache at (new_entry ip mac))
set-HasUniqueIps cache ip at mac h place u = record {
  size = length-set cache at (new_entry ip mac) ∙ u.size;
  distinct = λ i j ip' hi hj. elim place [
    | inl holds ↦ ground (
      arith,
      read i,
      read j,
      length-set cache at (new_entry ip mac),
      u.distinct i j ip',
      u.distinct at j ip,
      u.distinct at i ip,
    )
    | inr (no_ip, free) ↦ ground (
      arith,
      read i,
      read j,
      length-set cache at (new_entry ip mac),
      u.distinct i j ip',
      no_ip i,
      no_ip j,
    )
  ];
}
  where
    read :
        (i : ℕ)
        → entry (set cache at (new_entry ip mac)) i
          ≡ (if at == i then new_entry ip mac else entry cache i)
    read i = get_or-set cache at i (new_entry ip mac) empty_entry h

-- With unique addresses a lookup finds the entry, wherever it is.
find_ip-Holds :
    (cache : List ArpEntry) (i ip : ℕ)
    → HasUniqueIps cache
    → Holds cache i ip
    → find_ip cache ip 0 ≡ some i
find_ip-Holds cache i ip u h = elim (find_ip_lem cache ip 0) [
  | inl (n, all) ↦ cc (all i h.0, h.1)
  | inr (d, e, hd) ↦
      e ∙ ap (λ x. some x) {x = d + 0} {y = i} (omega (arith, u.distinct d i ip hd h))
]

find_ip-none :
    (cache : List ArpEntry) (ip : ℕ)
    → ((j : ℕ) → j < length cache → ((entry cache j).valid && (entry cache j).ip == ip) ≡ false)
    → find_ip cache ip 0 ≡ none
find_ip-none cache ip all = elim (find_ip_lem cache ip 0) [
  | inl (n, _) ↦ n
  | inr (d, e, (h, m)) ↦ cc (all d h, m)
]

-- A write of another address at a place that has not this one leaves the lookup as it was.
find_ip-set :
    (cache : List ArpEntry) (ip ip' at : ℕ) (mac : List ℕ)
    → at < length cache
    → IsPlaceFor cache ip at
    → HasUniqueIps cache
    → ip' ≢ ip
    → ((entry cache at).valid && (entry cache at).ip == ip') ≡ false
    → mac_at (set cache at (new_entry ip mac)) (find_ip (set cache at (new_entry ip mac)) ip' 0)
      ≡ mac_at cache (find_ip cache ip' 0)
unfolding mac_at
find_ip-set cache ip ip' at mac h place u ne other =
    let cache' = set cache at (new_entry ip mac) in
    let n = length-set cache at (new_entry ip mac) in
    elim (find_ip_lem cache ip' 0) [
      | inl (e, all) ↦
          ap (mac_at cache') (find_ip-none cache' ip' (λ j l. ground (arith, read j, all j, n)))
          ∙ sym (ap (mac_at cache) e)
      | inr (d, e, (l, m)) ↦
          let here : entry cache' d ≡ entry cache d = ground (arith, read d, m, other) in
          ap (mac_at cache') (
            find_ip-Holds cache' d ip' (set-HasUniqueIps cache ip at mac h place u)
              (omega (arith, n), ap (λ e. e.valid && e.ip == ip') here ∙ m))
          ∙ ap (λ e. some e.mac) here
          ∙ sym (ap (mac_at cache) (e ∙ ap (λ x. some x) {x = d + 0} {y = d} (omega arith)))
    ]
  where
    read :
        (i : ℕ)
        → entry (set cache at (new_entry ip mac)) i
          ≡ (if at == i then new_entry ip mac else entry cache i)
    read i = get_or-set cache at i (new_entry ip mac) empty_entry h

arp_lookup-set :
    (cache : List ArpEntry) (ip ip' at : ℕ) (mac : List ℕ)
    → at < length cache
    → IsPlaceFor cache ip at
    → HasUniqueIps cache
    → ip' ≢ ip
    → ((entry cache at).valid && (entry cache at).ip == ip') ≡ false
    → arp_lookup (set cache at (new_entry ip mac)) ip' ≡ arp_lookup cache ip'
unfolding arp_lookup
arp_lookup-set cache ip ip' at mac h place u ne other =
    let e = find_ip-set cache ip ip' at mac h place u ne other in
    ap (λ o. if ip' == 0 then none else if ip' == 0xffffffff then some broadcast_mac else o) e

arp_lookup-set_self :
    (cache : List ArpEntry) (ip at : ℕ) (mac : List ℕ)
    → at < length cache
    → IsPlaceFor cache ip at
    → HasUniqueIps cache
    → ip ≢ 0
    → ip ≢ 0xffffffff
    → arp_lookup (set cache at (new_entry ip mac)) ip ≡ some mac
unfolding arp_lookup mac_at
arp_lookup-set_self cache ip at mac h place u nz nb =
    let cache' = set cache at (new_entry ip mac) in
    let new : entry cache' at ≡ new_entry ip mac =
      ground (arith, get_or-set cache at at (new_entry ip mac) empty_entry h) in
    let holds : Holds cache' at ip =
      (omega (arith, length-set cache at (new_entry ip mac)), ground (arith, new)) in
    ground (
      arith,
      nz,
      nb,
      new,
      find_ip-Holds cache' at ip (set-HasUniqueIps cache ip at mac h place u) holds,
    )

-- After an insertion the address has its new hardware address, the addresses are still unique, and
-- every other address has the one that it had, but for the one that the insertion drops: the first
-- entry's, when the cache is full and has not the new address.
pub arp_insert_lem :
    (cache : List ArpEntry) (ip : ℕ) (mac : List ℕ)
    → HasUniqueIps cache
    → ip ≢ 0
    → ip ≢ 0xffffffff
    → HasUniqueIps (arp_insert cache ip (some mac))
      × (arp_lookup (arp_insert cache ip (some mac)) ip ≡ some mac)
      × ((ip' : ℕ)
          → ip' ≢ ip
          → (arp_lookup (arp_insert cache ip (some mac)) ip' ≡ arp_lookup cache ip')
            ⊎ ((ip' ≡ (entry cache 0).ip)
                × ((j : ℕ) → j < arp_cache_size → (entry cache j).valid ≡ true)
                × (arp_lookup cache ip ≡ none)))
unfolding arp_lookup mac_at
arp_insert_lem cache ip mac u nz nb =
    let (at, h, e, place) = insertion cache ip mac u.size nz in
    let u' = set-HasUniqueIps cache ip at mac h place u in
    (
      subst HasUniqueIps (sym e) u',
      ap (λ c. arp_lookup c ip) e ∙ arp_lookup-set_self cache ip at mac h place u nz nb,
      λ ip' ne. elim (Bool-cases ((entry cache at).valid && (entry cache at).ip == ip')) [
        | inr other ↦
            inl
              (ap (λ c. arp_lookup c ip') e ∙ arp_lookup-set cache ip ip' at mac h place u ne other)
        | inl same ↦ inr (dropped at place ip' ne same)
      ],
    )
  where
    dropped :
        (at : ℕ)
        → IsPlaceFor cache ip at
        → (ip' : ℕ) → ip' ≢ ip
        → ((entry cache at).valid && (entry cache at).ip == ip') ≡ true
        → (ip' ≡ (entry cache 0).ip)
          × ((j : ℕ) → j < arp_cache_size → (entry cache j).valid ≡ true)
          × (arp_lookup cache ip ≡ none)
    dropped at (inl holds) ip' ne same = absurd (ground (arith, holds, same, ne))
    dropped at (inr (no_ip, inl free)) ip' ne same = absurd (ground (arith, free, same))
    dropped at (inr (no_ip, inr (first, full))) ip' ne same = (
      ground (arith, same, ap (entry cache) first),
      λ j l. full j (omega (arith, u.size)),
      ground (arith, nz, nb, find_ip-none cache ip no_ip),
    )
