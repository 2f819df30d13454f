-- ===== src/Net/Arp/Tests.antt =====
-- The theorems at two hosts, and at an empty cache.
use zwei_os.Base.{
  ℕ, zero, suc, ◌+◌, ◌<◌, ◌≡◌, refl, ◌≢◌, ◌⊎◌, true, false, some, none, [], ◌∷◌, ◌++◌, arith,
  get_or, replicate,
}
use zwei_os.Net.Arp.{
  empty_entry, InterfaceConfig, Frame, arp_init, arp_insert, arp_lookup, arp_handle_packet,
  arp_send_request, arp_cache_size, ethertype_arp,
}
use zwei_os.Net.Arp.Cache.{HasUniqueIps, arp_insert_lem}
use zwei_os.Net.Arp.Scan.{entry}
use zwei_os.Net.Arp.Exchange.{IsHost, arp_resolves}

abbrev host : ℕ → InterfaceConfig
host n = record {
  mac = 2 ∷ 0 ∷ 0 ∷ 0 ∷ 0 ∷ n ∷ [];
  ip = 0x0100000a + n;
  netmask = 0xffffff;
  gateway = 0;
}

invalid_after : (n i : ℕ) → (get_or (replicate n empty_entry) i empty_entry).valid ≡ false
invalid_after zero i = refl
invalid_after (suc n) zero = refl
invalid_after (suc n) (suc i) = invalid_after n i

arp_init-HasUniqueIps : HasUniqueIps arp_init
unfolding arp_init
arp_init-HasUniqueIps = record {
  size = refl;
  distinct = λ i j ip hi hj. absurd (ground (arith, hi, invalid_after 64 i));
}

host-IsHost : (n : ℕ) → n < 100 → IsHost (host n)
host-IsHost n h = record {
  six = refl;
  word = omega arith;
  some_ip = omega arith;
  no_broadcast = omega arith;
}

arp_insert_lem_example :
    HasUniqueIps (arp_insert arp_init 7 (some (1 ∷ [])))
    × (arp_lookup (arp_insert arp_init 7 (some (1 ∷ []))) 7 ≡ some (1 ∷ []))
    × ((ip' : ℕ)
        → ip' ≢ 7
        → (arp_lookup (arp_insert arp_init 7 (some (1 ∷ []))) ip' ≡ arp_lookup arp_init ip')
          ⊎ ((ip' ≡ (entry arp_init 0).ip)
              × ((j : ℕ) → j < arp_cache_size → (entry arp_init j).valid ≡ true)
              × (arp_lookup arp_init 7 ≡ none)))
arp_insert_lem_example =
    arp_insert_lem arp_init 7 (1 ∷ []) arp_init-HasUniqueIps (omega arith) (omega arith)

arp_resolves_example :
    (reply : Frame) × ((arp_handle_packet
        (host 2)
        arp_init
        ((arp_send_request (host 1) (host 2).ip).payload ++ 0 ∷ [])).0
      ≡ some reply)
    × (reply.dest_mac ≡ (host 1).mac)
    × (reply.ethertype ≡ ethertype_arp)
    × (arp_lookup
          (arp_handle_packet
            (host 2)
            arp_init
            ((arp_send_request (host 1) (host 2).ip).payload ++ 0 ∷ [])).1
          (host 1).ip
        ≡ some (host 1).mac)
    × (arp_lookup (arp_handle_packet (host 1) arp_init (reply.payload ++ [])).1 (host 2).ip
        ≡ some (host 2).mac)
arp_resolves_example =
    arp_resolves (host 1) (host 2) arp_init arp_init (0 ∷ []) [] (host-IsHost 1 (omega arith))
      (host-IsHost 2 (omega arith)) arp_init-HasUniqueIps arp_init-HasUniqueIps
