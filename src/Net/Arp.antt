-- ===== src/Net/Arp.antt =====
-- kernel/net/arp.cpp: the address cache and the handling of ARP packets. A null pointer is `none`.
-- What `ethernet_send` is called with is a result.
pub mod Scan
pub mod Cache
pub mod Exchange
mod Tests
use zwei_os.Base.{
  ℕ, zero, suc, ◌+◌, ◌<◌, ◌≡◌, Bool, true, false, not, ◌&&◌, ◌||◌, Option, none, some, List, [],
  ◌∷◌, ◌++◌, ltb, ◌==◌, if◌then◌else◌, length, get_or, set, take, drop, replicate,
}
use zwei_os.Net.Bytes.{be16_at, le32_at, be16, le32}

abbrev pub arp_cache_size : ℕ
arp_cache_size = 64

pub record ArpEntry : Type 0 where
  pub ip : ℕ
  pub mac : List ℕ
  pub valid : Bool

abbrev pub no_mac : List ℕ
no_mac = 0 ∷ 0 ∷ 0 ∷ 0 ∷ 0 ∷ 0 ∷ []

abbrev pub broadcast_mac : List ℕ
broadcast_mac = 255 ∷ 255 ∷ 255 ∷ 255 ∷ 255 ∷ 255 ∷ []

abbrev pub empty_entry : ArpEntry
empty_entry = record { ip = 0; mac = no_mac; valid = false }

pub arp_init : List ArpEntry
arp_init = replicate arp_cache_size empty_entry

-- The scans, with the index of the list's head.
unfoldable pub find_ip : List ArpEntry → ℕ → ℕ → Option ℕ
find_ip [] ip i = none
find_ip (e ∷ es) ip i =
    let rest = find_ip es ip (i + 1) in if e.valid && e.ip == ip then some i else rest

pub find_invalid : List ArpEntry → ℕ → Option ℕ
find_invalid [] i = none
find_invalid (e ∷ es) i = let rest = find_invalid es (i + 1) in if not e.valid then some i else rest

abbrev pub new_entry : ℕ → List ℕ → ArpEntry
new_entry ip mac = record { ip = ip; mac = mac; valid = true }

-- The entry of an address that is not in the cache: one that is not valid, or else the first.
pub insert_new : List ArpEntry → ℕ → List ℕ → Option ℕ → List ArpEntry
insert_new cache ip mac none = set cache 0 (new_entry ip mac)
insert_new cache ip mac (some i) = set cache i (new_entry ip mac)

pub insert_at : List ArpEntry → ℕ → List ℕ → Option ℕ → List ArpEntry
unfolding insert_new
insert_at cache ip mac none = insert_new cache ip mac (find_invalid cache 0)
insert_at cache ip mac (some i) = set cache i (record (get_or cache i empty_entry) { mac = mac })

pub arp_insert : List ArpEntry → ℕ → Option (List ℕ) → List ArpEntry
arp_insert cache ip none = cache
arp_insert cache ip (some mac) =
    if ip == 0 then cache else insert_at cache ip mac (find_ip cache ip 0)

-- `none` is the result `false`.
pub mac_at : List ArpEntry → Option ℕ → Option (List ℕ)
mac_at cache none = none
mac_at cache (some i) = some (get_or cache i empty_entry).mac

unfoldable pub arp_lookup : List ArpEntry → ℕ → Option (List ℕ)
unfolding mac_at
arp_lookup cache ip =
    if ip == 0
    then none
    else if ip == 0xffffffff
    then some broadcast_mac
    else mac_at cache (find_ip cache ip 0)

-- The part of `InterfaceConfig` that this layer reads.
pub record InterfaceConfig : Type 0 where
  pub mac : List ℕ
  pub ip : ℕ
  pub netmask : ℕ
  pub gateway : ℕ

-- A call of `ethernet_send`.
pub record Frame : Type 0 where
  pub dest_mac : List ℕ
  pub ethertype : ℕ
  pub payload : List ℕ

abbrev pub ethertype_arp : ℕ
ethertype_arp = 0x806

-- `ArpPacket`, packed.
pub arp_packet : ℕ → List ℕ → ℕ → List ℕ → ℕ → List ℕ
arp_packet opcode src_mac src_ip dst_mac dst_ip =
    be16 1
    ++ (be16 0x800
        ++ (6 ∷ 4 ∷ (be16 opcode ++ (src_mac ++ (le32 src_ip ++ (dst_mac ++ le32 dst_ip))))))

pub arp_send_request : InterfaceConfig → ℕ → Frame
arp_send_request cfg target_ip = record {
  dest_mac = broadcast_mac;
  ethertype = ethertype_arp;
  payload = arp_packet 1 cfg.mac cfg.ip no_mac target_ip;
}

pub arp_reply : InterfaceConfig → List ℕ → Frame
arp_reply cfg pkt =
    let src_mac = take 6 (drop 8 pkt) in
    record {
      dest_mac = src_mac;
      ethertype = ethertype_arp;
      payload = arp_packet 2 cfg.mac cfg.ip src_mac (le32_at pkt 14);
    }

pub arp_handle_packet : InterfaceConfig → List ArpEntry → List ℕ → Option Frame × List ArpEntry
unfolding arp_insert arp_reply
arp_handle_packet cfg cache payload =
    if ltb (length payload) 28
    then (none, cache)
    else if not (be16_at payload 0 == 1) || not (be16_at payload 2 == 0x800)
    then (none, cache)
    else (
      (if be16_at payload 6 == 1 && le32_at payload 24 == cfg.ip
          then some (arp_reply cfg payload)
          else none),
      arp_insert cache (le32_at payload 14) (some (take 6 (drop 8 payload))),
    )
