-- ===== src/Net/Ipv4/Sent.antt =====
-- The frames of a packet.
use zwei_os.Base.{ℕ, ◌+◌, ◌%◌, ◌≤◌, ◌<◌, ◌≡◌, true, some, List, [], ◌∷◌, ◌++◌, arith, length}
use zwei_os.Net.Arp.{ArpEntry, InterfaceConfig, Frame}
use zwei_os.Net.Ipv4.{ipv4_header, ipv4_packet, ipv4_send, resolve, send_to, ethertype_ipv4}

-- A host's packet to an address that is resolved.
pub ipv4_send-resolve :
    (cfg : InterfaceConfig) (cache polled : List ArpEntry) (id dst_ip protocol : ℕ)
    (payload mac : List ℕ) (asked : List Frame)
    → resolve cfg cache polled dst_ip ≡ (asked, some mac)
    → 0 < length payload
    → length payload ≤ 1480
    → ipv4_send cfg cache polled id dst_ip protocol payload ≡ (
      asked
          ++ record {
            dest_mac = mac;
            ethertype = ethertype_ipv4;
            payload = ipv4_packet cfg id dst_ip protocol payload;
          }
            ∷ [],
      true,
      (id + 1) % 65536,
    )
unfolding ipv4_send send_to
ipv4_send-resolve cfg cache polled id dst_ip protocol payload mac asked e some_bytes few =
    ground (arith, some_bytes, few, e)

pub length-ipv4_packet :
    (cfg : InterfaceConfig) (id dst_ip protocol : ℕ) (payload : List ℕ)
    → length (ipv4_packet cfg id dst_ip protocol payload) ≡ 20 + length payload
unfolding ipv4_packet ipv4_header
length-ipv4_packet cfg id dst_ip protocol payload = omega arith
