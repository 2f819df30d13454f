-- ===== src/Net/Ipv4.antt =====
-- kernel/net/ipv4.cpp: building, sending and receiving IPv4 packets. The payload that is handed to a
-- protocol is the bytes from its start to the end of the frame, with the length that goes with them.
pub mod Header
pub mod Receive
pub mod Text
pub mod Sent
mod Tests
use Prim.Native.Nat.{bit_and}
use zwei_os.Base.{
  ℕ, zero, suc, ◌+◌, ◌-◌, ◌*◌, ◌/◌, ◌%◌, ◌^◌, ◌<◌, ◌≡◌, Bool, true, false, not, ◌&&◌, ◌||◌, Option,
  none, some, List, [], ◌∷◌, ◌++◌, ltb, ◌==◌, if◌then◌else◌, length, take, drop,
}
use zwei_os.Net.Bytes.{byte_at, be16_at, le32_at, be16, le16, le32}
use zwei_os.Net.Checksum.{ipv4_checksum}
use zwei_os.Net.Arp.{ArpEntry, InterfaceConfig, Frame, arp_lookup, arp_send_request, broadcast_mac}

abbrev pub ip_broadcast : ℕ
ip_broadcast = 0xffffffff

abbrev pub ethertype_ipv4 : ℕ
ethertype_ipv4 = 0x800

-- `IPv4Header`, packed, from the identification, the protocol, the payload's length, the checksum and
-- the addresses.
pub ipv4_header : ℕ → ℕ → ℕ → ℕ → ℕ → ℕ → List ℕ
ipv4_header id protocol payload_len checksum src_ip dst_ip =
    0x45
    ∷ 0
    ∷ (be16 ((20 + payload_len) % 65536)
        ++ (be16 id
            ++ (be16 0x4000 ++ (64 ∷ protocol ∷ (le16 checksum ++ (le32 src_ip ++ le32 dst_ip))))))

pub ipv4_packet : InterfaceConfig → ℕ → ℕ → ℕ → List ℕ → List ℕ
ipv4_packet cfg id dst_ip protocol payload =
    let bare = ipv4_header id protocol (length payload) 0 cfg.ip dst_ip in
    ipv4_header id protocol (length payload) (ipv4_checksum bare) cfg.ip dst_ip ++ payload

pub next_hop : InterfaceConfig → ℕ → ℕ
next_hop cfg dst_ip =
    if bit_and dst_ip cfg.netmask == bit_and cfg.ip cfg.netmask then dst_ip else cfg.gateway

-- The destination's hardware address and what is sent to find it; `polled` is the cache after the
-- rounds of `net_poll` that follow a request.
unfoldable pub resolve :
    InterfaceConfig → List ArpEntry → List ArpEntry → ℕ → List Frame × Option (List ℕ)
unfolding next_hop
resolve cfg cache polled dst_ip =
    if dst_ip == ip_broadcast
    then ([], some broadcast_mac)
    else elim (arp_lookup cache (next_hop cfg dst_ip)) [
      | some mac ↦ ([], some mac)
      | none ↦
          (arp_send_request cfg (next_hop cfg dst_ip) ∷ [], arp_lookup polled (next_hop cfg dst_ip))
    ]

-- The frames that are sent, whether the last is the packet, and `g_ip_packet_id`.
pub send_to :
    InterfaceConfig → ℕ → ℕ → ℕ → List ℕ → List Frame × Option (List ℕ) → List Frame × Bool × ℕ
send_to cfg id dst_ip protocol payload (asked, none) = (asked, false, id)
send_to cfg id dst_ip protocol payload (asked, some mac) = (
  asked
      ++ record {
        dest_mac = mac;
        ethertype = ethertype_ipv4;
        payload = ipv4_packet cfg id dst_ip protocol payload;
      }
        ∷ [],
  true,
  (id + 1) % 65536,
)

pub ipv4_send :
    InterfaceConfig → List ArpEntry → List ArpEntry → ℕ → ℕ → ℕ → List ℕ → List Frame × Bool × ℕ
unfolding resolve send_to
ipv4_send cfg cache polled id dst_ip protocol payload =
    if length payload == 0 || ltb 1480 (length payload)
    then ([], false, id)
    else send_to cfg id dst_ip protocol payload (resolve cfg cache polled dst_ip)

-- `icmp_handle_packet`, `udp_handle_packet` and `tcp_handle_packet`, and a call of one.
pub data Handler : Type 0 where
  to_icmp : Handler
  to_udp : Handler
  to_tcp : Handler

pub record Delivery : Type 0 where
  pub handler : Handler
  pub src_ip : ℕ
  pub payload : List ℕ
  pub len : ℕ

abbrev pub header_bytes : List ℕ → ℕ
header_bytes packet = byte_at packet 0 % 16 * 4

-- The packet's checks, in order.
pub is_accepted : InterfaceConfig → List ℕ → Bool
is_accepted cfg packet =
    not (ltb (length packet) 20)
    && (not (
          not (byte_at packet 0 / 16 % 16 == 4)
          || (ltb (header_bytes packet) 20 || ltb (length packet) (header_bytes packet)))
        && (not (ltb (length packet) (be16_at packet 2))
            && (ipv4_checksum (take (header_bytes packet) packet) == 0
                && (le32_at packet 16 == cfg.ip
                    || (le32_at packet 16 == ip_broadcast || cfg.ip == 0)))))

-- `total_len - ihl` is converted to a `size_t`.
pub delivery : List ℕ → Handler → Delivery
delivery packet handler = record {
  handler = handler;
  src_ip = le32_at packet 12;
  payload = drop (header_bytes packet) packet;
  len = (be16_at packet 2 + 2 ^ 64 - header_bytes packet) % 2 ^ 64;
}

abbrev pub ip_proto_icmp : ℕ
ip_proto_icmp = 1

abbrev pub ip_proto_tcp : ℕ
ip_proto_tcp = 6

abbrev pub ip_proto_udp : ℕ
ip_proto_udp = 17

-- The handler of the packet's protocol is called; a packet of another protocol is dropped.
pub call_protocol : List ℕ → ℕ → Option Delivery
unfolding delivery
call_protocol packet protocol =
    if protocol == ip_proto_icmp
    then some (delivery packet to_icmp)
    else if protocol == ip_proto_udp
    then some (delivery packet to_udp)
    else if protocol == ip_proto_tcp
    then some (delivery packet to_tcp)
    else none

pub ipv4_handle_packet : InterfaceConfig → List ℕ → Option Delivery
unfolding is_accepted call_protocol
ipv4_handle_packet cfg packet =
    if is_accepted cfg packet then call_protocol packet (byte_at packet 9) else none
