-- ===== src/Net/Udp/Exchange.antt =====
-- A datagram from one host to another.
use zwei_os.Base.{ℕ, ◌+◌, ◌≤◌, ◌<◌, ◌^◌, ◌≡◌, ◌∙◌, refl, ap, ◌⊎◌, some, List, ◌++◌, arith, length}
use zwei_os.Net.Bytes.{be16_at}
use zwei_os.Net.Arp.{InterfaceConfig}
use zwei_os.Net.Ipv4.{Handler, Delivery, ipv4_packet, ipv4_handle_packet, ip_broadcast}
use zwei_os.Net.Ipv4.Receive.{Dispatched-udp, ipv4_handle_packet-ipv4_packet}
use zwei_os.Net.Udp.{
  UdpBinding, Received, udp_header, checksum_for, udp_send, handler_of, call_handler,
  udp_handle_packet,
}

handle_datagram :
    (bs : List UdpBinding) (src_ip src_port dst_port c handler : ℕ) (payload pad : List ℕ)
    → src_port < 65536
    → dst_port < 65536
    → length payload ≤ 1400
    → handler_of bs dst_port ≡ some handler
    → udp_handle_packet bs src_ip
        ((udp_header src_port dst_port (8 + length payload) c ++ payload) ++ pad)
        (8 + length payload)
      ≡ some (record {
        handler = handler;
        src_ip = src_ip;
        src_port = src_port;
        bytes = payload ++ pad;
        len = length payload;
      })
unfolding udp_handle_packet call_handler udp_header
handle_datagram bs src_ip src_port dst_port c handler payload pad hs hd hl bound =
    let packet = (udp_header src_port dst_port (8 + length payload) c ++ payload) ++ pad in
    let from : be16_at packet 0 ≡ src_port = omega arith in
    let to : be16_at packet 2 ≡ dst_port = omega arith in
    let size : be16_at packet 4 ≡ 8 + length payload = omega arith in
    let called : handler_of bs (be16_at packet 2) ≡ some handler = ap (handler_of bs) to ∙ bound in
    ground (arith, from, size, called)

-- What a bound handler is called with when `payload` comes from `src_port` of `src_ip`.
abbrev pub received : ℕ → ℕ → ℕ → List ℕ → List ℕ → Received
received handler src_ip src_port payload pad = record {
  handler = handler;
  src_ip = src_ip;
  src_port = src_port;
  bytes = payload ++ pad;
  len = length payload;
}

pub udp_send_short :
    (ip dst_ip src_port dst_port : ℕ) (payload : List ℕ)
    → length payload ≤ 1400
    → udp_send ip dst_ip src_port dst_port payload
      ≡ some (
          udp_header src_port dst_port
            (8 + length payload)
            (checksum_for ip dst_ip src_port dst_port payload)
          ++ payload)
unfolding udp_send
udp_send_short ip dst_ip src_port dst_port payload few = ground (arith, few)

pub length-udp_send :
    (src_port dst_port c : ℕ) (payload : List ℕ)
    → length (udp_header src_port dst_port (8 + length payload) c ++ payload) ≡ 8 + length payload
unfolding udp_header
length-udp_send src_port dst_port c payload = omega arith

-- A datagram in an IPv4 packet, with any filling behind it.
pub udp_handle_packet-ipv4_packet :
    (sender cfg : InterfaceConfig) (bs : List UdpBinding) (id dst_ip src_port dst_port handler : ℕ)
    (payload pad : List ℕ)
    → sender.ip < 2 ^ 32
    → dst_ip < 2 ^ 32
    → src_port < 65536
    → dst_port < 65536
    → length payload ≤ 1400
    → (dst_ip ≡ cfg.ip) ⊎ (dst_ip ≡ ip_broadcast)
    → handler_of bs dst_port ≡ some handler
    → let c = checksum_for sender.ip dst_ip src_port dst_port payload in
      let datagram = udp_header src_port dst_port (8 + length payload) c ++ payload in
      (d : Delivery) × (ipv4_handle_packet cfg (ipv4_packet sender id dst_ip 17 datagram ++ pad)
        ≡ some d)
      × (d.handler ≡ Handler.to_udp)
      × (udp_handle_packet bs d.src_ip d.payload d.len
          ≡ some (received handler sender.ip src_port payload pad))
udp_handle_packet-ipv4_packet sender cfg bs id dst_ip src_port dst_port handler payload pad hi hd hs
      ht few mine bound =
    let c = checksum_for sender.ip dst_ip src_port dst_port payload in
    let datagram = udp_header src_port dst_port (8 + length payload) c ++ payload in
    let n = length-udp_send src_port dst_port c payload in
    (
      record {
        handler = Handler.to_udp;
        src_ip = sender.ip;
        payload = datagram ++ pad;
        len = length datagram;
      },
      Dispatched-udp sender.ip datagram pad _ (
          ipv4_handle_packet-ipv4_packet sender cfg id dst_ip 17 datagram pad hi hd (omega arith)
            (omega (arith, n, few)) mine),
      refl,
      ap (udp_handle_packet bs sender.ip (datagram ++ pad)) n
          ∙ handle_datagram bs sender.ip src_port dst_port c handler payload pad hs ht few bound,
    )
