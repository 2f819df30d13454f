-- ===== src/Net/Udp/Wire.antt =====
-- A datagram on its way through UDP, IPv4 and Ethernet.
use zwei_os.Base.{
  ℕ, ◌+◌, ◌≤◌, ◌<◌, ◌%◌, ◌^◌, ◌≡◌, ◌⊎◌, true, some, List, [], ◌∷◌, ◌++◌, arith, length,
}
use zwei_os.Net.Arp.{ArpEntry, InterfaceConfig, Frame}
use zwei_os.Net.Ipv4.{
  Handler, Delivery, ipv4_packet, ipv4_send, resolve, ipv4_handle_packet, ip_broadcast,
  ethertype_ipv4,
}
use zwei_os.Net.Ipv4.Sent.{ipv4_send-resolve, length-ipv4_packet}
use zwei_os.Net.Ethernet.{ethernet_send, to_ipv4, ethernet_handle_packet}
use zwei_os.Net.Ethernet.Frames.{padding, ethernet_handle_packet-ethernet_send}
use zwei_os.Net.Udp.{UdpBinding, udp_header, checksum_for, udp_send, handler_of, udp_handle_packet}
use zwei_os.Net.Udp.Exchange.{
  received, udp_send_short, length-udp_send, udp_handle_packet-ipv4_packet,
}

-- A datagram of up to 1400 bytes for another host's address, or for all, leaves as the last frame that
-- IPv4 sends, once the next hop's hardware address is known. Received from the wire, that frame reaches
-- IPv4, then UDP, then the handler that is bound to the port there: with the sender's address and port,
-- the payload and its length. What stands behind the payload is the frame's filling.
pub udp_send_over_ethernet :
    (sender cfg : InterfaceConfig) (cache polled : List ArpEntry) (bs : List UdpBinding)
    (id dst_ip src_port dst_port handler : ℕ) (payload mac : List ℕ) (asked : List Frame)
    → sender.ip < 2 ^ 32
    → dst_ip < 2 ^ 32
    → src_port < 65536
    → dst_port < 65536
    → length payload ≤ 1400
    → length mac ≡ 6
    → length sender.mac ≡ 6
    → resolve sender cache polled dst_ip ≡ (asked, some mac)
    → (dst_ip ≡ cfg.ip) ⊎ (dst_ip ≡ ip_broadcast)
    → handler_of bs dst_port ≡ some handler
    → (datagram packet bytes pad : List ℕ) × (frame : Frame) × (d : Delivery) × (udp_send sender.ip
          dst_ip src_port dst_port payload
        ≡ some datagram)
      × (ipv4_send sender cache polled id dst_ip 17 datagram
          ≡ (asked ++ frame ∷ [], true, (id + 1) % 65536))
      × (ethernet_send sender frame ≡ some bytes)
      × (ethernet_handle_packet bytes ≡ to_ipv4 packet)
      × (ipv4_handle_packet cfg packet ≡ some d)
      × (d.handler ≡ Handler.to_udp)
      × (udp_handle_packet bs d.src_ip d.payload d.len
          ≡ some (received handler sender.ip src_port payload pad))
udp_send_over_ethernet sender cfg cache polled bs id dst_ip src_port dst_port handler payload mac
      asked hi hd hs ht few lm lo found mine bound =
    let c = checksum_for sender.ip dst_ip src_port dst_port payload in
    let datagram = udp_header src_port dst_port (8 + length payload) c ++ payload in
    let packet = ipv4_packet sender id dst_ip 17 datagram in
    let size : length datagram ≡ 8 + length payload = length-udp_send src_port dst_port c payload in
    let n = length-ipv4_packet sender id dst_ip 17 datagram in
    let (bytes, sent, taken) =
      ethernet_handle_packet-ethernet_send sender mac packet lm lo (omega (arith, n))
        (omega (arith, n, size, few)) in
    let (d, arrives, protocol, called) =
      udp_handle_packet-ipv4_packet sender cfg bs id dst_ip src_port dst_port handler payload
        (padding packet) hi hd hs ht few mine bound in
    (
      datagram,
      packet ++ padding packet,
      bytes,
      padding packet,
      record { dest_mac = mac; ethertype = ethertype_ipv4; payload = packet },
      d,
      udp_send_short sender.ip dst_ip src_port dst_port payload few,
      ipv4_send-resolve sender cache polled id dst_ip 17 datagram mac asked found
          (omega (arith, size)) (omega (arith, size, few)),
      sent,
      taken,
      arrives,
      protocol,
      called,
    )
