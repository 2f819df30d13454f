-- ===== src/Net/Udp/Tests.antt =====
-- The theorems at a table with one port bound, and at two hosts.
use zwei_os.Base.{◌*◌, ℕ, ◌+◌, ◌*◌, ◌≡◌, refl, inl, true, none, some, List, [], ◌∷◌, arith}
use zwei_os.Net.Arp.{ArpEntry, InterfaceConfig, Frame, arp_lookup, find_ip}
use zwei_os.Net.Ipv4.{Handler, Delivery, ipv4_send, resolve, ipv4_handle_packet}
use zwei_os.Net.Ethernet.{ethernet_send, to_ipv4, ethernet_handle_packet}
use zwei_os.Net.Udp.{
  UdpBinding, unbound, udp_init, udp_bind, udp_unbind, udp_send, handler_of, udp_handle_packet,
}
use zwei_os.Net.Udp.Bindings.{IsBind, udp_bind_lem}
use zwei_os.Net.Udp.Exchange.{received}
use zwei_os.Net.Udp.Wire.{udp_send_over_ethernet}

-- Handler 7 is bound to port 53.
abbrev dns : List UdpBinding
dns = record { port = 53; handler = some 7; in_use = true } ∷ unbound ∷ []

dns_bound : handler_of (udp_bind udp_init 53 (some 7)).1 53 ≡ some 7
unfolding handler_of udp_init udp_bind
dns_bound = refl

dns_unbound : (handler_of (udp_unbind dns 53) 53 ≡ none) × (handler_of dns 53 ≡ some 7)
unfolding handler_of udp_unbind
dns_unbound = (refl, refl)

udp_bind_lem_example : IsBind dns 68 9 (udp_bind dns 68 (some 9))
udp_bind_lem_example = udp_bind_lem dns 68 9 (omega arith)

abbrev host : ℕ → InterfaceConfig
host n = record {
  mac = 2 ∷ 0 ∷ 0 ∷ 0 ∷ 0 ∷ n ∷ [];
  ip = 10 + n * 16777216;
  netmask = 0xffffff;
  gateway = 0;
}

abbrev known : List ArpEntry
known = record { ip = (host 2).ip; mac = (host 2).mac; valid = true } ∷ []

udp_send_over_ethernet_example :
    (datagram packet bytes pad : List ℕ) × (frame : Frame) × (d : Delivery) × (udp_send
        (host 1).ip
        (host 2).ip
        4000
        53
        (5 ∷ 6 ∷ [])
      ≡ some datagram)
    × (ipv4_send (host 1) known known 9 (host 2).ip 17 datagram ≡ (frame ∷ [], true, 10))
    × (ethernet_send (host 1) frame ≡ some bytes)
    × (ethernet_handle_packet bytes ≡ to_ipv4 packet)
    × (ipv4_handle_packet (host 2) packet ≡ some d)
    × (d.handler ≡ Handler.to_udp)
    × (udp_handle_packet dns d.src_ip d.payload d.len
        ≡ some (received 7 (host 1).ip 4000 (5 ∷ 6 ∷ []) pad))
unfolding handler_of resolve arp_lookup find_ip
udp_send_over_ethernet_example =
    udp_send_over_ethernet (host 1) (host 2) known known dns 9 (host 2).ip 4000 53 7 (5 ∷ 6 ∷ [])
      (host 2).mac [] (omega arith) (omega arith) (omega arith) (omega arith) (omega arith) refl
      refl refl (inl refl) refl
