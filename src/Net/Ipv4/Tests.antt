-- ===== src/Net/Ipv4/Tests.antt =====
-- The theorems at two hosts, and at a packet whose total length is 0.
use zwei_os.Base.{ℕ, ◌+◌, ◌-◌, ◌^◌, refl, inl, List, [], ◌∷◌, ◌++◌, arith}
use zwei_os.Net.Arp.{InterfaceConfig}
use zwei_os.Net.Ipv4.{ipv4_packet, ipv4_handle_packet, Handler, Delivery}
use zwei_os.Net.Ipv4.Receive.{Dispatched, ipv4_handle_packet-ipv4_packet}

abbrev host : ℕ → InterfaceConfig
host n = record {
  mac = 2 ∷ 0 ∷ 0 ∷ 0 ∷ 0 ∷ n ∷ [];
  ip = 0x0100000a + n;
  netmask = 0xffffff;
  gateway = 0;
}

ipv4_handle_packet-ipv4_packet_example :
    Dispatched 17
      (host 1).ip
      (5 ∷ 6 ∷ [])
      (0 ∷ [])
      (ipv4_handle_packet (host 2) (ipv4_packet (host 1) 9 (host 2).ip 17 (5 ∷ 6 ∷ []) ++ 0 ∷ []))
ipv4_handle_packet-ipv4_packet_example =
    ipv4_handle_packet-ipv4_packet (host 1) (host 2) 9 (host 2).ip 17 (5 ∷ 6 ∷ []) (0 ∷ [])
      (omega arith) (omega arith) (omega arith) (omega arith) (inl refl)

-- A packet for host 2 whose total length is 0, with its checksum.
abbrev bare_packet : List ℕ
bare_packet =
    0x45 ∷ 0 ∷ 0 ∷ 0 ∷ 0 ∷ 9 ∷ 0x40 ∷ 0 ∷ 64 ∷ 6 ∷ 35 ∷ 238 ∷ 11 ∷ 0 ∷ 0 ∷ 1 ∷ 12 ∷ 0 ∷ 0 ∷ 1 ∷ 0
    ∷ 0 ∷ 0 ∷ 0 ∷ []

abbrev wrapped : Delivery
wrapped = record {
  handler = Handler.to_tcp;
  src_ip = 0x0100000b;
  payload = 0 ∷ 0 ∷ 0 ∷ 0 ∷ [];
  len = 2 ^ 64 - 20;
}
