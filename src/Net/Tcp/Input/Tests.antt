-- ===== src/Net/Tcp/Input/Tests.antt =====
-- The theorems on segments at two endpoints.
use zwei_os.Base.{
  ℕ, ◌+◌, ◌%◌, ◌^◌, ◌≡◌, refl, true, some, List, [], ◌∷◌, ◌++◌, arith, length, replicate,
}
use zwei_os.Net.Tcp.{
  established, TcpEndpoint, closed_endpoint, flag_ack, flag_psh, tcp_send_segment, tcp_header,
  tcp_init,
}
use zwei_os.Net.Tcp.Input.{Incoming, on_segment, parse, tcp_handle_packet}
use zwei_os.Net.Tcp.Input.Segment.{on_segment-tcp_send_segment}
use zwei_os.Net.Tcp.Input.Edges.{MovesOne, tcp_handle_packet-MovesOne}
use zwei_os.Net.Tcp.Input.Stream.{Event, arrives, reads}

abbrev client : TcpEndpoint
client = record closed_endpoint {
  in_use = true;
  state = established;
  local_port = 49152;
  remote_port = 80;
  seq = 110000;
  ack = 7;
}

abbrev server : TcpEndpoint
server = record closed_endpoint {
  in_use = true;
  state = established;
  local_port = 80;
  remote_port = 49152;
}

abbrev chunk : List ℕ
chunk = 71 ∷ 69 ∷ 84 ∷ []

abbrev incoming : ℕ → List ℕ → ℕ → Incoming
incoming flags bytes len = record {
  src_port = 80;
  dst_port = 49152;
  seq = 7;
  ack = 110000;
  flags = flags;
  bytes = bytes;
  len = len;
}

on_segment-tcp_send_segment_example :
    (p : Incoming) × (peer' : TcpEndpoint) × (parse
        (tcp_send_segment client (flag_ack + flag_psh) chunk).payload
        (length (tcp_send_segment client (flag_ack + flag_psh) chunk).payload)
      ≡ some p)
    × (on_segment server p ≡ some (peer', tcp_send_segment peer' flag_ack [] ∷ []))
    × (peer'.rx_buffer ≡ server.rx_buffer ++ chunk)
    × (peer'.ack ≡ (client.seq + length chunk) % 2 ^ 32)
    × (peer'.state ≡ established)
on_segment-tcp_send_segment_example =
    on_segment-tcp_send_segment client server chunk (omega arith) (omega arith) (omega arith)
      (omega arith) (omega arith) (omega arith) refl refl refl refl (omega arith)

-- A segment with RST.
abbrev reset : List ℕ
reset = tcp_header 80 49152 7 110000 4 0

tcp_handle_packet-MovesOne_example :
    MovesOne
      (record tcp_init { sockets = client ∷ [] })
      (tcp_handle_packet (record tcp_init { sockets = client ∷ [] }) reset 20).1
      (incoming 4 [] 0)
unfolding parse tcp_header
tcp_handle_packet-MovesOne_example =
    tcp_handle_packet-MovesOne (record tcp_init { sockets = client ∷ [] }) reset 20
      (incoming 4 [] 0) refl

abbrev events : List Event
events = arrives (incoming 16 chunk 3) ∷ reads 2 ∷ arrives (incoming 16 chunk 3) ∷ []

abbrev full : TcpEndpoint
full = record client { rx_len = 4096; rx_buffer = replicate 4096 0 }
