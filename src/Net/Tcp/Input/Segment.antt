-- ===== src/Net/Tcp/Input/Segment.antt =====
-- A segment from one endpoint to another.
use zwei_os.Base.{
  ℕ, ◌+◌, ◌%◌, ◌^◌, ◌≤◌, ◌<◌, ◌≡◌, true, some, List, [], ◌∷◌, ◌++◌, arith, length, take_all,
}
use zwei_os.Net.Tcp.{
  established, TcpEndpoint, rx_size, flag_ack, flag_psh, tcp_send_segment, tcp_header,
}
use zwei_os.Net.Tcp.Input.{Incoming, take_data, on_segment, parse}

-- The fields of a segment that an endpoint sends.
pub parse-tcp_send_segment :
    (s : TcpEndpoint) (flags : ℕ) (payload : List ℕ)
    → s.local_port < 65536
    → s.remote_port < 65536
    → s.seq < 2 ^ 32
    → s.ack < 2 ^ 32
    → flags < 256
    → parse
        (tcp_send_segment s flags payload).payload
        (length (tcp_send_segment s flags payload).payload)
      ≡ some (record {
        src_port = s.local_port;
        dst_port = s.remote_port;
        seq = s.seq;
        ack = s.ack;
        flags = flags;
        bytes = payload;
        len = length payload;
      })
unfolding parse tcp_send_segment tcp_header
parse-tcp_send_segment s flags payload hl hr hs ha hf = ground arith

-- A chunk of 1 to 1400 bytes that an endpoint sends reaches its established peer whole, if the peer's
-- receive buffer has room for it behind what it holds: the buffer then ends in the chunk, the peer
-- stays established, and its acknowledgement is the sequence number that `tcp_send` leaves the sender
-- with.
pub on_segment-tcp_send_segment :
    (s peer : TcpEndpoint) (chunk : List ℕ)
    → s.local_port < 65536
    → s.remote_port < 65536
    → s.seq < 2 ^ 32
    → s.ack < 2 ^ 32
    → 0 < length chunk
    → length chunk ≤ 1400
    → peer.in_use ≡ true
    → peer.state ≡ established
    → peer.local_port ≡ s.remote_port
    → peer.remote_port ≡ s.local_port
    → peer.rx_len + length chunk ≤ rx_size
    → (p : Incoming) × (peer' : TcpEndpoint) × (parse
          (tcp_send_segment s (flag_ack + flag_psh) chunk).payload
          (length (tcp_send_segment s (flag_ack + flag_psh) chunk).payload)
        ≡ some p)
      × (on_segment peer p ≡ some (peer', tcp_send_segment peer' flag_ack [] ∷ []))
      × (peer'.rx_buffer ≡ peer.rx_buffer ++ chunk)
      × (peer'.ack ≡ (s.seq + length chunk) % 2 ^ 32)
      × (peer'.state ≡ established)
unfolding on_segment take_data
on_segment-tcp_send_segment s peer chunk hl hr hs ha some_bytes few u q to from room =
    let p : Incoming = record {
      src_port = s.local_port;
      dst_port = s.remote_port;
      seq = s.seq;
      ack = s.ack;
      flags = flag_ack + flag_psh;
      bytes = chunk;
      len = length chunk;
    } in
    let peer' = (take_data peer p).0 in
    (
      p,
      peer',
      parse-tcp_send_segment s (flag_ack + flag_psh) chunk hl hr hs ha (omega arith),
      ground (arith, u, q, to, from, some_bytes, few, room),
      ground (arith, some_bytes, few, room, take_all (length chunk) chunk (omega arith)),
      ground (arith, some_bytes),
      ground (arith, q, some_bytes),
    )
