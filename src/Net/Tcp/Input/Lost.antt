-- ===== src/Net/Tcp/Input/Lost.antt =====
-- What the peer is told has arrived, and has not.
use zwei_os.Base.{◌+◌, ◌%◌, ◌^◌, ◌<◌, ◌≡◌, refl, ◌≢◌, true, false, some, List, [], ◌∷◌, ◌++◌, arith}
use zwei_os.Net.Tcp.{
  established, TcpEndpoint, Datagram, rx_size, has_flag, flag_fin, flag_rst, flag_ack,
  tcp_send_segment,
}
use zwei_os.Net.Tcp.Input.{Incoming, take_data, take_fin, react, shut}

-- Data that does not fit is dropped and acknowledged: no byte is kept, and the acknowledgement covers all
-- of it, so that the peer does not send it again.
pub react_drops :
    (s : TcpEndpoint) (p : Incoming)
    → 0 < p.len
    → rx_size < s.rx_len + p.len
    → s.rx_len + p.len < 2 ^ 64
    → has_flag p.flags flag_rst ≡ false
    → has_flag p.flags flag_fin ≡ false
    → (s' : TcpEndpoint) × (react established s p ≡ some (s', tcp_send_segment s' flag_ack [] ∷ []))
      × (s'.rx_buffer ≡ s.rx_buffer)
      × (s'.ack ≡ (p.seq + p.len) % 2 ^ 32)
unfolding react
react_drops s p some_bytes full no_wrap r f =
    (record s { ack = (p.seq + p.len) % 2 ^ 32 }, ground arith, refl, refl)

-- A last segment that carries data with its FIN is not acknowledged whole: the acknowledgement is the
-- number behind the first byte.
pub react_fin :
    (s : TcpEndpoint) (p : Incoming)
    → 0 < p.len
    → p.len < 65536
    → has_flag p.flags flag_rst ≡ false
    → has_flag p.flags flag_fin ≡ true
    → (s' : TcpEndpoint) × (out : List Datagram) × (react established s p ≡ some (s', out))
      × (s'.ack ≡ (p.seq + 1) % 2 ^ 32)
      × (s'.ack ≢ (p.seq + p.len + 1) % 2 ^ 32)
unfolding react
react_fin s p some_bytes few r f = (
  shut (record (take_data s p).0 { ack = (p.seq + 1) % 2 ^ 32 }),
  (take_data s p).1 ++ (take_fin (take_data s p).0 p).1,
  ground arith,
  refl,
  λ e. absurd (omega arith),
)
