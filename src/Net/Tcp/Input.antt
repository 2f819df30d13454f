-- ===== src/Net/Tcp/Input.antt =====
-- `tcp_handle_packet`.
pub mod Segment
pub mod Edges
pub mod Stream
pub mod Lost
mod Tests
use zwei_os.Base.{
  ℕ, zero, suc, ◌+◌, ◌-◌, ◌*◌, ◌/◌, ◌%◌, ◌^◌, ◌≤◌, ◌<◌, ◌≡◌, refl, ap, sym, subst, ◌∙◌, ◌≢◌, ◌↔◌,
  ◌⊎◌, inl, inr, Bool, true, false, not, ◌&&◌, ◌||◌, Option, none, some, List, [], ◌∷◌, ◌++◌, ℤ,
  pos, negsuc, arith, ltb, leb, ◌==◌, if◌then◌else◌, length, get_or, set, take, drop, replicate,
  Bool-cases, Option-cases, append-nil, append_assoc, length-append, length-take, length-drop,
  length-set, get_or-set, get_or-set_self, take-append-drop, take_all,
}
use zwei_os.Net.Bytes.{byte_at, be16_at, be32_at, be16, be32, le16, le32}
use zwei_os.Net.Tcp.{
  TcpState, closed, listen, syn_sent, syn_received, established, fin_wait_1, fin_wait_2, close_wait,
  last_ack, time_wait, TcpEndpoint, Tcp, Datagram, is_established, closed_endpoint, socket_at,
  set_socket, is_socket, rx_size, max_tcp_sockets, has_flag, flag_fin, flag_syn, flag_rst, flag_ack,
  tcp_send_segment, tcp_header, tcp_recv, receive, tcp_send, tcp_close, tcp_socket_create, tcp_init,
}

-- The fields of an arriving segment, and the bytes behind its header with their number.
pub record Incoming : Type 0 where
  pub src_port : ℕ
  pub dst_port : ℕ
  pub seq : ℕ
  pub ack : ℕ
  pub flags : ℕ
  pub bytes : List ℕ
  pub len : ℕ

abbrev pub shut : TcpEndpoint → TcpEndpoint
shut s = record s { state = closed; in_use = false }

-- What an established endpoint does with the data: it is kept if it fits, and acknowledged.
pub take_data : TcpEndpoint → Incoming → TcpEndpoint × List Datagram
take_data s p =
    let fits = leb ((s.rx_len + p.len) % 2 ^ 64) rx_size in
    let s' = record s {
      rx_buffer = if fits then s.rx_buffer ++ take p.len p.bytes else s.rx_buffer;
      rx_len = if fits then (s.rx_len + p.len) % 2 ^ 64 else s.rx_len;
      ack = (p.seq + p.len) % 2 ^ 32;
    } in
    if ltb 0 p.len then (s', tcp_send_segment s' flag_ack [] ∷ []) else (s, [])

pub take_fin : TcpEndpoint → Incoming → TcpEndpoint × List Datagram
take_fin s p =
    let s' = record s { ack = (p.seq + 1) % 2 ^ 32 } in
    if has_flag p.flags flag_fin
    then (
      shut s',
      tcp_send_segment s' flag_ack [] ∷ tcp_send_segment s' (flag_fin + flag_ack) [] ∷ [],
    )
    else (s, [])

-- The endpoint's reaction, by its state; `none` where the loop goes on to the next endpoint.
pub react : TcpState → TcpEndpoint → Incoming → Option (TcpEndpoint × List Datagram)
unfolding take_data take_fin
react syn_sent s p =
    let s' = record s { ack = (p.seq + 1) % 2 ^ 32; seq = p.ack; state = established } in
    if has_flag p.flags flag_syn && has_flag p.flags flag_ack
    then some (s', tcp_send_segment s' flag_ack [] ∷ [])
    else none
react established s p =
    let (s1, out1) = take_data s p in
    let (s2, out2) = take_fin s1 p in
    if has_flag p.flags flag_rst then some (shut s, []) else some (s2, out1 ++ out2)
react fin_wait_1 s p = if has_flag p.flags flag_ack then some (shut s, []) else some (s, [])
react other s p = none

abbrev pub is_addressed : TcpEndpoint → Incoming → Bool
is_addressed s p =
    s.in_use && (s.local_port == p.dst_port && (s.remote_port == 0 || s.remote_port == p.src_port))

pub on_segment : TcpEndpoint → Incoming → Option (TcpEndpoint × List Datagram)
unfolding react
on_segment s p = if is_addressed s p then react s.state s p else none

-- The loop over the endpoints.
pub or_next :
    TcpEndpoint
    → List TcpEndpoint × List Datagram
    → Option (TcpEndpoint × List Datagram)
    → List TcpEndpoint
    → List TcpEndpoint × List Datagram
or_next s (ss', out) none ss = (s ∷ ss', out)
or_next s (ss', out) (some (s', out')) ss = (s' ∷ ss, out')

pub dispatch : List TcpEndpoint → Incoming → List TcpEndpoint × List Datagram
unfolding on_segment or_next
dispatch [] p = ([], [])
dispatch (s ∷ ss) p = or_next s (dispatch ss p) (on_segment s p) ss

-- The header's fields; `len` is the length that the caller gives.
pub parse : List ℕ → ℕ → Option Incoming
parse payload len =
    let header_len = byte_at payload 12 / 16 * 4 in
    if ltb len 20 || ltb len header_len
    then none
    else some (record {
      src_port = be16_at payload 0;
      dst_port = be16_at payload 2;
      seq = be32_at payload 4;
      ack = be32_at payload 8;
      flags = byte_at payload 13;
      bytes = drop header_len payload;
      len = len - header_len;
    })

pub handle : Tcp → Option Incoming → List Datagram × Tcp
unfolding dispatch
handle t none = ([], t)
handle t (some p) =
    let (sockets, out) = dispatch t.sockets p in (out, record t { sockets = sockets })

pub tcp_handle_packet : Tcp → List ℕ → ℕ → List Datagram × Tcp
unfolding parse handle
tcp_handle_packet t payload len = handle t (parse payload len)
