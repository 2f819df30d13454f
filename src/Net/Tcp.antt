-- ===== src/Net/Tcp.antt =====
-- kernel/net/tcp.cpp: the endpoints. A handler's calls of `ipv4_send` are results; whether one succeeds
-- is an argument where the code looks at it.
pub mod Input
pub mod Connect
mod Tests
use zwei_os.Base.{
  ℕ, zero, suc, ◌+◌, ◌-◌, ◌*◌, ◌/◌, ◌%◌, ◌^◌, ◌<◌, ◌≡◌, Bool, true, false, not, ◌&&◌, ◌||◌, Option,
  none, some, List, [], ◌∷◌, ◌++◌, ℤ, pos, negsuc, ltb, leb, ◌==◌, if◌then◌else◌, length, get_or,
  set, take, drop, replicate,
}
use zwei_os.Net.Bytes.{byte_at, be16_at, be32_at, be16, be32, le16, le32}
use zwei_os.Net.Checksum.{ipv4_checksum}

abbrev pub max_tcp_sockets : ℕ
max_tcp_sockets = 16

abbrev pub rx_size : ℕ
rx_size = 4096

pub data TcpState : Type 0 where
  closed listen syn_sent syn_received established fin_wait_1 fin_wait_2 close_wait last_ack
        time_wait :
      TcpState

abbrev pub is_established : TcpState → Bool
is_established established = true
is_established other = false

-- `rx_buffer` is the part of the buffer that `rx_len` counts.
pub record TcpEndpoint : Type 0 where
  pub in_use : Bool
  pub state : TcpState
  pub local_ip : ℕ
  pub local_port : ℕ
  pub remote_ip : ℕ
  pub remote_port : ℕ
  pub seq : ℕ
  pub ack : ℕ
  pub rx_buffer : List ℕ
  pub rx_len : ℕ

pub record Tcp : Type 0 where
  pub sockets : List TcpEndpoint
  pub next_local_port : ℕ
  pub initial_seq : ℕ

abbrev pub closed_endpoint : TcpEndpoint
closed_endpoint = record {
  in_use = false;
  state = closed;
  local_ip = 0;
  local_port = 0;
  remote_ip = 0;
  remote_port = 0;
  seq = 0;
  ack = 0;
  rx_buffer = [];
  rx_len = 0;
}

pub tcp_init : Tcp
tcp_init = record {
  sockets = replicate max_tcp_sockets closed_endpoint;
  next_local_port = 49152;
  initial_seq = 100000;
}

abbrev pub socket_at : Tcp → ℕ → TcpEndpoint
socket_at t i = get_or t.sockets i closed_endpoint

abbrev pub set_socket : Tcp → ℕ → TcpEndpoint → Tcp
set_socket t i s = record t { sockets = set t.sockets i s }

-- A call of `ipv4_send` with protocol 6.
pub record Datagram : Type 0 where
  pub dst_ip : ℕ
  pub payload : List ℕ

-- `TCP_FLAG_FIN`, `TCP_FLAG_SYN`, `TCP_FLAG_RST`, `TCP_FLAG_PSH`, `TCP_FLAG_ACK`.
abbrev pub flag_fin : ℕ
flag_fin = 1

abbrev pub flag_syn : ℕ
flag_syn = 2

abbrev pub flag_rst : ℕ
flag_rst = 4

abbrev pub flag_psh : ℕ
flag_psh = 8

abbrev pub flag_ack : ℕ
flag_ack = 16

-- `flags & flag`, for a flag of one bit.
abbrev pub has_flag : ℕ → ℕ → Bool
has_flag flags flag = flags / flag % 2 == 1

-- `TCPHeader`, packed.
pub tcp_header : ℕ → ℕ → ℕ → ℕ → ℕ → ℕ → List ℕ
tcp_header src_port dst_port seq ack flags checksum =
    be16 src_port
    ++ (be16 dst_port
        ++ (be32 seq ++ (be32 ack ++ (0x50 ∷ flags ∷ (be16 4096 ++ (le16 checksum ++ be16 0))))))

pseudo_header : ℕ → ℕ → ℕ → List ℕ
pseudo_header src_ip dst_ip tcp_len = le32 src_ip ++ (le32 dst_ip ++ (0 ∷ 6 ∷ be16 tcp_len))

-- A checksum that is 0 is sent as ones.
checksum_of : TcpEndpoint → ℕ → List ℕ → ℕ
unfolding pseudo_header tcp_header
checksum_of s flags payload =
    let sum = ipv4_checksum (
      pseudo_header s.local_ip s.remote_ip ((20 + length payload) % 65536)
      ++ (tcp_header s.local_port s.remote_port s.seq s.ack flags 0 ++ payload)) in
    if sum == 0 then 65535 else sum

pub tcp_send_segment : TcpEndpoint → ℕ → List ℕ → Datagram
tcp_send_segment s flags payload = record {
  dst_ip = s.remote_ip;
  payload =
      tcp_header s.local_port s.remote_port s.seq s.ack flags (checksum_of s flags payload)
      ++ payload;
}

pub unused_socket : List TcpEndpoint → ℕ → Option ℕ
unused_socket [] i = none
unused_socket (s ∷ ss) i =
    let rest = unused_socket ss (i + 1) in if not s.in_use then some i else rest

-- `g_next_local_port++` and its return to the start of the range.
abbrev pub port_after : ℕ → ℕ
port_after p = if leb 65000 ((p + 1) % 65536) then 49152 else (p + 1) % 65536

pub socket_in : Tcp → ℕ → Option ℕ → ℤ × Tcp
socket_in t ip none = (negsuc 0, t)
socket_in t ip (some i) =
    let seq = (t.initial_seq + 10000) % 2 ^ 32 in
    (
      pos i,
      record t {
        sockets = set t.sockets i (record closed_endpoint {
          in_use = true;
          local_ip = ip;
          local_port = t.next_local_port;
          seq = seq;
        });
        next_local_port = port_after t.next_local_port;
        initial_seq = seq;
      },
    )

pub tcp_socket_create : Tcp → ℕ → ℤ × Tcp
tcp_socket_create t ip = socket_in t ip (unused_socket t.sockets 0)

abbrev pub is_socket : Tcp → ℕ → Bool
is_socket t i = ltb i max_tcp_sockets && (socket_at t i).in_use

pub tcp_send : Tcp → ℕ → List ℕ → Bool → ℤ × Option Datagram × Tcp
unfolding tcp_send_segment
tcp_send t i bytes sent =
    let s = socket_at t i in
    let chunk = take (if ltb 1400 (length bytes) then 1400 else length bytes) bytes in
    if not (is_socket t i)
    then (negsuc 0, none, t)
    else if not (is_established s.state) || length bytes == 0
    then (negsuc 0, none, t)
    else if not sent
    then (negsuc 0, some (tcp_send_segment s (flag_ack + flag_psh) chunk), t)
    else (
      pos (length chunk),
      some (tcp_send_segment s (flag_ack + flag_psh) chunk),
      set_socket t i (record s { seq = (s.seq + length chunk) % 2 ^ 32 }),
    )

-- The bytes that are copied out, which the caller's buffer has room for.
pub receive : TcpEndpoint → ℕ → List ℕ × TcpEndpoint
receive s max_len =
    let copy_len = if ltb s.rx_len max_len then s.rx_len else max_len in
    (
      take copy_len s.rx_buffer,
      record s { rx_buffer = drop copy_len s.rx_buffer; rx_len = s.rx_len - copy_len },
    )

pub tcp_recv : Tcp → ℕ → ℕ → ℤ × List ℕ × Tcp
unfolding receive
tcp_recv t i max_len =
    let s = socket_at t i in
    if not (is_socket t i)
    then (negsuc 0, [], t)
    else if s.rx_len == 0
    then (pos 0, [], t)
    else let (bytes, s') = receive s max_len in
      (pos (if ltb s.rx_len max_len then s.rx_len else max_len), bytes, set_socket t i s')

pub tcp_close : Tcp → ℕ → Option Datagram × Tcp
tcp_close t i =
    let s = socket_at t i in
    if not (is_socket t i)
    then (none, t)
    else if is_established s.state
    then (
      some (tcp_send_segment s (flag_fin + flag_ack) []),
      set_socket t i (record s { state = fin_wait_1 }),
    )
    else (none, set_socket t i (record s { state = closed; in_use = false }))
