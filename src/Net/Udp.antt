-- ===== src/Net/Udp.antt =====
-- kernel/net/udp.cpp: the bindings of ports to handlers, and datagrams. A handler is a number; its
-- call is a result, and so is the call of `ipv4_send`.
pub mod Bindings
pub mod Exchange
pub mod Wire
mod Tests
use zwei_os.Base.{
  ℕ, zero, suc, ◌+◌, ◌-◌, ◌*◌, ◌/◌, ◌%◌, ◌^◌, ◌<◌, ◌≡◌, Bool, true, false, not, ◌&&◌, ◌||◌, Option,
  none, some, List, [], ◌∷◌, ◌++◌, ltb, ◌==◌, if◌then◌else◌, length, get_or, set, drop, replicate,
}
use zwei_os.Net.Bytes.{byte_at, be16_at, be16, le16, le32}
use zwei_os.Net.Checksum.{ipv4_checksum}

abbrev pub max_udp_bindings : ℕ
max_udp_bindings = 32

-- A null handler is `none`.
pub record UdpBinding : Type 0 where
  pub port : ℕ
  pub handler : Option ℕ
  pub in_use : Bool

abbrev pub unbound : UdpBinding
unbound = record { port = 0; handler = none; in_use = false }

pub udp_init : List UdpBinding
udp_init = replicate max_udp_bindings unbound

pub find_binding : (UdpBinding → Bool) → List UdpBinding → ℕ → Option ℕ
find_binding test [] i = none
find_binding test (b ∷ bs) i =
    let rest = find_binding test bs (i + 1) in if test b then some i else rest

abbrev pub is_bound_to : ℕ → UdpBinding → Bool
is_bound_to port b = b.in_use && b.port == port

bind_unused : List UdpBinding → ℕ → ℕ → Option ℕ → Bool × List UdpBinding
bind_unused bs port handler none = (false, bs)
bind_unused bs port handler (some i) =
    (true, set bs i (record { port = port; handler = some handler; in_use = true }))

bind_at : List UdpBinding → ℕ → ℕ → Option ℕ → Bool × List UdpBinding
unfolding bind_unused find_binding
bind_at bs port handler none = bind_unused bs port handler (find_binding (λ b. not b.in_use) bs 0)
bind_at bs port handler (some i) =
    (true, set bs i (record (get_or bs i unbound) { handler = some handler }))

bind_handler : List UdpBinding → ℕ → Option ℕ → Bool × List UdpBinding
unfolding bind_at find_binding
bind_handler bs port none = (false, bs)
bind_handler bs port (some handler) =
    if port == 0
    then (false, bs)
    else bind_at bs port handler (find_binding (is_bound_to port) bs 0)

pub udp_bind : List UdpBinding → ℕ → Option ℕ → Bool × List UdpBinding
unfolding bind_handler
udp_bind bs port handler = bind_handler bs port handler

unbind_at : List UdpBinding → Option ℕ → List UdpBinding
unbind_at bs none = bs
unbind_at bs (some i) = set bs i (record (get_or bs i unbound) { handler = none; in_use = false })

pub udp_unbind : List UdpBinding → ℕ → List UdpBinding
unfolding unbind_at find_binding
udp_unbind bs port = unbind_at bs (find_binding (is_bound_to port) bs 0)

-- `UDPHeader`, packed.
pub udp_header : ℕ → ℕ → ℕ → ℕ → List ℕ
udp_header src_port dst_port len checksum =
    be16 src_port ++ (be16 dst_port ++ (be16 len ++ le16 checksum))

pseudo_header : ℕ → ℕ → ℕ → List ℕ
pseudo_header src_ip dst_ip udp_len = le32 src_ip ++ (le32 dst_ip ++ (0 ∷ 17 ∷ be16 udp_len))

-- A checksum that is 0 is sent as ones.
pub checksum_for : ℕ → ℕ → ℕ → ℕ → List ℕ → ℕ
unfolding pseudo_header udp_header
checksum_for src_ip dst_ip src_port dst_port payload =
    let sum = ipv4_checksum (
      pseudo_header src_ip dst_ip (8 + length payload)
      ++ (udp_header src_port dst_port (8 + length payload) 0 ++ payload)) in
    if sum == 0 then 65535 else sum

-- The bytes that are given to `ipv4_send`, with the interface's address; `none` if it is not called.
pub udp_send : ℕ → ℕ → ℕ → ℕ → List ℕ → Option (List ℕ)
unfolding checksum_for udp_header
udp_send ip dst_ip src_port dst_port payload =
    if ltb 1400 (length payload)
    then none
    else some (
        udp_header src_port dst_port (8 + length payload)
          (checksum_for ip dst_ip src_port dst_port payload)
        ++ payload)

-- A call of a handler.
pub record Received : Type 0 where
  pub handler : ℕ
  pub src_ip : ℕ
  pub src_port : ℕ
  pub bytes : List ℕ
  pub len : ℕ

handler_at : List UdpBinding → Option ℕ → Option ℕ
handler_at bs none = none
handler_at bs (some i) = (get_or bs i unbound).handler

pub handler_of : List UdpBinding → ℕ → Option ℕ
unfolding handler_at find_binding
handler_of bs port = handler_at bs (find_binding (is_bound_to port) bs 0)

pub call_handler : ℕ → List ℕ → Option ℕ → Option Received
call_handler src_ip payload none = none
call_handler src_ip payload (some h) = some (record {
  handler = h;
  src_ip = src_ip;
  src_port = be16_at payload 0;
  bytes = drop 8 payload;
  len = be16_at payload 4 - 8;
})

pub udp_handle_packet : List UdpBinding → ℕ → List ℕ → ℕ → Option Received
unfolding call_handler handler_of
udp_handle_packet bs src_ip payload len =
    if ltb len 8 || (ltb len (be16_at payload 4) || ltb (be16_at payload 4) 8)
    then none
    else call_handler src_ip payload (handler_of bs (be16_at payload 2))
