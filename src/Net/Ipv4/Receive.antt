-- ===== src/Net/Ipv4/Receive.antt =====
-- What arrives of what is sent, and the length that a protocol is given.
use zwei_os.Base.{
  ℕ, ◌+◌, ◌-◌, ◌%◌, ◌^◌, ◌≤◌, ◌<◌, ◌≡◌, ap, ◌∙◌, ◌↔◌, ◌⊎◌, inl, inr, true, Option, none, some, List,
  ℕ_discrete, ◌≢◌, ne→==, refl, sym, subst, if◌then◌else◌, ◌++◌, arith, length, drop, length-append,
  length-drop, Bool-cases,
}
use zwei_os.Net.Bytes.{byte_at, be16_at, le32_at}
use zwei_os.Net.Checksum.{ipv4_checksum}
use zwei_os.Net.Arp.{InterfaceConfig}
use zwei_os.Net.Ipv4.{
  ipv4_header, ipv4_packet, ip_broadcast, is_accepted, ipv4_handle_packet, Handler, to_icmp, to_udp,
  to_tcp, Delivery, delivery, call_protocol, header_bytes,
}
use zwei_os.Net.Ipv4.Header.{ipv4_checksum-ipv4_header}

-- A call of `handler` with what `payload` from `src_ip` has behind it.
abbrev pub call_of : Handler → ℕ → List ℕ → List ℕ → Delivery
call_of handler src_ip payload pad = record {
  handler = handler;
  src_ip = src_ip;
  payload = payload ++ pad;
  len = length payload;
}

-- What an accepted packet of a protocol comes to.
pub Dispatched : ℕ → ℕ → List ℕ → List ℕ → Option Delivery → Type 0
Dispatched protocol src_ip payload pad result =
    ((protocol ≡ 1) × (result ≡ some (call_of to_icmp src_ip payload pad)))
    ⊎ (((protocol ≡ 17) × (result ≡ some (call_of to_udp src_ip payload pad)))
        ⊎ (((protocol ≡ 6) × (result ≡ some (call_of to_tcp src_ip payload pad)))
            ⊎ ((protocol ≢ 1) × (protocol ≢ 17) × (protocol ≢ 6) × (result ≡ none))))

call_protocol_lem :
    (packet : List ℕ) (protocol src_ip : ℕ) (payload pad : List ℕ)
    → ((handler : Handler) → delivery packet handler ≡ call_of handler src_ip payload pad)
    → Dispatched protocol src_ip payload pad (call_protocol packet protocol)
unfolding call_protocol Dispatched
call_protocol_lem packet protocol src_ip payload pad made = elim (ℕ_discrete protocol 1) [
  | yes e ↦ inl (e, rw e (ap some (made to_icmp)))
  | no a ↦ elim (ℕ_discrete protocol 17) [
    | yes e ↦ inr (inl (e, rw e (ap some (made to_udp))))
    | no b ↦ elim (ℕ_discrete protocol 6) [
      | yes e ↦ inr (inr (inl (e, rw e (ap some (made to_tcp)))))
      | no c ↦ inr (
          inr
            (inr (a, b, c, rw (ne→== protocol 1 a, ne→== protocol 17 b, ne→== protocol 6 c) refl)))
    ]
  ]
]

-- A packet from `src_ip` with whatever padding behind it.
module _ (cfg : InterfaceConfig) (id protocol src_ip dst_ip c : ℕ) (payload pad : List ℕ)
    (e : ipv4_checksum (ipv4_header id protocol (length payload) c src_ip dst_ip) ≡ 0)
    (hl : length payload ≤ 1480) (hs : src_ip < 2 ^ 32) (hd : dst_ip < 2 ^ 32)
    (mine : (dst_ip ≡ cfg.ip) ⊎ (dst_ip ≡ ip_broadcast)) where
  abbrev arrived : List ℕ
  arrived = (ipv4_header id protocol (length payload) c src_ip dst_ip ++ payload) ++ pad

  size : be16_at arrived 2 ≡ 20 + length payload
  unfolding ipv4_header
  size = omega arith

  arrived-is_accepted : is_accepted cfg arrived ≡ true
  unfolding is_accepted ipv4_header
  arrived-is_accepted =
      let n = length-append payload pad in
      let to : le32_at arrived 16 ≡ dst_ip = omega arith in ground (arith, e, n, to, size, mine)

  delivery-arrived :
      (handler : Handler) → delivery arrived handler ≡ call_of handler src_ip payload pad
  unfolding ipv4_header delivery
  delivery-arrived handler =
      let from : le32_at arrived 12 ≡ src_ip = omega arith in ground (arith, from, size)

  accepted : ipv4_handle_packet cfg arrived ≡ call_protocol arrived protocol
  unfolding ipv4_handle_packet ipv4_header
  accepted = ap (λ t. if t then call_protocol arrived protocol else none) arrived-is_accepted

-- A packet that is sent to a host's address, or to all, comes to the handler of its protocol there, which
-- is ICMP, UDP or TCP: with the sender's address, the payload and the payload's length, whatever padding
-- the frame has behind it. A packet of any other protocol comes to no handler.
pub ipv4_handle_packet-ipv4_packet :
    (sender cfg : InterfaceConfig) (id dst_ip protocol : ℕ) (payload pad : List ℕ)
    → sender.ip < 2 ^ 32
    → dst_ip < 2 ^ 32
    → protocol < 256
    → length payload ≤ 1480
    → (dst_ip ≡ cfg.ip) ⊎ (dst_ip ≡ ip_broadcast)
    → Dispatched protocol sender.ip payload pad
        (ipv4_handle_packet cfg (ipv4_packet sender id dst_ip protocol payload ++ pad))
unfolding ipv4_packet
ipv4_handle_packet-ipv4_packet sender cfg id dst_ip protocol payload pad hs hd hp hl mine =
    let c = ipv4_checksum (ipv4_header id protocol (length payload) 0 sender.ip dst_ip) in
    let e = ipv4_checksum-ipv4_header id protocol (length payload) sender.ip dst_ip hp in
    subst (Dispatched protocol sender.ip payload pad)
      (sym (accepted cfg id protocol sender.ip dst_ip c payload pad e hl hs hd mine))
      (call_protocol_lem (arrived cfg id protocol sender.ip dst_ip c payload pad e hl hs hd mine)
        protocol sender.ip payload pad
        (delivery-arrived cfg id protocol sender.ip dst_ip c payload pad e hl hs hd mine))

-- A UDP packet comes to UDP.
pub Dispatched-udp :
    (src_ip : ℕ) (payload pad : List ℕ) (result : Option Delivery)
    → Dispatched 17 src_ip payload pad result
    → result ≡ some (call_of to_udp src_ip payload pad)
unfolding Dispatched
Dispatched-udp src_ip payload pad result (inl (e, r)) = absurd (omega (arith, e))
Dispatched-udp src_ip payload pad result (inr (inl (e, r))) = r
Dispatched-udp src_ip payload pad result (inr (inr (inl (e, r)))) = absurd (omega (arith, e))
Dispatched-udp src_ip payload pad result (inr (inr (inr (a, b, c, r)))) = absurd (b refl)

called-fields :
    (packet : List ℕ) (protocol : ℕ) (d : Delivery)
    → call_protocol packet protocol ≡ some d
    → (d.len ≡ (be16_at packet 2 + 2 ^ 64 - header_bytes packet) % 2 ^ 64)
      × (d.payload ≡ drop (header_bytes packet) packet)
unfolding call_protocol delivery
called-fields packet protocol d e = elim (ℕ_discrete protocol 1) [
  | yes a ↦ (ground (arith, e, a), ground (arith, e, a))
  | no a ↦ elim (ℕ_discrete protocol 17) [
    | yes b ↦ (ground (arith, e, b), ground (arith, e, b))
    | no b ↦ elim (ℕ_discrete protocol 6) [
      | yes c ↦ (ground (arith, e, c), ground (arith, e, c))
      | no c ↦ absurd (ground (arith, e, a, b, c))
    ]
  ]
]

-- The length that a protocol is given lies within the bytes that it is given if and only if the packet's
-- total length is not below its header's: the code does not check that.
pub ipv4_handle_packet-len :
    (cfg : InterfaceConfig) (packet : List ℕ) (d : Delivery)
    → length packet ≤ 2048
    → ipv4_handle_packet cfg packet ≡ some d
    → (d.len ≤ length d.payload) ↔ (header_bytes packet ≤ be16_at packet 2)
unfolding ipv4_handle_packet
ipv4_handle_packet-len cfg packet d h e = elim (Bool-cases (is_accepted cfg packet)) [
  | inr no_packet ↦ absurd (ground (arith, e, no_packet))
  | inl ok ↦
      let fit : be16_at packet 2 ≤ length packet = ground (arith, ok) in
      let called : call_protocol packet (byte_at packet 9) ≡ some d =
        sym (ap (λ t. if t then call_protocol packet (byte_at packet 9) else none) ok) ∙ e in
      let (len_eq, rest) = called-fields packet (byte_at packet 9) d called in
      let n : length d.payload ≡ length packet - header_bytes packet =
        ap length rest ∙ length-drop (header_bytes packet) packet in
      (λ l. omega (arith, fit, len_eq, n), λ l. omega (arith, fit, len_eq, n))
]
