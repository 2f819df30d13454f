-- ===== src/Net/Ethernet/Frames.antt =====
-- A frame that is sent arrives with its padding.
use zwei_os.Base.{
  ℕ, ◌+◌, ◌-◌, ◌≤◌, ◌<◌, ◌≡◌, ap, ◌∙◌, some, List, [], ◌∷◌, ◌++◌, arith, length, replicate,
}
use zwei_os.Net.Bytes.{six_bytes}
use zwei_os.Net.Arp.{InterfaceConfig}
use zwei_os.Net.Ipv4.{ethertype_ipv4}
use zwei_os.Net.Ethernet.{ethernet_header, ethernet_send, to_ipv4, ethernet_handle_packet}

abbrev pub padding : List ℕ → List ℕ
padding payload = replicate (60 - (14 + length payload)) 0

-- A frame with 14 bytes before its payload.
handle_bytes :
    (mac own payload pad : List ℕ)
    → length mac ≡ 6
    → length own ≡ 6
    → ethernet_handle_packet (((mac ++ (own ++ 8 ∷ 0 ∷ [])) ++ payload) ++ pad)
      ≡ to_ipv4 (payload ++ pad)
unfolding ethernet_handle_packet
handle_bytes mac own payload pad lm lo =
    let (a, b, c, d, e, f, m) = six_bytes mac lm in
    let (g, h, i, j, k, l, o) = six_bytes own lo in
    ap (λ mac. ethernet_handle_packet (((mac ++ (own ++ 8 ∷ 0 ∷ [])) ++ payload) ++ pad)) m
    ∙ ap
        (λ own.
          ethernet_handle_packet
            ((((a ∷ b ∷ c ∷ d ∷ e ∷ f ∷ []) ++ (own ++ 8 ∷ 0 ∷ [])) ++ payload) ++ pad))
        o
    ∙ ground arith

-- An IPv4 packet of 1 to 1500 bytes reaches the IPv4 handler behind zeros that fill the frame up.
pub ethernet_handle_packet-ethernet_send :
    (cfg : InterfaceConfig) (mac packet : List ℕ)
    → length mac ≡ 6
    → length cfg.mac ≡ 6
    → 0 < length packet
    → length packet ≤ 1500
    → (bytes : List ℕ) × (ethernet_send cfg
          (record { dest_mac = mac; ethertype = ethertype_ipv4; payload = packet })
        ≡ some bytes)
      × (ethernet_handle_packet bytes ≡ to_ipv4 (packet ++ padding packet))
unfolding ethernet_send ethernet_header
ethernet_handle_packet-ethernet_send cfg mac packet lm lo some_bytes few = (
  ((mac ++ (cfg.mac ++ 8 ∷ 0 ∷ [])) ++ packet) ++ padding packet,
  ground (arith, some_bytes, few),
  handle_bytes mac cfg.mac packet (padding packet) lm lo,
)
