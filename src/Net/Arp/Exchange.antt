-- ===== src/Net/Arp/Exchange.antt =====
-- A request and its reply.
use zwei_os.Base.{
  ℕ, ◌≤◌, ◌<◌, ◌^◌, ◌≡◌, refl, ap, ap₂, sym, subst, ◌∙◌, ◌≢◌, some, List, [], ◌∷◌, ◌++◌, arith,
  length, take, drop,
}
use zwei_os.Net.Bytes.{be16_at, le32_at, six_bytes}
use zwei_os.Net.Arp.{
  ArpEntry, InterfaceConfig, Frame, arp_packet, arp_reply, arp_send_request, arp_handle_packet,
  arp_insert, arp_lookup, no_mac, ethertype_arp,
}
use zwei_os.Net.Arp.Cache.{HasUniqueIps, arp_insert_lem}

-- What a host's settings are.
pub record IsHost (cfg : InterfaceConfig) : Type 0 where
  pub six : length cfg.mac ≡ 6
  pub word : cfg.ip < 2 ^ 32
  pub some_ip : cfg.ip ≢ 0
  pub no_broadcast : cfg.ip ≢ 0xffffffff

-- The fields that `arp_handle_packet` reads of a packet.
pub record HasFields (bytes : List ℕ) (opcode : ℕ) (src : List ℕ) (src_ip dst_ip : ℕ) : Type 0 where
  pub long : 28 ≤ length bytes
  pub hardware : be16_at bytes 0 ≡ 1
  pub protocol : be16_at bytes 2 ≡ 0x800
  pub operation : be16_at bytes 6 ≡ opcode
  pub sender : take 6 (drop 8 bytes) ≡ src
  pub sender_ip : le32_at bytes 14 ≡ src_ip
  pub target_ip : le32_at bytes 24 ≡ dst_ip

-- They are those of the packet that was built; zeros may follow in a short frame.
arp_packet-HasFields :
    (opcode : ℕ) (src dst : List ℕ) (src_ip dst_ip : ℕ) (pad : List ℕ)
    → opcode < 65536
    → length src ≡ 6
    → length dst ≡ 6
    → src_ip < 2 ^ 32
    → dst_ip < 2 ^ 32
    → HasFields (arp_packet opcode src src_ip dst dst_ip ++ pad) opcode src src_ip dst_ip
unfolding arp_packet
arp_packet-HasFields opcode src dst src_ip dst_ip pad ho hs hd hsi hdi =
    let (a, b, c, d, e, f, eq) = six_bytes src hs in
    let (a', b', c', d', e', f', eq') = six_bytes dst hd in
    subst (λ s. HasFields (arp_packet opcode s src_ip dst dst_ip ++ pad) opcode s src_ip dst_ip)
      (sym eq)
      (subst
        (λ t.
          HasFields (arp_packet opcode (a ∷ b ∷ c ∷ d ∷ e ∷ f ∷ []) src_ip t dst_ip ++ pad) opcode
            (a ∷ b ∷ c ∷ d ∷ e ∷ f ∷ []) src_ip dst_ip)
        (sym eq')
        (record {
          long = omega arith;
          hardware = refl;
          protocol = refl;
          operation = omega arith;
          sender = refl;
          sender_ip = omega arith;
          target_ip = omega arith;
        }))

-- A packet teaches its sender's address, whatever its operation; a request for the host's own address
-- is answered.
arp_handle_packet_lem :
    (cfg : InterfaceConfig) (cache : List ArpEntry) (bytes src : List ℕ) (opcode src_ip dst_ip : ℕ)
    → HasFields bytes opcode src src_ip dst_ip
    → ((arp_handle_packet cfg cache bytes).1 ≡ arp_insert cache src_ip (some src))
      × (opcode ≡ 1
          → dst_ip ≡ cfg.ip
          → (arp_handle_packet cfg cache bytes).0 ≡ some (arp_reply cfg bytes))
unfolding arp_handle_packet
arp_handle_packet_lem cfg cache bytes src opcode src_ip dst_ip f = (
  ground (arith, f.long, f.hardware, f.protocol, f.sender, f.sender_ip),
  λ o t. ground (arith, f.long, f.hardware, f.protocol, f.operation, f.target_ip),
)

-- Resolution: host `b` answers the request of host `a` for its address, to `a` alone; with the answer
-- `a` has the hardware address of `b`, and `b` has that of `a`. The frames may come with padding.
pub arp_resolves :
    (a b : InterfaceConfig) (cache_a cache_b : List ArpEntry) (pad pad' : List ℕ)
    → IsHost a
    → IsHost b
    → HasUniqueIps cache_a
    → HasUniqueIps cache_b
    → (reply : Frame) × ((arp_handle_packet b cache_b ((arp_send_request a b.ip).payload ++ pad)).0
        ≡ some reply)
      × (reply.dest_mac ≡ a.mac)
      × (reply.ethertype ≡ ethertype_arp)
      × (arp_lookup (arp_handle_packet b cache_b ((arp_send_request a b.ip).payload ++ pad)).1 a.ip
          ≡ some a.mac)
      × (arp_lookup (arp_handle_packet a cache_a (reply.payload ++ pad')).1 b.ip ≡ some b.mac)
unfolding arp_send_request arp_reply
arp_resolves a b cache_a cache_b pad pad' ha hb ua ub =
    let bytes = (arp_send_request a b.ip).payload ++ pad in
    let f : HasFields bytes 1 a.mac a.ip b.ip =
      arp_packet-HasFields 1 a.mac no_mac a.ip b.ip pad (omega arith) ha.six refl ha.word hb.word in
    let (learns, answers) = arp_handle_packet_lem b cache_b bytes a.mac 1 a.ip b.ip f in
    let reply = arp_reply b bytes in
    let g : HasFields (reply.payload ++ pad') 2 b.mac b.ip a.ip =
      subst (λ bs. HasFields (bs ++ pad') 2 b.mac b.ip a.ip)
        (ap₂ (λ s w. arp_packet 2 b.mac b.ip s w) (sym f.sender) (sym f.sender_ip))
        (arp_packet-HasFields 2 b.mac a.mac b.ip a.ip pad' (omega arith) hb.six ha.six hb.word
          ha.word) in
    let (learns', _) =
      arp_handle_packet_lem a cache_a (reply.payload ++ pad') b.mac 2 b.ip a.ip g in
    (
      reply,
      answers refl refl,
      f.sender,
      refl,
      ap (λ c. arp_lookup c a.ip) learns
          ∙ (arp_insert_lem cache_b a.ip a.mac ub ha.some_ip ha.no_broadcast).1,
      ap (λ c. arp_lookup c b.ip) learns'
          ∙ (arp_insert_lem cache_a b.ip b.mac ua hb.some_ip hb.no_broadcast).1,
    )
