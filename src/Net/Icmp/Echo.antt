-- ===== src/Net/Icmp/Echo.antt =====
-- A request, its reply, and the reply's arrival.
use zwei_os.Base.{
  ℕ, ◌+◌, ◌≤◌, ◌<◌, ◌≡◌, refl, ap, ◌∙◌, true, false, ◌&&◌, none, some, List, ◌++◌, arith, ltb, ◌==◌,
  if◌then◌else◌, length, take, drop, take_front, Bool-cases, ◌⊎◌, inl, inr,
}
use zwei_os.Net.Bytes.{byte_at, be16_at}
use zwei_os.Net.Checksum.{ipv4_checksum}
use zwei_os.Net.Checksum.Sum.{AreBytes, total-le, ipv4_checksum-lt, ipv4_checksum-zero}
use zwei_os.Net.Icmp.{
  Ping, set_checksum, echo_reply, icmp_handle_packet, icmp_header, icmp_send_echo_request,
}

-- An echo message with its checksum in place.
pub message : ℕ → ℕ → ℕ → List ℕ → List ℕ
message type id seq bytes =
    icmp_header type (ipv4_checksum (icmp_header type 0 id seq ++ bytes)) id seq ++ bytes

ipv4_checksum-message :
    (type id seq : ℕ) (bytes : List ℕ)
    → type < 256
    → AreBytes bytes
    → length bytes ≤ 120
    → ipv4_checksum (message type id seq bytes) ≡ 0
unfolding message icmp_header
ipv4_checksum-message type id seq bytes h b l =
    let bare = icmp_header type 0 id seq ++ bytes in
    ipv4_checksum-zero bare (message type id seq bytes) (omega (arith, total-le bytes b))
      (omega (arith, ipv4_checksum-lt bare))

echo_reply-message :
    (id seq : ℕ) (bytes : List ℕ) → echo_reply (message 8 id seq bytes) ≡ message 0 id seq bytes
unfolding echo_reply set_checksum message icmp_header
echo_reply-message id seq bytes = refl

-- The other host answers.
request_answered :
    (ping : Ping) (id seq : ℕ) (bytes pad : List ℕ)
    → length bytes ≤ 120
    → icmp_handle_packet ping (message 8 id seq bytes ++ pad) (length (message 8 id seq bytes))
      ≡ (ping, some (message 0 id seq bytes))
unfolding icmp_handle_packet message icmp_header
request_answered ping id seq bytes pad l =
    let request = message 8 id seq bytes in
    let whole : take (length request) (request ++ pad) ≡ request = take_front request pad in
    let short : (ltb (length request) 8 ≡ false) × (ltb 1500 (length request) ≡ false) =
      (ground arith, ground arith) in
    let reply : echo_reply (take (length request) (request ++ pad)) ≡ message 0 id seq bytes =
      ap echo_reply whole ∙ echo_reply-message id seq bytes in
    ground (arith, short, reply)

reply_taken :
    (ping : Ping) (id seq : ℕ) (bytes pad : List ℕ)
    → id < 65536
    → seq < 65536
    → icmp_handle_packet ping (message 0 id seq bytes ++ pad) (length (message 0 id seq bytes)) ≡ (
      (if id == ping.match_id && seq == ping.match_seq
          then record ping { received = true }
          else ping),
      none,
    )
unfolding icmp_handle_packet message icmp_header
reply_taken ping id seq bytes pad hi hs =
    let reply = message 0 id seq bytes ++ pad in
    let i : be16_at reply 4 ≡ id = omega arith in
    let s : be16_at reply 6 ≡ seq = omega arith in ground (arith, i, s)

-- What an echo message of a type says: its length, the type, the code 0, identifier, number and bytes.
pub Carries : ℕ → ℕ → ℕ → List ℕ → List ℕ → Type 0
Carries type id seq bytes packet =
    (length packet ≡ 8 + length bytes)
    × (byte_at packet 0 ≡ type)
    × (byte_at packet 1 ≡ 0)
    × (be16_at packet 4 ≡ id)
    × (be16_at packet 6 ≡ seq)
    × (drop 8 packet ≡ bytes)

message-Carries :
    (type id seq : ℕ) (bytes : List ℕ)
    → id < 65536
    → seq < 65536
    → Carries type id seq bytes (message type id seq bytes)
unfolding Carries message icmp_header
message-Carries type id seq bytes hi hs = (omega arith, refl, refl, omega arith, omega arith, refl)

-- An echo request with up to 120 bytes carries its identifier, its number and the bytes. The host that
-- is sent it answers, whatever it waits for itself, with a reply of the same length that carries the
-- same identifier, number and bytes; the checksums of both are right. The sender takes the answer if
-- and only if it waits for that identifier and number. A longer request is not sent.
pub icmp_handle_packet-icmp_send_echo_request :
    (sender other : Ping) (id seq : ℕ) (bytes pad pad' : List ℕ)
    → id < 65536
    → seq < 65536
    → AreBytes bytes
    → ((120 < length bytes) × (icmp_send_echo_request id seq bytes ≡ none))
      ⊎ ((request reply : List ℕ) × (icmp_send_echo_request id seq bytes ≡ some request)
          × (ipv4_checksum request ≡ 0)
          × Carries 8 id seq bytes request
          × (icmp_handle_packet other (request ++ pad) (length request) ≡ (other, some reply))
          × Carries 0 id seq bytes reply
          × (ipv4_checksum reply ≡ 0)
          × (icmp_handle_packet sender (reply ++ pad') (length reply) ≡ (
            (if id == sender.match_id && seq == sender.match_seq
                then record sender { received = true }
                else sender),
            none,
          )))
unfolding icmp_send_echo_request message
icmp_handle_packet-icmp_send_echo_request sender other id seq bytes pad pad' hi hs b =
    elim (Bool-cases (ltb 128 (8 + length bytes))) [
      | inl long ↦ inl (ground (arith, long), ground (arith, long))
      | inr short ↦
          let l : length bytes ≤ 120 = ground (arith, short) in
          inr (
            message 8 id seq bytes,
            message 0 id seq bytes,
            ground (arith, short),
            ipv4_checksum-message 8 id seq bytes (omega arith) b l,
            message-Carries 8 id seq bytes hi hs,
            request_answered other id seq bytes pad l,
            message-Carries 0 id seq bytes hi hs,
            ipv4_checksum-message 0 id seq bytes (omega arith) b l,
            reply_taken sender id seq bytes pad' hi hs,
          )
    ]
