-- ===== src/Net/Icmp.antt =====
-- kernel/net/icmp.cpp: echo requests and replies. What is given to `ipv4_send` is a result.
pub mod Echo
pub mod Wait
mod Tests
use zwei_os.Base.{
  ℕ, ◌+◌, ◌-◌, ◌*◌, ◌/◌, ◌%◌, ◌^◌, ◌<◌, Bool, true, false, ◌&&◌, ◌||◌, Option, none, some, List, [],
  ◌∷◌, ◌++◌, ltb, ◌==◌, if◌then◌else◌, length, set, take,
}
use zwei_os.Net.Bytes.{byte_at, be16_at, be16, le16}
use zwei_os.Net.Checksum.{ipv4_checksum}

-- The answer that is waited for.
pub record Ping : Type 0 where
  pub received : Bool
  pub match_id : ℕ
  pub match_seq : ℕ

pub icmp_init : Ping
icmp_init = record { received = false; match_id = 0; match_seq = 0 }

-- The checksum as it lies in memory.
pub set_checksum : List ℕ → ℕ → List ℕ
set_checksum bytes c = set (set bytes 2 (c % 256)) 3 (c / 256 % 256)

pub echo_reply : List ℕ → List ℕ
unfolding set_checksum
echo_reply request =
    let bare = set_checksum (set request 0 0) 0 in set_checksum bare (ipv4_checksum bare)

-- The length is the one that IPv4 hands on with the bytes.
pub icmp_handle_packet : Ping → List ℕ → ℕ → Ping × Option (List ℕ)
unfolding echo_reply
icmp_handle_packet ping payload len =
    if ltb len 8
    then (ping, none)
    else if byte_at payload 0 == 8
    then (if ltb 1500 len then (ping, none) else (ping, some (echo_reply (take len payload))))
    else if byte_at payload 0 == 0
    then (if be16_at payload 4 == ping.match_id && be16_at payload 6 == ping.match_seq
        then (record ping { received = true }, none)
        else (ping, none))
    else (ping, none)

-- `ICMPHeader`, packed.
pub icmp_header : ℕ → ℕ → ℕ → ℕ → List ℕ
icmp_header type checksum id seq = type ∷ 0 ∷ (le16 checksum ++ (be16 id ++ be16 seq))

pub icmp_send_echo_request : ℕ → ℕ → List ℕ → Option (List ℕ)
unfolding icmp_header
icmp_send_echo_request id seq bytes =
    if ltb 128 (8 + length bytes)
    then none
    else some (icmp_header 8 (ipv4_checksum (icmp_header 8 0 id seq ++ bytes)) id seq ++ bytes)
