-- ===== src/Net/Icmp/Tests.antt =====
-- The exchange of a ping.
use zwei_os.Base.{ℕ, ◌<◌, ◌≡◌, ◌⊎◌, true, false, none, some, List, [], ◌∷◌, ◌++◌, arith, length}
use zwei_os.Net.Checksum.{ipv4_checksum}
use zwei_os.Net.Icmp.{Ping, icmp_init, icmp_handle_packet, icmp_send_echo_request}
use zwei_os.Net.Icmp.Echo.{Carries, icmp_handle_packet-icmp_send_echo_request}

abbrev waiting : Ping
waiting = record { received = false; match_id = 0x4321; match_seq = 1 }

icmp_handle_packet-icmp_send_echo_request_example :
    ((120 < 3) × (icmp_send_echo_request 0x4321 1 (90 ∷ 119 ∷ 101 ∷ []) ≡ none))
    ⊎ ((request reply : List ℕ) × (icmp_send_echo_request 0x4321 1 (90 ∷ 119 ∷ 101 ∷ [])
          ≡ some request)
        × (ipv4_checksum request ≡ 0)
        × Carries 8 0x4321 1 (90 ∷ 119 ∷ 101 ∷ []) request
        × (icmp_handle_packet icmp_init (request ++ 0 ∷ []) (length request)
            ≡ (icmp_init, some reply))
        × Carries 0 0x4321 1 (90 ∷ 119 ∷ 101 ∷ []) reply
        × (ipv4_checksum reply ≡ 0)
        × (icmp_handle_packet waiting (reply ++ []) (length reply)
            ≡ (record waiting { received = true }, none)))
icmp_handle_packet-icmp_send_echo_request_example =
    icmp_handle_packet-icmp_send_echo_request waiting icmp_init 0x4321 1 (90 ∷ 119 ∷ 101 ∷ [])
      (0 ∷ []) [] (omega arith) (omega arith) (omega arith, (omega arith, (omega arith, tt)))
