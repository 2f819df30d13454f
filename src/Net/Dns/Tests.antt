-- ===== src/Net/Dns/Tests.antt =====
-- An answer for "a" with one address, behind a question.
use zwei_os.Base.{
  ℕ, zero, suc, ◌+◌, ◌≤◌, ◌<◌, ◌≡◌, refl, ◌⊎◌, true, false, List, [], ◌∷◌, ◌++◌, arith, length,
}
use zwei_os.Net.Bytes.{byte_at}
use zwei_os.Net.Dns.{Dns, skip_name, answers, answer_at, dns_udp_callback}
use zwei_os.Net.Dns.Reads.{dns_udp_callback-Agree}

abbrev asked : Dns
asked = record { resolved = false; result_ip = 0; query_id = 0x1235 }

abbrev answer : List ℕ
answer =
    0x12 ∷ 0x35 ∷ 0x81 ∷ 0x80 ∷ 0 ∷ 1 ∷ 0 ∷ 1 ∷ 0 ∷ 0 ∷ 0 ∷ 0 ∷ 1 ∷ 97 ∷ 0 ∷ 0 ∷ 1 ∷ 0 ∷ 1 ∷ 0xc0
    ∷ 12 ∷ 0 ∷ 1 ∷ 0 ∷ 1 ∷ 0 ∷ 0 ∷ 0 ∷ 60 ∷ 0 ∷ 4 ∷ 10 ∷ 0 ∷ 2 ∷ 15 ∷ []

dns_udp_callback_lem :
    dns_udp_callback asked answer 35
    ≡ record { resolved = true; result_ip = 0x0f02000a; query_id = 0x1235 }
unfolding dns_udp_callback answers answer_at skip_name
dns_udp_callback_lem = refl

byte_at_front : (xs ys : List ℕ) (i : ℕ) → i < length xs → byte_at (xs ++ ys) i ≡ byte_at xs i
byte_at_front [] ys i h = absurd (omega arith)
byte_at_front (x ∷ xs) ys zero h = refl
byte_at_front (x ∷ xs) ys (suc i) h = byte_at_front xs ys i (omega arith)

dns_udp_callback-Agree_example :
    (dns_udp_callback asked (answer ++ 7 ∷ []) 35 ≡ dns_udp_callback asked answer 35)
    × ((offset more : ℕ)
        → ((35 ≤ skip_name 35 (answer ++ 7 ∷ []) 35 offset)
            ⊎ (byte_at (answer ++ 7 ∷ []) (skip_name 35 (answer ++ 7 ∷ []) 35 offset) ≡ 0))
          × (skip_name (35 + more) (answer ++ 7 ∷ []) 35 offset
              ≡ skip_name 35 (answer ++ 7 ∷ []) 35 offset))
dns_udp_callback-Agree_example =
    dns_udp_callback-Agree asked (answer ++ 7 ∷ []) answer 35
      (λ i h. byte_at_front answer (7 ∷ []) i h)
