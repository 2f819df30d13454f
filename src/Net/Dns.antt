-- ===== src/Net/Dns.antt =====
-- kernel/net/dns.cpp: `dns_udp_callback`, which reads the answer of a name server.
pub mod Names
pub mod Reads
mod Tests
use zwei_os.Base.{
  ℕ, zero, suc, ◌+◌, ◌-◌, ◌*◌, ◌/◌, ◌%◌, ◌^◌, ◌<◌, Bool, true, false, not, ◌&&◌, ◌||◌, Option, none,
  some, List, [], ◌∷◌, ltb, leb, ◌==◌, if◌then◌else◌,
}
use zwei_os.Net.Bytes.{byte_at, be16_at, le32_at}

pub record Dns : Type 0 where
  pub resolved : Bool
  pub result_ip : ℕ
  pub query_id : ℕ

-- The loop over the labels of a name, on fuel.
pub skip_name : ℕ → List ℕ → ℕ → ℕ → ℕ
skip_name zero bytes len offset = offset
skip_name (suc fuel) bytes len offset =
    let rest = skip_name fuel bytes len (offset + byte_at bytes offset + 1) in
    if ltb offset len && not (byte_at bytes offset == 0) then rest else offset

-- Behind an answer's name, which may be a pointer.
pub answer_at : List ℕ → ℕ → ℕ → ℕ
unfolding skip_name
answer_at bytes len offset =
    if byte_at bytes offset / 64 % 4 == 3 then offset + 2 else skip_name len bytes len offset + 1

-- The loop over the answers that are left.
pub answers : ℕ → List ℕ → ℕ → ℕ → Option ℕ
unfolding answer_at
answers zero bytes len offset = none
answers (suc left) bytes len offset =
    let at = answer_at bytes len offset in
    let rest = answers left bytes len (at + 10 + be16_at bytes (at + 8)) in
    if not (ltb offset len)
    then none
    else if ltb len (at + 10)
    then none
    else if be16_at bytes at == 1 && (be16_at bytes (at + 8) == 4 && leb (at + 14) len)
    then some (le32_at bytes (at + 10))
    else rest

pub take_answer : Dns → Option ℕ → Dns
take_answer dns none = dns
take_answer dns (some ip) = record dns { resolved = true; result_ip = ip }

-- The length is the one that UDP hands on with the bytes.
pub dns_udp_callback : Dns → List ℕ → ℕ → Dns
unfolding take_answer answers skip_name
dns_udp_callback dns bytes len =
    if ltb len 12
    then dns
    else if not (be16_at bytes 0 == dns.query_id)
    then dns
    else if be16_at bytes 6 == 0
    then dns
    else take_answer dns (answers (be16_at bytes 6) bytes len (skip_name len bytes len 12 + 5))
