-- ===== src/Net/Ipv4/Text.antt =====
-- `ipv4_parse` and `ipv4_format` of kernel/net/ipv4.cpp. A string is its characters before the
-- terminator; the bytes of an address do not overlap, so that `|` adds them.
pub mod Dotted
mod Tests
use zwei_os.Base.{
  ℕ, zero, suc, ◌+◌, ◌-◌, ◌*◌, ◌/◌, ◌%◌, ◌^◌, ◌≤◌, ◌<◌, ◌≡◌, refl, ap, sym, subst, append_assoc,
  append-nil, ◌∙◌, ◌⊎◌, inl, inr, Bool, true, false, not, ◌&&◌, ◌||◌, Option, none, some, List, [],
  ◌∷◌, ◌++◌, arith, ltb, leb, ◌==◌, if◌then◌else◌, length, take, get_or, set, length-append,
  take_all, get_or-set, length-set, Bool-cases,
}

-- The loop: `byte_idx` and `bytes`, or the return of 0.
parse_loop : List ℕ → ℕ → List ℕ → Option (ℕ × List ℕ)
parse_loop [] byte_idx bytes = some (byte_idx, bytes)
parse_loop (c ∷ cs) byte_idx bytes =
    let v = get_or bytes byte_idx 0 * 10 + (c - 48) in
    let more = parse_loop cs byte_idx (set bytes byte_idx v) in
    let next = parse_loop cs (byte_idx + 1) bytes in
    if not (ltb byte_idx 4)
    then some (byte_idx, bytes)
    else if leb 48 c && leb c 57
    then (if ltb 255 v then none else more)
    else if c == 46
    then next
    else some (byte_idx, bytes)

address_of : Option (ℕ × List ℕ) → ℕ
address_of none = 0
address_of (some (byte_idx, bytes)) =
    if byte_idx == 3
    then get_or bytes 0 0
      + get_or bytes 1 0 * 2 ^ 8
      + get_or bytes 2 0 * 2 ^ 16
      + get_or bytes 3 0 * 2 ^ 24
    else 0

pub ipv4_parse : List ℕ → ℕ
unfolding parse_loop address_of
ipv4_parse str = address_of (parse_loop str 0 (0 ∷ 0 ∷ 0 ∷ 0 ∷ []))

-- The decimal digits in front of `out`, on fuel.
rev_loop : ℕ → ℕ → List ℕ → List ℕ
rev_loop zero val out = out
rev_loop (suc fuel) val out =
    let more = rev_loop fuel (val / 10) ((48 + val % 10) ∷ out) in if val == 0 then out else more

-- A byte has three digits at most.
number : ℕ → List ℕ
unfolding rev_loop
number val = if val == 0 then 48 ∷ [] else rev_loop 3 val []

-- What fits of `cs` is appended.
put : ℕ → List ℕ → List ℕ → List ℕ
put max_len out cs = out ++ take (max_len - 1 - length out) cs

pub ipv4_format : ℕ → ℕ → List ℕ
unfolding put number
ipv4_format ip max_len =
    let dot = 46 ∷ [] in
    let one = put max_len (put max_len [] (number (ip % 256))) dot in
    let two = put max_len (put max_len one (number (ip / 256 % 256))) dot in
    let three = put max_len (put max_len two (number (ip / 65536 % 256))) dot in
    put max_len three (number (ip / 16777216 % 256))
