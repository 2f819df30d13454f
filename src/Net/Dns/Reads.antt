-- ===== src/Net/Dns/Reads.antt =====
-- What the reading of an answer looks at.
use zwei_os.Base.{
  ℕ, zero, suc, ◌+◌, ◌/◌, ◌%◌, ◌≤◌, ◌<◌, ◌≡◌, refl, ap, sym, ◌∙◌, ◌⊎◌, inl, inr, not, ◌&&◌, Option,
  none, some, List, arith, ltb, leb, ◌==◌, if◌then◌else◌, Bool-cases,
}
use zwei_os.Net.Bytes.{byte_at, be16_at, le32_at}
use zwei_os.Net.Dns.{Dns, skip_name, answer_at, answers, take_answer, dns_udp_callback}
use zwei_os.Net.Dns.Names.{skip_name_end, skip_name_more}

-- The bytes below the length are the same.
abbrev pub Agree : ℕ → List ℕ → List ℕ → Type 0
Agree len bytes bytes' = (i : ℕ) → i < len → byte_at bytes i ≡ byte_at bytes' i

skip_name-Agree :
    (fuel : ℕ) (bytes bytes' : List ℕ) (len offset : ℕ)
    → Agree len bytes bytes'
    → skip_name fuel bytes len offset ≡ skip_name fuel bytes' len offset
unfolding skip_name
skip_name-Agree zero bytes bytes' len offset a = refl
skip_name-Agree (suc fuel) bytes bytes' len offset a = elim (Bool-cases (ltb offset len)) [
  | inr out ↦ ground (arith, out)
  | inl in_it ↦
      let same : byte_at bytes offset ≡ byte_at bytes' offset = a offset (ground (arith, in_it)) in
      let ih = skip_name-Agree fuel bytes bytes' len (offset + byte_at bytes offset + 1) a in
      let ih' : skip_name fuel bytes len (offset + byte_at bytes offset + 1)
          ≡ skip_name fuel bytes' len (offset + byte_at bytes' offset + 1) =
        ih ∙ ap (λ b. skip_name fuel bytes' len (offset + b + 1)) same in
      ground (arith, in_it, same, ih')
]

answer_at-Agree :
    (bytes bytes' : List ℕ) (len offset : ℕ)
    → Agree len bytes bytes'
    → offset < len
    → answer_at bytes len offset ≡ answer_at bytes' len offset
unfolding answer_at
answer_at-Agree bytes bytes' len offset a h =
    ap (λ b. if b / 64 % 4 == 3 then offset + 2 else skip_name len bytes len offset + 1)
      (a offset h)
    ∙ ap (λ r. if byte_at bytes' offset / 64 % 4 == 3 then offset + 2 else r + 1)
        (skip_name-Agree len bytes bytes' len offset a)

be16_at-Agree :
    (bytes bytes' : List ℕ) (len i : ℕ)
    → Agree len bytes bytes'
    → i + 2 ≤ len
    → be16_at bytes i ≡ be16_at bytes' i
be16_at-Agree bytes bytes' len i a h = omega (arith, a i (omega arith), a (i + 1) (omega arith))

le32_at-Agree :
    (bytes bytes' : List ℕ) (len i : ℕ)
    → Agree len bytes bytes'
    → i + 4 ≤ len
    → le32_at bytes i ≡ le32_at bytes' i
le32_at-Agree bytes bytes' len i a h = omega (
  arith,
  a i (omega arith),
  a (i + 1) (omega arith),
  a (i + 2) (omega arith),
  a (i + 3) (omega arith),
)

-- One answer, given where it lies and what the rest gives.
abbrev one_answer : List ℕ → ℕ → ℕ → Option ℕ → Option ℕ
one_answer bytes len at rest =
    if ltb len (at + 10)
    then none
    else if be16_at bytes at == 1 && (be16_at bytes (at + 8) == 4 && leb (at + 14) len)
    then some (le32_at bytes (at + 10))
    else rest

one_answer-Agree :
    (bytes bytes' : List ℕ) (len at : ℕ) (rest : Option ℕ)
    → Agree len bytes bytes'
    → one_answer bytes len at rest ≡ one_answer bytes' len at rest
one_answer-Agree bytes bytes' len at rest a = elim (Bool-cases (ltb len (at + 10))) [
  | inl out ↦ ground (arith, out)
  | inr in_it ↦
      let type = be16_at-Agree bytes bytes' len at a (ground (arith, in_it)) in
      let size = be16_at-Agree bytes bytes' len (at + 8) a (ground (arith, in_it)) in
      elim (Bool-cases (leb (at + 14) len)) [
        | inl all ↦
            let ip = le32_at-Agree bytes bytes' len (at + 10) a (ground (arith, all)) in
            ap (λ t. one_of t (be16_at bytes (at + 8)) (le32_at bytes (at + 10))) type
            ∙ ap (λ s. one_of (be16_at bytes' at) s (le32_at bytes (at + 10))) size
            ∙ ap (λ i. one_of (be16_at bytes' at) (be16_at bytes' (at + 8)) i) ip
        | inr cut ↦ ground (arith, in_it, cut)
      ]
]
  where
    one_of : ℕ → ℕ → ℕ → Option ℕ
    one_of type size ip =
        if ltb len (at + 10)
        then none
        else if type == 1 && (size == 4 && leb (at + 14) len)
        then some ip
        else rest

-- An answer and the rest.
answer_and_rest : ℕ → List ℕ → ℕ → ℕ → Option ℕ
answer_and_rest left bytes len at =
    one_answer bytes len at (answers left bytes len (at + 10 + be16_at bytes (at + 8)))

answer_and_rest-Agree :
    (left : ℕ) (bytes bytes' : List ℕ) (len at : ℕ)
    → Agree len bytes bytes'
    → ((offset : ℕ) → answers left bytes len offset ≡ answers left bytes' len offset)
    → answer_and_rest left bytes len at ≡ answer_and_rest left bytes' len at
unfolding answer_and_rest
answer_and_rest-Agree left bytes bytes' len at a ih = elim (Bool-cases (ltb len (at + 10))) [
  | inl out ↦ ground (arith, out)
  | inr in_it ↦
      let size = be16_at-Agree bytes bytes' len (at + 8) a (ground (arith, in_it)) in
      let rest =
        ih (at + 10 + be16_at bytes (at + 8))
        ∙ ap (λ n. answers left bytes' len (at + 10 + n)) size in
      ap (one_answer bytes len at) rest
      ∙ one_answer-Agree bytes bytes' len at
          (answers left bytes' len (at + 10 + be16_at bytes' (at + 8))) a
]

answers_step :
    (left : ℕ) (bytes : List ℕ) (len offset : ℕ)
    → answers (suc left) bytes len offset ≡ (
        if not (ltb offset len)
        then none
        else answer_and_rest left bytes len (answer_at bytes len offset))
unfolding answers answer_and_rest
answers_step left bytes len offset = refl

answers-Agree :
    (left : ℕ) (bytes bytes' : List ℕ) (len offset : ℕ)
    → Agree len bytes bytes'
    → answers left bytes len offset ≡ answers left bytes' len offset
unfolding answers
answers-Agree zero bytes bytes' len offset a = refl
answers-Agree (suc left) bytes bytes' len offset a = elim (Bool-cases (ltb offset len)) [
  | inr out ↦ ground (arith, out)
  | inl in_it ↦
      let same = answer_at-Agree bytes bytes' len offset a (ground (arith, in_it)) in
      let here =
        answer_and_rest-Agree left bytes bytes' len (answer_at bytes len offset) a
          (λ o. answers-Agree left bytes bytes' len o a) in
      answers_step left bytes len offset
      ∙ ap (λ r. if not (ltb offset len) then none else r)
          (here ∙ ap (answer_and_rest left bytes' len) same)
      ∙ sym (answers_step left bytes' len offset)
]

callback-Agree :
    (dns : Dns) (bytes bytes' : List ℕ) (len : ℕ)
    → Agree len bytes bytes'
    → dns_udp_callback dns bytes len ≡ dns_udp_callback dns bytes' len
unfolding dns_udp_callback take_answer
callback-Agree dns bytes bytes' len a = elim (Bool-cases (ltb len 12)) [
  | inl short ↦ ground (arith, short)
  | inr long ↦
      let id = be16_at-Agree bytes bytes' len 0 a (ground (arith, long)) in
      let count = be16_at-Agree bytes bytes' len 6 a (ground (arith, long)) in
      let all : answers (be16_at bytes 6) bytes len (skip_name len bytes len 12 + 5)
          ≡ answers (be16_at bytes' 6) bytes' len (skip_name len bytes' len 12 + 5) =
        ap (λ n. answers n bytes len (skip_name len bytes len 12 + 5)) count
        ∙ ap (λ o. answers (be16_at bytes' 6) bytes len (o + 5))
            (skip_name-Agree len bytes bytes' len 12 a)
        ∙ answers-Agree (be16_at bytes' 6) bytes bytes' len (skip_name len bytes' len 12 + 5) a in
      ground (arith, long, id, count, all)
]

-- The reading of a name server's answer reads nothing beyond the datagram's length, whatever the
-- datagram holds: two datagrams with the same bytes below it have the same effect. Its loop over a name
-- ends, since its test fails, within as many rounds as the datagram is long.
pub dns_udp_callback-Agree :
    (dns : Dns) (bytes bytes' : List ℕ) (len : ℕ)
    → Agree len bytes bytes'
    → (dns_udp_callback dns bytes len ≡ dns_udp_callback dns bytes' len)
      × ((offset more : ℕ)
          → ((len ≤ skip_name len bytes len offset)
              ⊎ (byte_at bytes (skip_name len bytes len offset) ≡ 0))
            × (skip_name (len + more) bytes len offset ≡ skip_name len bytes len offset))
dns_udp_callback-Agree dns bytes bytes' len a = (
  callback-Agree dns bytes bytes' len a,
  λ offset more. (
    skip_name_end len bytes len offset (omega arith),
    skip_name_more len more bytes len offset (omega arith),
  ),
)
