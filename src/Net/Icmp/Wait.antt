-- ===== src/Net/Icmp/Wait.antt =====
-- `icmp_ping`, and when it says that an answer came.
use zwei_os.Base.{
  ℕ, ◌+◌, ◌*◌, ◌/◌, ◌%◌, ◌^◌, ◌<◌, ◌≡◌, refl, Bool, true, false, Option, none, some, List, [], ◌∷◌,
  arith, ltb, ◌==◌, if◌then◌else◌, take, ◌⊎◌, ◌↔◌, inl, inr, Bool-cases,
}
use zwei_os.Net.Icmp.{Ping}

-- The rounds of the loop: the state after the round's `net_poll`, and the ticks since the start.
pub ping_loop : Ping → ℕ → List (Ping × ℕ) → Bool
ping_loop ping max_ticks [] = true
ping_loop ping max_ticks ((ping', elapsed) ∷ rounds) =
    let rest = ping_loop ping' max_ticks rounds in
    if ping.received then true else if ltb max_ticks elapsed then false else rest

abbrev at_least_one : ℕ → ℕ
at_least_one n = if n == 0 then 1 else n

-- The round trip's time, from the ticks at its end, and `seq_counter`. Whether the request was sent is
-- an argument.
pub icmp_ping : ℕ → ℕ → Bool → List (Ping × ℕ) → ℕ → Option ℕ × ℕ
unfolding ping_loop
icmp_ping seq timeout_ms sent rounds ticks =
    let start : Ping = record { received = false; match_id = 0x4321; match_seq = seq } in
    let answered = ping_loop start (at_least_one (timeout_ms * 100 / 1000)) (take 20000 rounds) in
    let rtt = at_least_one (ticks * 1000 % 2 ^ 64 / 100) % 2 ^ 32 in
    (if sent then (if answered then some rtt else none) else none, (seq + 1) % 65536)

-- The time is out before an answer.
abbrev pub TimesOut : ℕ → List (Ping × ℕ) → Type 0
TimesOut max_ticks [] = ⊥
TimesOut max_ticks ((ping, elapsed) ∷ rounds) =
    (max_ticks < elapsed) ⊎ ((ping.received ≡ false) × TimesOut max_ticks rounds)

answered :
    (ping : Ping) (max_ticks : ℕ) (rounds : List (Ping × ℕ))
    → ping.received ≡ true
    → ping_loop ping max_ticks rounds ≡ true
unfolding ping_loop
answered ping max_ticks [] a = refl
answered ping max_ticks ((ping', elapsed) ∷ rounds) a = ground (arith, a)

fails :
    (ping : Ping) (max_ticks : ℕ) (rounds : List (Ping × ℕ))
    → ping.received ≡ false
    → ping_loop ping max_ticks rounds ≡ false
    → TimesOut max_ticks rounds
unfolding ping_loop
fails ping max_ticks [] f e = absurd (ground (arith, e))
fails ping max_ticks ((ping', elapsed) ∷ rounds) f e = elim (Bool-cases (ltb max_ticks elapsed)) [
  | inl l ↦ inl (ground (arith, l))
  | inr l ↦
      let rest : ping_loop ping' max_ticks rounds ≡ false = ground (arith, f, l, e) in
      elim (Bool-cases ping'.received) [
        | inl a ↦ absurd (ground (arith, rest, answered ping' max_ticks rounds a))
        | inr n ↦ inr (n, fails ping' max_ticks rounds n rest)
      ]
]

late :
    (ping : Ping) (max_ticks : ℕ) (rounds : List (Ping × ℕ))
    → ping.received ≡ false
    → TimesOut max_ticks rounds
    → ping_loop ping max_ticks rounds ≡ false
unfolding ping_loop
late ping max_ticks [] f t = absurd t
late ping max_ticks ((ping', elapsed) ∷ rounds) f (inl l) = ground (arith, f, l)
late ping max_ticks ((ping', elapsed) ∷ rounds) f (inr (n, t)) =
    let ih = late ping' max_ticks rounds n t in ground (arith, f, ih)

-- The loop fails if and only if the time is out before an answer: it succeeds, too, when its rounds run
-- out with no answer.
pub ping_loop-TimesOut :
    (ping : Ping) (max_ticks : ℕ) (rounds : List (Ping × ℕ))
    → ping.received ≡ false
    → (ping_loop ping max_ticks rounds ≡ false) ↔ TimesOut max_ticks rounds
ping_loop-TimesOut ping max_ticks rounds f =
    (fails ping max_ticks rounds f, late ping max_ticks rounds f)
