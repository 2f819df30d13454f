-- ===== src/Net/Ipv4/Text/Dotted.antt =====
-- An address as it is written, and its reading.
use zwei_os.Base.{
  ℕ, zero, suc, ◌+◌, ◌-◌, ◌*◌, ◌/◌, ◌%◌, ◌^◌, ◌≤◌, ◌<◌, ◌≡◌, refl, ap, sym, append_assoc,
  append-nil, ◌∙◌, ◌⊎◌, inl, inr, some, List, [], ◌∷◌, ◌++◌, arith, ltb, length, get_or, set,
  length-append, take_all, get_or-set, Bool-cases,
}
use zwei_os.Net.Ipv4.Text.{parse_loop, address_of, ipv4_parse, rev_loop, number, put, ipv4_format}

set_twice : (xs : List ℕ) (i u v : ℕ) → set (set xs i u) i v ≡ set xs i v
set_twice [] i u v = refl
set_twice (x ∷ xs) zero u v = refl
set_twice (x ∷ xs) (suc i) u v = ap (λ ys. x ∷ ys) (set_twice xs i u v)

-- One digit is read.
digit :
    (d : ℕ) (cs : List ℕ) (i : ℕ) (bytes : List ℕ) (v : ℕ)
    → d < 10
    → i < 4
    → get_or bytes i 0 ≡ v
    → v * 10 + d ≤ 255
    → parse_loop ((48 + d) ∷ cs) i bytes ≡ parse_loop cs i (set bytes i (v * 10 + d))
unfolding parse_loop
digit d cs i bytes v hd hi hv h =
    let e : get_or bytes i 0 * 10 + (48 + d - 48) ≡ v * 10 + d = omega (arith, hv) in
    ground (arith, e)

-- The dot behind a number.
dot :
    (cs : List ℕ) (i : ℕ) (bytes : List ℕ)
    → i < 4
    → parse_loop (46 ∷ cs) i bytes ≡ parse_loop cs (i + 1) bytes
unfolding parse_loop
dot cs i bytes h = ground (arith, h)

abbrev IsNumber : ℕ → Type 0
IsNumber b =
    ((b < 10) × (number b ≡ (48 + b) ∷ []))
    ⊎ ((b < 100) × (number b ≡ (48 + b / 10) ∷ (48 + b % 10) ∷ []))
    ⊎ (number b ≡ (48 + b / 10 / 10) ∷ (48 + b / 10 % 10) ∷ (48 + b % 10) ∷ [])

number_lem : (b : ℕ) → b < 256 → IsNumber b
unfolding number rev_loop
number_lem b h = elim (Bool-cases (ltb b 10)) [
  | inl one ↦ inl (ground (arith, one), ground (arith, one))
  | inr more ↦ elim (Bool-cases (ltb b 100)) [
    | inl two ↦ inr (inl (ground (arith, two), ground (arith, more, two)))
    | inr three ↦ inr (inr (ground (arith, more, three)))
  ]
]

self : (bytes : List ℕ) (i v : ℕ) → i < length bytes → get_or (set bytes i v) i 0 ≡ v
self bytes i v h = get_or-set bytes i i v 0 h ∙ ground arith

-- The digits of a number are read into the byte that is 0 so far.
module _ (cs : List ℕ) (i : ℕ) (bytes : List ℕ) (hi : i < 4) (l : length bytes ≡ 4)
    (z : get_or bytes i 0 ≡ 0) where
  -- A digit behind the value `v`.
  digit_behind :
      (v d : ℕ) (more : List ℕ)
      → d < 10
      → v * 10 + d ≤ 255
      → parse_loop ((48 + d) ∷ more) i (set bytes i v)
        ≡ parse_loop more i (set bytes i (v * 10 + d))
  digit_behind v d more h k =
      digit d more i (set bytes i v) v h hi (self bytes i v (omega arith)) k
      ∙ ap (parse_loop more i) (set_twice bytes i v (v * 10 + d))

  first_digit :
      (d : ℕ) (more : List ℕ)
      → d < 10
      → parse_loop ((48 + d) ∷ more) i bytes ≡ parse_loop more i (set bytes i d)
  first_digit d more h =
      digit d more i bytes 0 h hi z (omega arith)
      ∙ ap (λ v. parse_loop more i (set bytes i v)) {x = 0 * 10 + d} {y = d} (omega arith)

  number_read :
      (b : ℕ) → b < 256 → parse_loop (number b ++ cs) i bytes ≡ parse_loop cs i (set bytes i b)
  number_read b hb = elim (number_lem b hb) [
    | inl (one, e) ↦ ap (λ n. parse_loop (n ++ cs) i bytes) e ∙ first_digit b cs one
    | inr (inl (two, e)) ↦
        ap (λ n. parse_loop (n ++ cs) i bytes) e
        ∙ first_digit (b / 10) ((48 + b % 10) ∷ cs) (omega arith)
        ∙ digit_behind (b / 10) (b % 10) cs (omega arith) (omega arith)
        ∙ ap (λ v. parse_loop cs i (set bytes i v)) {x = b / 10 * 10 + b % 10} {y = b} (omega arith)
    | inr (inr e) ↦
        ap (λ n. parse_loop (n ++ cs) i bytes) e
        ∙ first_digit (b / 10 / 10) ((48 + b / 10 % 10) ∷ (48 + b % 10) ∷ cs) (omega arith)
        ∙ digit_behind (b / 10 / 10) (b / 10 % 10) ((48 + b % 10) ∷ cs) (omega arith) (omega arith)
        ∙ ap (λ v. parse_loop ((48 + b % 10) ∷ cs) i (set bytes i v))
            {x = b / 10 / 10 * 10 + b / 10 % 10} {y = b / 10} (omega arith)
        ∙ digit_behind (b / 10) (b % 10) cs (omega arith) (omega arith)
        ∙ ap (λ v. parse_loop cs i (set bytes i v)) {x = b / 10 * 10 + b % 10} {y = b} (omega arith)
  ]

-- "a.b.c.d"
dotted : ℕ → ℕ → ℕ → ℕ → List ℕ
dotted a b c d = number a ++ 46 ∷ (number b ++ 46 ∷ (number c ++ 46 ∷ (number d ++ [])))

parse_loop-dotted :
    (a b c d : ℕ)
    → a < 256
    → b < 256
    → c < 256
    → d < 256
    → parse_loop (dotted a b c d) 0 (0 ∷ 0 ∷ 0 ∷ 0 ∷ []) ≡ some (3, a ∷ b ∷ c ∷ d ∷ [])
unfolding dotted parse_loop
parse_loop-dotted a b c d ha hb hc hd =
    number_read (46 ∷ (number b ++ 46 ∷ (number c ++ 46 ∷ (number d ++ [])))) 0 (0 ∷ 0 ∷ 0 ∷ 0 ∷ [])
      (omega arith) refl refl a ha
    ∙ dot (number b ++ 46 ∷ (number c ++ 46 ∷ (number d ++ []))) 0 (a ∷ 0 ∷ 0 ∷ 0 ∷ [])
        (omega arith)
    ∙ number_read (46 ∷ (number c ++ 46 ∷ (number d ++ []))) 1 (a ∷ 0 ∷ 0 ∷ 0 ∷ []) (omega arith)
        refl refl b hb
    ∙ dot (number c ++ 46 ∷ (number d ++ [])) 1 (a ∷ b ∷ 0 ∷ 0 ∷ []) (omega arith)
    ∙ number_read (46 ∷ (number d ++ [])) 2 (a ∷ b ∷ 0 ∷ 0 ∷ []) (omega arith) refl refl c hc
    ∙ dot (number d ++ []) 2 (a ∷ b ∷ c ∷ 0 ∷ []) (omega arith)
    ∙ number_read [] 3 (a ∷ b ∷ c ∷ 0 ∷ []) (omega arith) refl refl d hd

put_fits :
    (max_len : ℕ) (out cs : List ℕ)
    → length out + length cs < max_len
    → put max_len out cs ≡ out ++ cs
unfolding put
put_fits max_len out cs h =
    ap (λ l. out ++ l) (take_all (max_len - 1 - length out) cs (omega arith))

length-number : (b : ℕ) → b < 256 → length (number b) ≤ 3
length-number b h = elim (number_lem b h) [
  | inl (_, e) ↦ omega (arith, ap length e)
  | inr (inl (_, e)) ↦ omega (arith, ap length e)
  | inr (inr e) ↦ omega (arith, ap length e)
]

-- A number and the dot behind it.
put-number :
    (max_len : ℕ) (out : List ℕ) (b : ℕ)
    → b < 256
    → length out + 4 < max_len
    → put max_len (put max_len out (number b)) (46 ∷ []) ≡ out ++ (number b ++ 46 ∷ [])
put-number max_len out b hb h =
    let n = length-number b hb in
    ap (λ o. put max_len o (46 ∷ [])) (put_fits max_len out (number b) (omega (arith, n)))
    ∙ put_fits max_len (out ++ number b) (46 ∷ []) (omega (arith, n, length-append out (number b)))
    ∙ append_assoc out (number b) (46 ∷ [])

length-number_and_dot :
    (out : List ℕ) (b : ℕ) → b < 256 → length (out ++ (number b ++ 46 ∷ [])) ≤ length out + 4
length-number_and_dot out b hb = omega (
  arith,
  length-append out (number b ++ 46 ∷ []),
  length-append (number b) (46 ∷ []),
  length-number b hb,
)

ipv4_format-dotted :
    (ip max_len : ℕ)
    → 16 ≤ max_len
    → ipv4_format ip max_len
      ≡ dotted (ip % 256) (ip / 256 % 256) (ip / 65536 % 256) (ip / 16777216 % 256)
unfolding ipv4_format dotted
ipv4_format-dotted ip max_len h =
    let a = ip % 256 in
    let b = ip / 256 % 256 in
    let c = ip / 65536 % 256 in
    let d = ip / 16777216 % 256 in
    let ha : a < 256 = omega arith in
    let hb : b < 256 = omega arith in
    let hc : c < 256 = omega arith in
    let hd : d < 256 = omega arith in
    let out1 = [] ++ (number a ++ 46 ∷ []) in
    let out2 = out1 ++ (number b ++ 46 ∷ []) in
    let out3 = out2 ++ (number c ++ 46 ∷ []) in
    let l1 = length-number_and_dot [] a ha in
    let l2 = length-number_and_dot out1 b hb in
    let l3 = length-number_and_dot out2 c hc in
    let n = length-number d hd in
    let then_dot = λ (o : List ℕ) (b : ℕ). put max_len (put max_len o (number b)) (46 ∷ []) in
    ap (λ o. put max_len (then_dot (then_dot o b) c) (number d))
      (put-number max_len [] a ha (omega arith))
    ∙ ap (λ o. put max_len (then_dot o c) (number d))
        (put-number max_len out1 b hb (omega (arith, l1)))
    ∙ ap (λ o. put max_len o (number d)) (put-number max_len out2 c hc (omega (arith, l1, l2)))
    ∙ put_fits max_len out3 (number d) (omega (arith, l1, l2, l3, n))
    ∙ simp append_assoc (
        ap (λ l. number a ++ 46 ∷ (number b ++ 46 ∷ (number c ++ 46 ∷ l)))
          (sym (append-nil (number d))))

-- An address that is written with `ipv4_format`, to a buffer of 16 characters or more, and read with
-- `ipv4_parse` is the address again.
pub ipv4_parse-ipv4_format :
    (ip max_len : ℕ) → ip < 2 ^ 32 → 16 ≤ max_len → ipv4_parse (ipv4_format ip max_len) ≡ ip
unfolding ipv4_parse address_of
ipv4_parse-ipv4_format ip max_len hi h =
    ap ipv4_parse (ipv4_format-dotted ip max_len h)
    ∙ ap address_of (
        parse_loop-dotted (ip % 256) (ip / 256 % 256) (ip / 65536 % 256) (ip / 16777216 % 256)
          (omega arith) (omega arith) (omega arith) (omega arith))
    ∙ omega arith
