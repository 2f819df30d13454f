-- ===== src/Net/Udp/Bindings.antt =====
-- The bindings as a finite map.
use zwei_os.Base.{
  ℕ, zero, suc, ◌+◌, ◌<◌, ◌≡◌, refl, ap, sym, subst, ◌∙◌, ◌≢◌, ◌⊎◌, inl, inr, Bool, true, false,
  not, none, some, List, [], ◌∷◌, arith, if◌then◌else◌, length, get_or, set, get_or-set, Bool-cases,
}
use zwei_os.Net.Udp.{
  UdpBinding, unbound, find_binding, is_bound_to, bind_unused, bind_at, bind_handler, udp_bind,
  handler_at, handler_of,
}

abbrev pub binding : List UdpBinding → ℕ → UdpBinding
binding bs i = get_or bs i unbound

abbrev pub Misses : (UdpBinding → Bool) → List UdpBinding → Type 0
Misses test bs = (j : ℕ) → j < length bs → test (binding bs j) ≡ false

more-Misses :
    (test : UdpBinding → Bool) (b : UdpBinding) (bs : List UdpBinding)
    → test b ≡ false
    → Misses test bs
    → Misses test (b ∷ bs)
more-Misses test b bs f all zero h = f
more-Misses test b bs f all (suc j) h = all j (omega arith)

-- The first match of a scan, or there is none.
pub find_binding_lem :
    (test : UdpBinding → Bool) (bs : List UdpBinding) (from : ℕ)
    → ((find_binding test bs from ≡ none) × Misses test bs)
      ⊎ ((d : ℕ) × (find_binding test bs from ≡ some (d + from))
          × (d < length bs)
          × (test (binding bs d) ≡ true))
unfolding find_binding
find_binding_lem test [] from = inl (refl, λ j h. absurd (omega arith))
find_binding_lem test (b ∷ bs) from = elim (Bool-cases (test b)) [
  | inl f ↦ inr (0, ground (arith, f), omega arith, f)
  | inr f ↦ elim (find_binding_lem test bs (from + 1)) [
    | inl (n, all) ↦ inl (ground (arith, f, n), more-Misses test b bs f all)
    | inr (d, at, h, m) ↦ inr (suc d, ground (arith, f, at), omega arith, m)
  ]
]

-- An entry that is as good for the scan as the one it replaces.
find_binding_same :
    (test : UdpBinding → Bool) (new : UdpBinding) (bs : List UdpBinding) (d from : ℕ)
    → test new ≡ test (binding bs d)
    → find_binding test (set bs d new) from ≡ find_binding test bs from
unfolding find_binding
find_binding_same test new [] d from e = refl
find_binding_same test new (b ∷ bs) zero from e =
    ap (λ t. if t then some from else find_binding test bs (from + 1)) e
find_binding_same test new (b ∷ bs) (suc d) from e =
    ap (λ r. if test b then some from else r) (find_binding_same test new bs d (from + 1) e)

-- An entry that is the only match.
find_binding_new :
    (test : UdpBinding → Bool) (new : UdpBinding) (bs : List UdpBinding) (d from : ℕ)
    → Misses test bs
    → test new ≡ true
    → d < length bs
    → find_binding test (set bs d new) from ≡ some (d + from)
unfolding find_binding
find_binding_new test new [] d from all t h = absurd (omega arith)
find_binding_new test new (b ∷ bs) zero from all t h = ground (arith, t)
find_binding_new test new (b ∷ bs) (suc d) from all t h = ground (
  arith,
  all 0 (omega arith),
  find_binding_new test new bs d (from + 1) (λ j k. all (suc j) (omega arith)) t (omega arith),
)

-- An entry that is not for the port in place of one that is not.
handler_of-set :
    (new : UdpBinding) (bs : List UdpBinding) (d port : ℕ)
    → d < length bs
    → is_bound_to port new ≡ false
    → is_bound_to port (binding bs d) ≡ false
    → handler_of (set bs d new) port ≡ handler_of bs port
unfolding handler_of handler_at
handler_of-set new bs d port h new_no old_no =
    ap (handler_at (set bs d new))
      (find_binding_same (is_bound_to port) new bs d 0 (new_no ∙ sym old_no))
    ∙ elim (find_binding_lem (is_bound_to port) bs 0) [
      | inl (n, all) ↦ ap (handler_at (set bs d new)) n ∙ sym (ap (handler_at bs) n)
      | inr (i, at, k, m) ↦
          let ne : d ≢ i = λ e.
            absurd
              (ground (arith, m, subst (λ i. is_bound_to port (binding bs i) ≡ false) e old_no)) in
          let same : get_or (set bs d new) (i + 0) unbound ≡ get_or bs (i + 0) unbound =
            get_or-set bs d (i + 0) new unbound h ∙ ground (arith, ne) in
          ap (handler_at (set bs d new)) at ∙ ap (λ b. b.handler) same ∙ sym (ap (handler_at bs) at)
    ]

-- What a binding of a port does to the table.
abbrev pub IsBind : List UdpBinding → ℕ → ℕ → Bool × List UdpBinding → Type 0
IsBind bs port handler r =
    ((r.0 ≡ true)
      × (handler_of r.1 port ≡ some handler)
      × ((port' : ℕ) → port' ≢ port → handler_of r.1 port' ≡ handler_of bs port'))
    ⊎ ((r ≡ (false, bs)) × (Misses (is_bound_to port) bs) × Misses (λ b. not b.in_use) bs)

new-IsBind :
    (bs : List UdpBinding) (port handler d : ℕ)
    → Misses (is_bound_to port) bs
    → d < length bs
    → not (binding bs d).in_use ≡ true
    → IsBind bs port handler
        (true, set bs d (record { port = port; handler = some handler; in_use = true }))
unfolding handler_of handler_at
new-IsBind bs port handler d all h free =
    let new : UdpBinding = record { port = port; handler = some handler; in_use = true } in
    let kept : get_or (set bs d new) (d + 0) unbound ≡ new =
      get_or-set bs d (d + 0) new unbound h ∙ ground arith in
    inl (
      refl,
      ap (handler_at (set bs d new))
            (find_binding_new (is_bound_to port) new bs d 0 all (ground arith) h)
          ∙ ap (λ b. b.handler) kept,
      λ port' ne. handler_of-set new bs d port' h (ground (arith, ne)) (ground (arith, free)),
    )

again-IsBind :
    (bs : List UdpBinding) (port handler d : ℕ)
    → find_binding (is_bound_to port) bs 0 ≡ some (d + 0)
    → d < length bs
    → is_bound_to port (binding bs d) ≡ true
    → IsBind bs port handler (true, set bs d (record (binding bs d) { handler = some handler }))
unfolding handler_of handler_at
again-IsBind bs port handler d at h bound =
    let new : UdpBinding = record (binding bs d) { handler = some handler } in
    let kept : get_or (set bs d new) (d + 0) unbound ≡ new =
      get_or-set bs d (d + 0) new unbound h ∙ ground arith in
    inl (
      refl,
      ap (handler_at (set bs d new)) (find_binding_same (is_bound_to port) new bs d 0 refl ∙ at)
          ∙ ap (λ b. b.handler) kept,
      λ port' ne.
          handler_of-set new bs d port' h (ground (arith, bound, ne)) (ground (arith, bound, ne)),
    )

-- Binding a port, which is not 0, to a handler gives the port that handler and leaves the other ports'
-- handlers; or it fails and changes nothing, and then every entry is in use and none for the port.
pub udp_bind_lem :
    (bs : List UdpBinding) (port handler : ℕ)
    → port ≢ 0
    → IsBind bs port handler (udp_bind bs port (some handler))
unfolding udp_bind bind_handler bind_at bind_unused
udp_bind_lem bs port handler nz =
    subst (IsBind bs port handler)
      {x = bind_at bs port handler (find_binding (is_bound_to port) bs 0)} (ground (arith, nz))
      (elim (find_binding_lem (is_bound_to port) bs 0) [
        | inr (d, at, h, m) ↦
            subst (IsBind bs port handler) (sym (ap (bind_at bs port handler) at)) (
              subst
                (λ i.
                  IsBind bs port handler
                    (true, set bs i (record (get_or bs i unbound) { handler = some handler })))
                {x = d} {y = d + 0} (omega arith) (again-IsBind bs port handler d at h m))
        | inl (n, all) ↦
            subst (IsBind bs port handler) (sym (ap (bind_at bs port handler) n))
              (elim (find_binding_lem (λ b. not b.in_use) bs 0) [
                | inl (full, used) ↦
                    subst (IsBind bs port handler) (sym (ap (bind_unused bs port handler) full))
                      (inr (refl, all, used))
                | inr (d, at, h, m) ↦
                    subst (IsBind bs port handler) (sym (ap (bind_unused bs port handler) at)) (
                      subst
                        (λ i. IsBind bs port handler (
                          true,
                          set bs i (record { port = port; handler = some handler; in_use = true }),
                        ))
                        {x = d} {y = d + 0} (omega arith) (new-IsBind bs port handler d all h m))
              ])
      ])
