-- ===== src/Net/Tcp/Connect.antt =====
-- `tcp_connect`, and when it says that there is a connection.
use zwei_os.Base.{
  ℕ, zero, suc, ◌≤◌, ◌≡◌, refl, ap, Bool, true, false, not, List, [], ◌∷◌, arith, ltb,
  if◌then◌else◌, length, take, get_or-set_self,
}
use zwei_os.Net.Tcp.{
  closed, syn_sent, TcpEndpoint, Tcp, is_established, closed_endpoint, socket_at, set_socket,
  is_socket, max_tcp_sockets,
}

-- `tcp_connect`, with the result of sending the SYN, and the rounds of its loop: the endpoints after the
-- round's `net_poll`, and the ticks since the start.
connect_loop : Tcp → ℕ → List (Tcp × ℕ) → Bool × Tcp
connect_loop t i [] = (true, t)
connect_loop t i ((t', ticks) ∷ rounds) =
    let rest = connect_loop t' i rounds in
    if is_established (socket_at t i).state
    then (true, t)
    else if ltb 300 ticks
    then (false, set_socket t' i (record (socket_at t' i) { state = closed }))
    else rest

pub start_connect : Tcp → ℕ → ℕ → ℕ → ℕ → TcpEndpoint
start_connect t i ip dst_ip dst_port = record (socket_at t i) {
  local_ip = ip;
  remote_ip = dst_ip;
  remote_port = dst_port;
  state = syn_sent;
}

pub tcp_connect : Tcp → ℕ → ℕ → ℕ → ℕ → Bool → List (Tcp × ℕ) → Bool × Tcp
unfolding start_connect connect_loop
tcp_connect t i ip dst_ip dst_port sent rounds =
    let s = start_connect t i ip dst_ip dst_port in
    if not (is_socket t i)
    then (false, t)
    else if not sent
    then (false, set_socket t i (record s { state = closed }))
    else connect_loop (set_socket t i s) i (take 20000 rounds)

-- A round in which nothing came and the time was not out.
abbrev pub AllSilent : ℕ → List (Tcp × ℕ) → Type 0
AllSilent i [] = Unit
AllSilent i ((t, ticks) ∷ rounds) =
    (is_established (socket_at t i).state ≡ false) × (ticks ≤ 300) × AllSilent i rounds

AllSilent-take :
    (i n : ℕ) (rounds : List (Tcp × ℕ)) → AllSilent i rounds → AllSilent i (take n rounds)
AllSilent-take i zero rounds h = tt
AllSilent-take i (suc n) [] h = tt
AllSilent-take i (suc n) ((t, ticks) ∷ rounds) h = (h.0, h.1, AllSilent-take i n rounds h.2)

connect_loop-silent :
    (t : Tcp) (i : ℕ) (rounds : List (Tcp × ℕ))
    → is_established (socket_at t i).state ≡ false
    → AllSilent i rounds
    → ((connect_loop t i rounds).0 ≡ true)
      × (is_established (socket_at (connect_loop t i rounds).1 i).state ≡ false)
unfolding connect_loop
connect_loop-silent t i [] n h = (refl, n)
connect_loop-silent t i ((t', ticks) ∷ rounds) n h =
    ground (arith, connect_loop-silent t' i rounds h.0 h.2)

-- `tcp_connect` says that there is a connection when its rounds run out with no answer at all.
pub tcp_connect_silent :
    (t : Tcp) (i ip dst_ip dst_port : ℕ) (rounds : List (Tcp × ℕ))
    → length t.sockets ≡ max_tcp_sockets
    → is_socket t i ≡ true
    → 20000 ≤ length rounds
    → AllSilent i rounds
    → ((tcp_connect t i ip dst_ip dst_port true rounds).0 ≡ true)
      × (is_established (socket_at (tcp_connect t i ip dst_ip dst_port true rounds).1 i).state
          ≡ false)
unfolding tcp_connect
tcp_connect_silent t i ip dst_ip dst_port rounds size u long h =
    let s = start_connect t i ip dst_ip dst_port in
    let here : socket_at (set_socket t i s) i ≡ s =
      get_or-set_self t.sockets i s closed_endpoint (ground (arith, u, size)) in
    ground (
      arith,
      u,
      connect_loop-silent (set_socket t i s) i (take 20000 rounds)
          (ap (λ s. is_established s.state) here) (AllSilent-take i 20000 rounds h),
    )
