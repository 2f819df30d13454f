-- ===== src/Net/Tcp/Input/Edges.antt =====
-- Which states an arriving segment leads to.
use zwei_os.Base.{
  ℕ, suc, ◌<◌, ◌≡◌, refl, ap, sym, subst, ◌∙◌, ◌⊎◌, inl, inr, Bool, true, false, ◌&&◌, none, some,
  List, [], ◌∷◌, arith, if◌then◌else◌, length, get_or, set, Bool-cases, Option-cases,
}
use zwei_os.Net.Tcp.{
  TcpState, closed, listen, syn_sent, syn_received, established, fin_wait_1, fin_wait_2, close_wait,
  last_ack, time_wait, TcpEndpoint, Tcp, Datagram, closed_endpoint, socket_at, set_socket, has_flag,
  flag_fin, flag_syn, flag_rst, flag_ack,
}
use zwei_os.Net.Tcp.Input.{
  Incoming, react, is_addressed, on_segment, or_next, dispatch, parse, handle, tcp_handle_packet,
}

abbrev pub is_closed : TcpState → Bool
is_closed closed = true
is_closed other = false

-- The moves that a segment makes.
pub data Edge : TcpState → TcpState → Type 0 where
  stays : (q : TcpState) → Edge q q
  connected : Edge syn_sent established
  ends : Edge established closed
  finished : Edge fin_wait_1 closed

-- An endpoint in use moves along an edge and keeps its addresses; it is released if it is closed.
pub record Moves (s s' : TcpEndpoint) : Type 0 where
  pub edge : Edge s.state s'.state
  pub released : s'.in_use ≡ (if is_closed s'.state then false else true)
  pub same_port : s'.local_port ≡ s.local_port
  pub same_peer : s'.remote_port ≡ s.remote_port

by_state :
    (s s' : TcpEndpoint) (q q' : TcpState)
    → Edge q q'
    → s.state ≡ q
    → s'.state ≡ q'
    → s'.in_use ≡ (if is_closed q' then false else true)
    → s'.local_port ≡ s.local_port
    → s'.remote_port ≡ s.remote_port
    → Moves s s'
by_state s s' q q' edge from to use_of port peer = record {
  edge = subst (λ q. Edge q s'.state) (sym from) (subst (λ q'. Edge q q') (sym to) edge);
  released = use_of ∙ ap (λ q. if is_closed q then false else true) (sym to);
  same_port = port;
  same_peer = peer;
}

react-Moves :
    (q : TcpState) (s : TcpEndpoint) (p : Incoming) (s' : TcpEndpoint) (out : List Datagram)
    → s.state ≡ q
    → s.in_use ≡ true
    → react q s p ≡ some (s', out)
    → Moves s s'
unfolding react
react-Moves syn_sent s p s' out q u e =
    elim (Bool-cases (has_flag p.flags flag_syn && has_flag p.flags flag_ack)) [
      | inr f ↦ absurd (ground (arith, e, f))
      | inl f ↦
          by_state s s' syn_sent established connected q (ground (arith, e, f, u))
            (ground (arith, e, f, u)) (ground (arith, e, f, u)) (ground (arith, e, f, u))
    ]
react-Moves established s p s' out q u e = elim (Bool-cases (has_flag p.flags flag_rst)) [
  | inr f ↦ elim (Bool-cases (has_flag p.flags flag_fin)) [
    | inl g ↦
        by_state s s' established closed ends q (ground (arith, e, f, g)) (ground (arith, e, f, g))
          (ground (arith, e, f, g)) (ground (arith, e, f, g))
    | inr g ↦
        by_state s s' established established (stays established) q (ground (arith, e, f, g, q))
          (ground (arith, e, f, g, u)) (ground (arith, e, f, g)) (ground (arith, e, f, g))
  ]
  | inl f ↦
      by_state s s' established closed ends q (ground (arith, e, f, u)) (ground (arith, e, f, u))
        (ground (arith, e, f, u)) (ground (arith, e, f, u))
]
react-Moves fin_wait_1 s p s' out q u e = elim (Bool-cases (has_flag p.flags flag_ack)) [
  | inr f ↦
      by_state s s' fin_wait_1 fin_wait_1 (stays fin_wait_1) q (ground (arith, e, f, q, u))
        (ground (arith, e, f, q, u)) (ground (arith, e, f, q, u)) (ground (arith, e, f, q, u))
  | inl f ↦
      by_state s s' fin_wait_1 closed finished q (ground (arith, e, f, u)) (ground (arith, e, f, u))
        (ground (arith, e, f, u)) (ground (arith, e, f, u))
]
react-Moves closed s p s' out q u e = cc
react-Moves listen s p s' out q u e = cc
react-Moves syn_received s p s' out q u e = cc
react-Moves fin_wait_2 s p s' out q u e = cc
react-Moves close_wait s p s' out q u e = cc
react-Moves last_ack s p s' out q u e = cc
react-Moves time_wait s p s' out q u e = cc

on_segment-Moves :
    (s : TcpEndpoint) (p : Incoming) (s' : TcpEndpoint) (out : List Datagram)
    → on_segment s p ≡ some (s', out)
    → (is_addressed s p ≡ true) × Moves s s'
unfolding on_segment
on_segment-Moves s p s' out e = elim (Bool-cases (is_addressed s p)) [
  | inr f ↦ absurd (ground (arith, e, f))
  | inl f ↦ (f, react-Moves s.state s p s' out refl (ground (arith, f)) (ground (arith, e, f)))
]

-- The loop stops at the first endpoint that reacts, and changes no other.
pub dispatch_lem :
    (ss : List TcpEndpoint) (p : Incoming)
    → (dispatch ss p ≡ (ss, []))
      ⊎ ((i : ℕ) × (s' : TcpEndpoint) × (out : List Datagram) × (i < length ss)
          × (dispatch ss p ≡ (set ss i s', out))
          × (on_segment (get_or ss i closed_endpoint) p ≡ some (s', out)))
unfolding dispatch
dispatch_lem [] p = inl refl
dispatch_lem (s ∷ ss) p = elim (Option-cases (on_segment s p)) [
  | inr ((s', out), e) ↦
      inr (0, s', out, omega arith, ap (λ o. or_next s (dispatch ss p) o ss) e, e)
  | inl e ↦ elim (dispatch_lem ss p) [
    | inl n ↦ inl (ap (λ o. or_next s (dispatch ss p) o ss) e ∙ ap (λ r. or_next s r none ss) n)
    | inr (i, s', out, h, d, r) ↦ inr (
      suc i,
      s',
      out,
      omega arith,
      ap (λ o. or_next s (dispatch ss p) o ss) e ∙ ap (λ r. or_next s r none ss) d,
      r,
    )
  ]
]

-- The outcome of a segment for all endpoints.
abbrev pub MovesOne : Tcp → Tcp → Incoming → Type 0
MovesOne t t' p =
    (t' ≡ t)
    ⊎ ((i : ℕ) × (s' : TcpEndpoint) × (i < length t.sockets)
        × (is_addressed (socket_at t i) p ≡ true)
        × (t' ≡ set_socket t i s')
        × Moves (socket_at t i) s')

-- An arriving segment changes at most one endpoint: one in use that it is addressed to, which moves along
-- an edge of the state machine, keeps its ports, and is released if and only if it is closed.
pub tcp_handle_packet-MovesOne :
    (t : Tcp) (payload : List ℕ) (len : ℕ) (p : Incoming)
    → parse payload len ≡ some p
    → MovesOne t (tcp_handle_packet t payload len).1 p
unfolding tcp_handle_packet handle
tcp_handle_packet-MovesOne t payload len p e =
    subst (λ o. MovesOne t (handle t o).1 p) (sym e)
      (elim (dispatch_lem t.sockets p) [
        | inl n ↦ inl (ap (λ r. record t { sockets = r.0 }) n)
        | inr (i, s', out, h, d, r) ↦
            let (to, moves) = on_segment-Moves (socket_at t i) p s' out r in
            inr (i, s', h, to, ap (λ r. record t { sockets = r.0 }) d, moves)
      ])
