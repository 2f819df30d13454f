-- ===== src/Net/Tcp/Input/Stream.antt =====
-- The bytes that a reader gets are those that arrived, in order.
use zwei_os.Base.{
  ℕ, zero, suc, ◌+◌, ◌≤◌, ◌<◌, ◌≡◌, refl, sym, inl, inr, List, [], ◌∷◌, ◌++◌, arith, ltb, leb,
  if◌then◌else◌, length, take, Bool-cases, append-nil, length-append, length-take, length-drop,
  take-append-drop,
}
use zwei_os.Net.Tcp.{TcpEndpoint, rx_size, receive}
use zwei_os.Net.Tcp.Input.{Incoming, take_data}

-- The buffer is what `rx_len` counts, within its size.
pub record IsValid (s : TcpEndpoint) : Type 0 where
  pub counted : s.rx_len ≡ length s.rx_buffer
  pub bounded : s.rx_len ≤ rx_size

-- A segment whose length is that of its bytes.
pub record IsWhole (p : Incoming) : Type 0 where
  pub inside : p.len ≤ length p.bytes
  pub short : p.len < 65536

-- The bytes of a segment that `take_data` keeps.
abbrev pub kept : TcpEndpoint → Incoming → List ℕ
kept s p = if leb (s.rx_len + p.len) rx_size then take p.len p.bytes else []

take_none : (n : ℕ) (xs : List ℕ) → n ≡ 0 → take n xs ≡ []
take_none zero xs e = refl
take_none (suc n) xs e = absurd (omega arith)

-- Data is kept whole behind what is there, or not at all.
pub take_data_lem :
    (s : TcpEndpoint) (p : Incoming)
    → IsWhole p
    → IsValid s
    → IsValid (take_data s p).0 × ((take_data s p).0.rx_buffer ≡ s.rx_buffer ++ kept s p)
unfolding take_data
take_data_lem s p w v = elim (Bool-cases (leb (s.rx_len + p.len) rx_size)) [
  | inl f ↦ (
    ground
        (arith, f, v, w, length-append s.rx_buffer (take p.len p.bytes), length-take p.len p.bytes),
    ground (arith, f, v, w, append-nil s.rx_buffer, take_none p.len p.bytes),
  )
  | inr f ↦ (ground (arith, f, v, w), ground (arith, f, v, w, append-nil s.rx_buffer))
]

pub receive_lem :
    (s : TcpEndpoint) (max_len : ℕ)
    → IsValid s
    → IsValid (receive s max_len).1
      × (s.rx_buffer ≡ (receive s max_len).0 ++ (receive s max_len).1.rx_buffer)
unfolding receive
receive_lem s max_len v = (
  omega (arith, length-drop (if ltb s.rx_len max_len then s.rx_len else max_len) s.rx_buffer),
  sym (take-append-drop _ s.rx_buffer),
)

-- What happens to an established endpoint: a segment arrives, or a reader takes some bytes.
pub data Event : Type 0 where
  arrives : Incoming → Event
  reads : ℕ → Event

abbrev pub AllWhole : List Event → Type 0
AllWhole [] = Unit
AllWhole (arrives p ∷ es) = IsWhole p × AllWhole es
AllWhole (reads n ∷ es) = AllWhole es

-- The bytes kept, the bytes read, and the endpoint, after the events.
pub history : TcpEndpoint → List Event → List ℕ × List ℕ × TcpEndpoint
history s [] = ([], [], s)
history s (arrives p ∷ es) =
    let (came, went, s') = history (take_data s p).0 es in (kept s p ++ came, went, s')
history s (reads n ∷ es) =
    let (bytes, s1) = receive s n in
    let (came, went, s') = history s1 es in (came, bytes ++ went, s')
