-- ===== src/Net/Tcp/Tests.antt =====
-- `tcp_connect` where nothing answers.
use zwei_os.Base.{ℕ, zero, suc, refl, true, ◌∷◌, arith, replicate}
use zwei_os.Net.Tcp.{Tcp, closed_endpoint}
use zwei_os.Net.Tcp.Connect.{AllSilent}

abbrev fresh : Tcp
fresh = record {
  sockets = record closed_endpoint { in_use = true } ∷ replicate 15 closed_endpoint;
  next_local_port = 49153;
  initial_seq = 110000;
}

AllSilent-replicate : (n : ℕ) → AllSilent 0 (replicate n (fresh, 3))
AllSilent-replicate zero = tt
AllSilent-replicate (suc n) = (refl, omega arith, AllSilent-replicate n)
