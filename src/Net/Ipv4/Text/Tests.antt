-- ===== src/Net/Ipv4/Text/Tests.antt =====
-- An address of a local network.
use zwei_os.Base.{ℕ, ◌≡◌, refl, [], ◌∷◌, arith}
use zwei_os.Net.Ipv4.Text.{ipv4_parse, ipv4_format}
use zwei_os.Net.Ipv4.Text.Dotted.{ipv4_parse-ipv4_format}

-- "10.0.2.15"
abbrev guest : ℕ
guest = 0x0f02000a

ipv4_format_lem : ipv4_format guest 16 ≡ 49 ∷ 48 ∷ 46 ∷ 48 ∷ 46 ∷ 50 ∷ 46 ∷ 49 ∷ 53 ∷ []
unfolding ipv4_format
ipv4_format_lem = refl

ipv4_parse-ipv4_format_example : ipv4_parse (ipv4_format guest 16) ≡ guest
ipv4_parse-ipv4_format_example = ipv4_parse-ipv4_format guest 16 (omega arith) (omega arith)
