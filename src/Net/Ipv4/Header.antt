-- ===== src/Net/Ipv4/Header.antt =====
-- The header that is sent passes the receiver's checks.
use zwei_os.Base.{ℕ, ◌<◌, ◌≡◌, arith}
use zwei_os.Net.Checksum.{ipv4_checksum}
use zwei_os.Net.Checksum.Sum.{ipv4_checksum-lt, ipv4_checksum-zero}
use zwei_os.Net.Ipv4.{ipv4_header}

-- The header with its checksum in place has checksum 0.
pub ipv4_checksum-ipv4_header :
    (id protocol payload_len src_ip dst_ip : ℕ)
    → protocol < 256
    → ipv4_checksum (
        ipv4_header id protocol payload_len
          (ipv4_checksum (ipv4_header id protocol payload_len 0 src_ip dst_ip))
          src_ip
          dst_ip)
      ≡ 0
unfolding ipv4_header
ipv4_checksum-ipv4_header id protocol payload_len src_ip dst_ip h =
    let bare = ipv4_header id protocol payload_len 0 src_ip dst_ip in
    let c = ipv4_checksum bare in
    ipv4_checksum-zero bare (ipv4_header id protocol payload_len c src_ip dst_ip) (omega arith)
      (omega (arith, ipv4_checksum-lt bare))
