-- ===== src/Net.antt =====
-- kernel/net: the network stack.
pub mod Bytes
pub mod Checksum
pub mod Arp
pub mod Ipv4
pub mod Tcp
pub mod Udp
pub mod Icmp
pub mod Ethernet
pub mod Dns
