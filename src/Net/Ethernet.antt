-- ===== src/Net/Ethernet.antt =====
-- kernel/net/ethernet.cpp: frames. What is given to the card, and what a protocol's handler is called
-- with, are results.
pub mod Frames
use zwei_os.Base.{
  ℕ, ◌+◌, ◌-◌, ◌*◌, ◌/◌, ◌%◌, ◌<◌, ◌||◌, Bool, Option, none, some, List, [], ◌∷◌, ◌++◌, ltb, ◌==◌,
  if◌then◌else◌, length, drop, replicate,
}
use zwei_os.Net.Bytes.{be16_at, be16}
use zwei_os.Net.Arp.{InterfaceConfig, Frame, ethertype_arp}
use zwei_os.Net.Ipv4.{ethertype_ipv4}

-- `EthernetHeader`, packed.
pub ethernet_header : InterfaceConfig → Frame → List ℕ
ethernet_header cfg frame = frame.dest_mac ++ (cfg.mac ++ be16 frame.ethertype)

-- A short frame is filled up to 60 bytes.
pub ethernet_send : InterfaceConfig → Frame → Option (List ℕ)
unfolding ethernet_header
ethernet_send cfg frame =
    if length frame.payload == 0 || ltb 1500 (length frame.payload)
    then none
    else some (
        (ethernet_header cfg frame ++ frame.payload)
        ++ replicate (60 - (14 + length frame.payload)) 0)

-- The handler that is called, and its bytes.
pub data Dispatch : Type 0 where
  ignored : Dispatch
  to_arp to_ipv4 : List ℕ → Dispatch

pub ethernet_handle_packet : List ℕ → Dispatch
ethernet_handle_packet bytes =
    if ltb (length bytes) 14
    then ignored
    else if be16_at bytes 12 == ethertype_arp
    then to_arp (drop 14 bytes)
    else if be16_at bytes 12 == ethertype_ipv4
    then to_ipv4 (drop 14 bytes)
    else ignored
