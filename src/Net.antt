-- ===== src/Net.antt =====
-- src/net: bytes on the wire, the checksum, and the protocols.
pub mod Wire
pub mod Checksum
pub mod Ethernet
pub mod Arp
pub mod Ipv4
pub mod Udp
pub mod Icmp
pub mod Tcp
mod Tests
