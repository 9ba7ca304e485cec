-- ===== src/Net.antt =====
-- servers/libtanix-net: the socket layer of the `net` server.
pub mod Bytes
pub mod Checksum
pub mod Out
pub mod Wire
pub mod Tcp
pub mod Ip
pub mod Udp
pub mod Stack
mod Tests
