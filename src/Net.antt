-- ===== src/Net.antt =====
-- include/coro/net and src/net. The kernel's calls are parameters.
pub mod IoStatus
pub mod TcpClient
pub mod UdpPeer
pub mod TcpConnect
pub mod Tls
pub mod Socket
pub mod IpAddress
