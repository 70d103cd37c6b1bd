-- ===== src/Net.antt =====
-- The modules of bipolar/net.
pub mod Storage
pub mod Ipv4
pub mod Ipv6
pub mod IpAddress
pub mod SocketAddress
pub mod Epoll
pub mod Native
pub mod Os
pub mod Socket
pub mod Tcp
pub mod Udp
mod Examples
