-- ===== src/Net.antt =====
-- include/metasys/net and net/.
pub mod Bit
pub mod InetAddress
pub mod AddressInfo
pub mod TcpAddress
pub mod SocketDescriptor
pub mod TcpSocketDescriptor
pub mod TcpSocket
pub mod TcpServerSocket
