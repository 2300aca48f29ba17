-- ===== src/Client.antt =====
-- The crate `client`: the pool of servers, and the connections that the simulated users make to it.
pub mod ServerPool
pub mod Failover
pub mod TcpClient
pub mod QuicClient
pub mod Simulator
pub mod Tui
