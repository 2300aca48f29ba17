-- ===== src/Server.antt =====
-- The crate `server`: the answers that the clients' requests get.
pub mod TcpServer
pub mod QuicServer
