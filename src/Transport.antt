-- ===== src/Transport.antt =====
-- transport/: frames on a QUIC stream, the two ends of a connection, and the server's registry.
pub mod Aead
pub mod Crypto
pub mod Frame
pub mod ServerConn
pub mod Server
pub mod ReadLoop
pub mod Client
pub mod ClientConn
pub mod Tests
pub mod ConnTests
