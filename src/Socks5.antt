-- ===== src/Socks5.antt =====
-- socks5/: the SOCKS5 server.
pub mod Wire
pub mod Address
pub mod Rules
pub mod Auth
pub mod Serve
pub mod Listen
pub mod Tests
