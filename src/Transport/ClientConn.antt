-- ===== src/Transport/ClientConn.antt =====
-- transport/client_conn.go: the client's end of a connection.
pub mod Life
