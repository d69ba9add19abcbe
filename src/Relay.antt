-- ===== src/Relay.antt =====
-- pkg/mesh/relay: the relay of encrypted datagrams: the envelope of a datagram (frame.go, Relay/Frame), the signed
-- routing tokens (token.go, Relay/Token), and the server (server.go, Relay/Server).
pub mod Frame
pub mod Token
pub mod Server
