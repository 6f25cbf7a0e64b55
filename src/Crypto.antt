-- ===== src/Crypto.antt =====
-- client/src/crypto: SHA-1 and Base64, which both ends of the WebSocket handshake compute.
-- server/src/crypto and the anonymous namespace of ws_subscriber.cpp hold copies of the same code.
pub mod Base64
pub mod Sha1
mod Tests
