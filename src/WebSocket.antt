-- ===== src/WebSocket.antt =====
-- The WebSocket transport: client/src/transport/websocket/ws_client.c sends masked text frames,
-- server/src/transport/websocket/ws_subscriber.cpp reads them.
pub mod Mask
pub mod Client
pub mod Server
pub mod Handshake
pub mod Upgrade
pub mod Connect
pub mod Session
mod Tests
