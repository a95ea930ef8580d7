-- ===== src/WebSocket.antt =====
-- The WebSocket part (splice/web_socket): byte order, frames, the frame parser, the upgrade, the session.
pub mod Endian
pub mod Frame
pub mod FrameParser
pub mod Session
pub mod RequestParser
pub mod Upgrade
pub mod Handshake
