-- ===== src/Http.antt =====
-- The HTTP server part (splice/http): the request parser, replies, the request handler.
pub mod Chars
pub mod Request
pub mod Parser
pub mod Reply
pub mod MimeTypes
pub mod RequestHandler
pub mod Session
