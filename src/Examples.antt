-- ===== src/Examples.antt =====
-- The programs under examples/ that the library is shown by.
pub mod EchoServer
pub mod TcpSession
pub mod MultiEcho
pub mod HtmlPreprocess
pub mod JsonTalk
pub mod JsonServer
pub mod EchoClient
pub mod RawClient
pub mod Loggers
pub mod LogSessions
pub mod WsEcho
pub mod EchoMessage
pub mod SerializeEcho
