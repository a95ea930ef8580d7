-- ===== src/Tests.antt =====
-- Runs of the definitions on concrete inputs, and the theorems at inputs that meet their hypotheses.
mod HttpTests
mod HandlerTests
mod SerializationTests
mod UpgradeTests
mod HandshakeTests
mod ServerTests
mod ExampleTests
mod WebSocketTests
mod TalkTests
mod FilesTests
