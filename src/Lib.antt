-- ===== src/Lib.antt =====
-- splice: HTTP, WebSocket and serialized messages over Boost.Asio.
--
-- What the program is. A server accepts connections and lets sessions of several protocols try them
-- in turn. An HTTP session parses a request and answers with a file; a WebSocket session answers an
-- upgrade request and then exchanges frames; a serialization session exchanges archives behind a
-- header with their length. All of them are handlers of asynchronous reads and writes.
--
-- Which file models which part.
--   Stream: the loop of the three `parse` templates (splice/http/request_parser.hpp and, twice,
--     splice/web_socket/rfc6455_engine.hpp), over any `consume`; Stream/Laws has what holds of it for
--     every `consume`.
--   Http/Chars, Http/Request, Http/Parser: http::server::request_parser (splice/http/request_parser.hxx)
--     and the request it fills. Http/Parser/Grammar writes the text of a request down on its own.
--   Http/Reply, Http/MimeTypes: http::server::reply and mime_types (splice/http/reply.hxx,
--     splice/http/mime_types.hxx). Http/Reply/Wire has a client's reader of its own.
--   Http/RequestHandler: http::server::request_handler (splice/http/request_handler.hxx): the paths it
--     can reach, the replies it gives, and the inverse of its decoding of URIs are in its children.
--   Handshake: hand_shake_data_t (splice/common_types.hpp).
--   Http/Session: http_session (splice/http/http_session.hxx).
--   Serialization: serialization_session (splice/serialization_session.hxx): the header with a
--     message's length, writing and reading. Serialization/Engine: serialization_engine
--     (splice/serialization_engine.hxx), the same over again.
--   Hex: the chars of hexadecimal numbers, for the request handler and the serialization session.
--   Tcp: errors and shutdown of tcp_session (splice/tcp_session.hxx); Tcp/Strings: its strings and
--     its handshake, with what a derived class defines as a parameter.
--   WebSocket/Endian, WebSocket/Frame, WebSocket/FrameParser: the byte order conversions, data_frame
--     and data_frame_parser of splice/web_socket/rfc6455_engine.hpp. WebSocket/FrameParser/Wire writes
--     the frames of RFC 6455 down on their own.
--   WebSocket/RequestParser: the request_parser of splice/web_socket/rfc6455_engine.hpp.
--   WebSocket/Upgrade: the answer to an upgrade request (splice/web_socket/rfc6455_engine.hpp); its child
--     Base64 has to_base64 beside the base 64 of RFC 4648.
--   WebSocket/Handshake: ws_handshake (splice/web_socket/ws_handshake.hxx) in a server of several
--     protocols; its child Mono has the handlers for a server of one.
--   WebSocket/Session: ws_session (splice/web_socket/ws_session.hxx).
--   Protocol: the accept loops of mono_protocol and multi_protocol (splice/mono_protocol.hxx,
--     splice/multi_protocol.hxx); Protocol/Chain: on_handshake_fail, over any do_next_handshake.
--   Protocol/Server: what the constructor of ez_server leaves and how it runs (splice/server.hxx).
--   Examples/EchoServer, Examples/TcpSession, Examples/MultiEcho: the echo servers
--     (examples/mono_protocol_echo/echo_server/server.cpp, examples/multi_protocol_echo/server). The
--     last puts the sessions of the other files together into the chain of that server; its child
--     WsSession has what my_ws_session answers to JSON (my_ws_session.hpp), and Start what main does
--     before the server is constructed (main.cpp).
--   Examples/HtmlPreprocess: html_preprocess of that server (my_http_session.hpp). Its children say what
--     the disk does and what is on it afterwards.
--   Examples/LogSessions: the set of that server's log sessions, its broadcast, and my_log_session
--     (main.cpp, my_log_session.hpp).
--   Examples/EchoMessage, Examples/SerializeEcho: the messages of that server
--     (examples/multi_protocol_echo/server/echo_message.hpp), and both ends of an echo
--     (examples/multi_protocol_echo/serialize_client/serialize_client.cpp).
--   Examples/WsEcho: my_session of the WebSocket echo server
--     (examples/mono_protocol_echo/echo_ws_server/ws_server.cpp).
--   Examples/JsonTalk: what the sessions that answer with JSON share; Examples/JsonServer: the listing of
--     a directory (examples/json_server/my_session.cpp), with its messages (protocol_messages.hpp) and
--     its session in its children.
--   Examples/EchoClient, Examples/RawClient: two clients (examples/mono_protocol_echo/echo_client,
--     examples/multi_protocol_echo/raw_client).
--   Examples/Loggers: the loggers of these programs, over Logger/Track, the lines that loggers write
--     (splice/logger/boost_log_interface.hpp, splice/logger/ws_session_boost_log.hpp).
--   Logger: the texts that log_interface builds (splice/logger/log_interface.hpp).
--
-- How the source is read. A byte is a number; a parser and the object it fills are one state; an
-- iterator into the input is the list of bytes from there to its end. What C++ leaves undefined is an
-- outcome of its own, so that a theorem can say that it does not occur. Memory that a constructor
-- leaves unset is an argument. A handler of an asynchronous operation is a function on the session's
-- state, and a connection is the list of the reads that it completes. The loops run over the bytes of
-- the input, so no fuel is needed but in three places: the loop that reads a file has the file's length,
-- since each round reads at least a byte of what is left; the digits of a size have a number above the
-- size; the loop that shortens a logged text has the text's length.
--
-- What is not modelled. Boost.Asio, Boost.Log and the console are not, nor, but for what my_log_session
-- is sent, the calls that log. The files of the host, Boost.Filesystem, boost::lexical_cast, SHA-1, the
-- iterators of base 64, the archives of Boost.Serialization, the trees of Boost.PropertyTree, the clock
-- and the names of threads are parameters; what is said of a file system where a theorem needs it is
-- Examples/HtmlPreprocess/Disk.IsDisk, which lets a stream fail. Memory is taken to be enough for what
-- fits the address space. Locks are taken to work: what is done under one is a step. The pages for
-- browsers, in HTML and JavaScript, are left out.
mod Base
pub mod Stream
pub mod Http
pub mod Tcp
pub mod Handshake
mod Hex
pub mod Serialization
pub mod WebSocket
pub mod Protocol
pub mod Logger
mod Tests
pub mod Examples
