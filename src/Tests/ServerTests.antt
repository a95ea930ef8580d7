-- ===== src/Tests/ServerTests.antt =====
-- Runs of the accept loop, of the chain of protocols and of the server that is made of them.
use splitsen.Base.{
  ℕ, zero, suc, ◌+◌, true, false, List, [], ◌∷◌, Bytes, none, some, length, codes, All, ◌≡◌, refl,
  arith,
}
use splitsen.Handshake.{http, HandShakeData, contains, starts_with}
use splitsen.Handshake
use splitsen.Stream
use splitsen.Stream.{parsed, indeterminate}
use splitsen.Http.Chars.{is_refused, is_ctl, is_digit}
use splitsen.Http.Request.{Header, new_request, update_back}
use splitsen.Http.Reply.{ok}
use splitsen.Http.Parser.Grammar.{request_text}
use splitsen.Http.Parser.Safety.{IsHeader}
use splitsen.Http.Parser.RoundTrip.{IsRequestText}
use splitsen.Http.RequestHandler.{handle_request}
use splitsen.Http.Session.{write_reply}
use splitsen.Http.Session.Reads.{read_request}
use splitsen.WebSocket.RequestParser
use splitsen.WebSocket.RequestParser.{UpgradeParser}
use splitsen.WebSocket.Endian.{little}
use splitsen.WebSocket.Frame.{MaskingKey, text_frame}
use splitsen.WebSocket.FrameParser.Wire.{client_frame}
use splitsen.WebSocket.Upgrade.{key_name}
use splitsen.WebSocket.Handshake.{idle, connect, read, wrote, parse_first}
use splitsen.Tcp.Strings.{over_socket}
use splitsen.Protocol.{Accept, opened, start_accept, run_multi}
use splitsen.Protocol
use splitsen.Protocol.Accepting.{accepting, run-accepts}
use splitsen.Protocol.Chain.{Tried, kept, refused, taken, dropped, Ends, on_handshake_fail-Ends}
use splitsen.Examples.TcpSession.{guid}
use splitsen.Examples.MultiEcho.{
  World, in_tcp, in_log, in_http, routed, log_guid, new_ws_session, new_http_session, serve,
}
use splitsen.Examples.MultiEcho.Raw.{serve-raw, serve-cut, serve-request}
use splitsen.Examples.MultiEcho.Upgrade.{serve-guid}

abbrev pub world : World Bytes
world = record {
  save = λ msg. msg;
  load = λ bytes. some bytes;
  lexical_cast = λ n. b'0' ∷ [];
  open_file = λ path. none;
  doc_root = codes "/srv";
  host = record {
    get_digest = λ s i. length s + i;
    to_base64 = λ bytes. b'A' ∷ [];
    endian = little;
    major = 7;
    minor = 7;
  };
  major = 8;
  minor = 8;
  status = ok;
}

abbrev pub held : MaskingKey
held = record { key0 = 1; key1 = 2; key2 = 3; key3 = 4 }

abbrev key_header : Header
key_header = record { name = key_name; value = codes "dGhl" }

abbrev accepts : List Accept
accepts =
    record { error = false; socket_is_open = true }
    ∷ record { error = true; socket_is_open = false }
    ∷ []

run-accepts_example :
    (Protocol.run accepts (start_accept opened) ≡ accepting 1 1)
    × (run_multi accepts (start_accept opened) ≡ none)
run-accepts_example = run-accepts accepts

-- All but one refuse.
abbrev some_chain : ℕ → HandShakeData → Tried ℕ
some_chain zero d = refused d
some_chain (suc zero) d = kept 5
some_chain (suc (suc n)) d = refused d

on_handshake_fail-Ends_example : Ends some_chain 3 (record { tag = http; data_string = [] })
on_handshake_fail-Ends_example =
    on_handshake_fail-Ends some_chain 3 (record { tag = http; data_string = [] })

serve-raw_example :
    serve world (read false held guid ∷ [])
    ≡ routed (taken 0 (in_tcp (record over_socket { reads = 1 })))
unfolding is_refused contains
serve-raw_example =
    serve-raw world held b'{' (codes "21BB758F-BC6A-42C4-92B1-6B5332CEAEBF}") refl refl

abbrev beginning : Bytes
beginning = codes "GET / HTTP/1.1\r\nSec-WebSocket-Key: d"

abbrev half_read : UpgradeParser
half_read = record {
  state = RequestParser.header_value;
  req = record (new_request 1 1) {
    method = codes "GET";
    uri = codes "/";
    headers = record { name = key_name; value = codes "d" } ∷ [];
  };
}

beginning-parses : parse_first world.host beginning ≡ parsed indeterminate half_read []
unfolding RequestParser.parse_upgrade Stream.parse RequestParser.consume new_request update_back
beginning-parses = refl

serve-cut_example :
    serve world (read false held beginning ∷ [])
    ≡ routed (dropped (record { tag = Handshake.none; data_string = beginning }))
unfolding contains
serve-cut_example = serve-cut world held beginning [] half_read refl beginning-parses

get-IsRequestText :
    (hs : List Header)
    → All IsHeader hs
    → IsRequestText (codes "GET") (codes "/") (codes "1") (codes "1") hs
unfolding is_refused is_ctl is_digit
get-IsRequestText hs h = record {
  method_ne = λ e. cc;
  method_token = (refl, (refl, (refl, tt)));
  uri_bytes = ((refl, refl), tt);
  major_ne = λ e. cc;
  major_digits = (refl, tt);
  major_fits = omega arith;
  minor_ne = λ e. cc;
  minor_digits = (refl, tt);
  minor_fits = omega arith;
  fields = h;
}

serve-request_example :
    let s = new_http_session 8 8 ok in
    let q = read_request (codes "GET") (codes "/") (codes "1") (codes "1") [] in
    serve world
      (read false held (request_text (codes "GET") (codes "/") (codes "1") (codes "1") [] []) ∷ [])
    ≡ routed (
        taken 3 (
          in_http (
            write_reply
              (handle_request world.lexical_cast world.open_file world.doc_root q.req s.reply)
              (record s { parser = q }))))
unfolding contains
serve-request_example =
    serve-request world held (codes "GET") (codes "/") (codes "1") (codes "1") []
      (get-IsRequestText [] tt) refl

key_header-All : All IsHeader (key_header ∷ [])
unfolding is_refused is_ctl is_digit
key_header-All = (
  (
    (λ e. cc),
    (
      refl,
      (
        refl,
        (
          refl,
          (
            refl,
            (
              refl,
              (
                refl,
                (
                  refl,
                  (
                    refl,
                    (refl, (refl, (refl, (refl, (refl, (refl, (refl, (refl, (refl, tt))))))))),
                  ),
                ),
              ),
            ),
          ),
        ),
      ),
    ),
    (refl, (refl, (refl, (refl, tt)))),
  ),
  tt,
)

serve-guid_example :
    serve world (
      read false held
        (request_text (codes "GET") (codes "/") (codes "1") (codes "1") (key_header ∷ []) [])
      ∷ wrote false
      ∷ read false held (client_frame true text_frame held log_guid [])
      ∷ [])
    ≡ routed (taken 2 (in_log (connect (new_ws_session idle))))
serve-guid_example =
    serve-guid world (codes "GET") (codes "/") (codes "1") (codes "1") [] [] (codes "dGhl") log_guid
      held held held (get-IsRequestText (key_header ∷ []) key_header-All) tt refl (λ e. cc)
      (omega arith)
