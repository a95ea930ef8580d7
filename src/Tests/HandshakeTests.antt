-- ===== src/Tests/HandshakeTests.antt =====
-- Runs of ws_handshake and of its request parser, with a digest and an encoding made up for them.
use splitsen.Base.{◌+◌, Bool, true, false, [], ◌∷◌, none, length, codes, ◌≡◌, refl, arith}
use splitsen.Tcp.{connected}
use splitsen.Stream.{map_parsed}
use splitsen.Handshake.{ws_guid, HandShakeData}
use splitsen.Http.Chars.{is_refused, is_ctl, is_digit}
use splitsen.Http.Request.{Header, new_request}
use splitsen.Http.Parser.{parse_request}
use splitsen.Http.Parser.Grammar.{request_text}
use splitsen.Http.Parser.RoundTrip.{IsRequestText}
use splitsen.Http.MimeTypes.{same_bytes}
use splitsen.WebSocket.Endian.{little}
use splitsen.WebSocket.Frame.{MaskingKey}
use splitsen.WebSocket.RequestParser
use splitsen.WebSocket.RequestParser.{parse_upgrade}
use splitsen.WebSocket.RequestParser.Equivalence.{to_http, parse_upgrade-to_http}
use splitsen.WebSocket.Upgrade.{key_name}
use splitsen.WebSocket.Handshake.{connect, first_read, WsHandshake, Host, read, wrote, run}
use splitsen.WebSocket.Handshake.Faithful.{IsDone, run-IsDone}
use splitsen.WebSocket.Handshake.Mono
use splitsen.WebSocket.Handshake.Mono.Accepts.{run-upgrade}
use splitsen.WebSocket.Handshake.Accept.{replied}

abbrev host_header : Header
host_header = record { name = codes "Host"; value = codes "a" }

abbrev key_header : Header
key_header = record { name = key_name; value = codes "dGhl" }

abbrev machine : Host
machine = record {
  get_digest = λ s i. length s + i;
  to_base64 = λ bytes. b'A' ∷ [];
  endian = little;
  major = 7;
  minor = 7;
}

abbrev fresh : WsHandshake
fresh = record {
  tcp = connected;
  pending = first_read;
  written = [];
  handed_on = none;
  is_connected = false;
  fault = none;
}

abbrev accepts_x : HandShakeData → Bool
accepts_x d = same_bytes d.data_string (codes "x")

abbrev key0 : MaskingKey
key0 = record { key0 = 1; key1 = 2; key2 = 3; key3 = 4 }

upgrade-IsRequestText :
    IsRequestText (codes "GET") (codes "/") (codes "1") (codes "1") (host_header ∷ key_header ∷ [])
unfolding is_refused is_ctl is_digit
upgrade-IsRequestText = record {
  method_ne = λ e. cc;
  method_token = (refl, (refl, (refl, tt)));
  uri_bytes = ((refl, refl), tt);
  major_ne = λ e. cc;
  major_digits = (refl, tt);
  major_fits = omega arith;
  minor_ne = λ e. cc;
  minor_digits = (refl, tt);
  minor_fits = omega arith;
  fields = (
    ((λ e. cc), (refl, (refl, (refl, (refl, tt)))), (refl, tt)),
    (
      (
        (λ e. cc),
        (
          refl,
          (
            refl,
            (
              refl,
              (
                refl,
                (
                  refl,
                  (
                    refl,
                    (
                      refl,
                      (
                        refl,
                        (refl, (refl, (refl, (refl, (refl, (refl, (refl, (refl, (refl, tt))))))))),
                      ),
                    ),
                  ),
                ),
              ),
            ),
          ),
        ),
        (refl, (refl, (refl, (refl, tt)))),
      ),
      tt,
    ),
  );
}

abbrev guid : HandShakeData
guid = record { tag = ws_guid; data_string = codes "y" }

abbrev ended : WsHandshake
ended = run accepts_x machine (read false key0 (codes "z") ∷ wrote true ∷ []) fresh

run-IsDone_example : IsDone ended.handed_on ended.is_connected ended
unfolding run
run-IsDone_example =
    run-IsDone accepts_x machine (read false key0 (codes "z") ∷ wrote true ∷ []) fresh refl
      (refl, refl, refl) refl refl

parse_upgrade-to_http_example :
    map_parsed to_http (parse_upgrade (RequestParser.start (new_request 0 0)) (codes "GET / H"))
    ≡ parse_request (to_http (RequestParser.start (new_request 0 0))) (codes "GET / H")
parse_upgrade-to_http_example =
    parse_upgrade-to_http (RequestParser.start (new_request 0 0)) (codes "GET / H")

run-upgrade_example :
    Mono.run machine
      (read false key0 (
          request_text
            (codes "GET")
            (codes "/")
            (codes "1")
            (codes "1")
            (host_header ∷ key_header ∷ [])
            (codes "z"))
        ∷ wrote false
        ∷ [])
      fresh
    ≡ connect (replied machine (codes "dGhl") fresh)
run-upgrade_example =
    run-upgrade machine (codes "GET") (codes "/") (codes "1") (codes "1") (host_header ∷ []) []
      (codes "dGhl") (codes "z") key0 false fresh upgrade-IsRequestText (refl, tt) refl
