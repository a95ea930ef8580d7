-- ===== src/WebSocket/Handshake/Accept.antt =====
-- An upgrade that goes well, up to the GUID.
use splitsen.Base.{
  ℕ, ◌<◌, ◌^◌, Bool, true, false, List, [], ◌∷◌, ◌++◌, Bytes, some, length, if◌then◌else◌, All,
  codes, arith, ◌≡◌, ◌≢◌, refl, ap, ◌∙◌,
}
use splitsen.Stream.{is_true, is_false, indeterminate, Parsed, parsed, crashed, map_parsed}
use splitsen.Handshake.{ws_guid, HandShakeData, contains, starts_with}
use splitsen.Http.Request.{Header, Request, new_request}
use splitsen.Http.Parser.{RequestParser}
use splitsen.Http.Parser.Grammar.{request_text, fields_text, version_text}
use splitsen.Http.Parser.RoundTrip.{IsRequestText, parse-request_text}
use splitsen.Http.Reply.{header_buffers, crlf}
use splitsen.Http.MimeTypes.{same_bytes}
use splitsen.WebSocket.Endian.{little}
use splitsen.WebSocket.Frame.{text_frame, MaskingKey}
use splitsen.WebSocket.FrameParser.Wire.{client_frame}
use splitsen.WebSocket.FrameParser.RoundTrip.{received, parse-client_frame}
use splitsen.WebSocket.RequestParser.{UpgradeParser, parse_upgrade}
use splitsen.WebSocket.RequestParser
use splitsen.WebSocket.RequestParser.Equivalence.{to_http, parse_upgrade-to_http}
use splitsen.WebSocket.Upgrade.{
  switching_protocols, key_name, find_key, accept_headers, upgrade_request, upgrade_line,
  upgrade_buffers,
}
use splitsen.WebSocket.Upgrade.Response.{find_key-first}
use splitsen.WebSocket.Handshake.{
  first_read, reply_write, guid_read, WsHandshake, hand_on, connect, Host, on_request, parse_first,
  first_write, key_header, on_first_read, on_second_read, do_custom_handshake, on_guid_frame,
  on_guid_parsed, on_guid_read, read, wrote, dispatch_to, dispatch, run,
}

pub starts_with_self : (k rest : Bytes) → starts_with k (k ++ rest) ≡ true
unfolding starts_with
starts_with_self [] rest = refl
starts_with_self (c ∷ cs) rest = ground (arith, starts_with_self cs rest)

starts_with-contains : (k text : Bytes) → starts_with k text ≡ true → contains k text ≡ true
unfolding contains
starts_with-contains k [] h = h
starts_with-contains k (c ∷ cs) h = rw h refl

contains-step :
    (k : Bytes) (c : ℕ) (text : Bytes) → contains k text ≡ true → contains k (c ∷ text) ≡ true
unfolding contains
contains-step k c text h = ground (arith, h)

contains-append : (k a text : Bytes) → contains k text ≡ true → contains k (a ++ text) ≡ true
contains-append k [] text h = h
contains-append k (c ∷ cs) text h = contains-step k c (cs ++ text) (contains-append k cs text h)

contains-fields_text :
    (before after : List Header) (key rest : Bytes)
    → contains key_header
        (fields_text (before ++ record { name = key_name; value = key } ∷ after) rest)
      ≡ true
contains-fields_text [] after key rest =
    starts_with-contains key_header _ (starts_with_self key_header _)
contains-fields_text (h ∷ before) after key rest = contains-append key_header h.name _ (
    contains-step key_header _ _ (
      contains-step key_header _ _ (
        contains-append key_header h.value _ (
          contains-step key_header _ _
            (contains-step key_header _ _ (contains-fields_text before after key rest))))))

-- The bytes of a request whose headers have the key have the text that `on_first_read` looks for.
contains-request_text :
    (m u major minor : Bytes) (hs : List Header) (rest : Bytes)
    → contains key_header (fields_text hs rest) ≡ true
    → contains key_header (request_text m u major minor hs rest) ≡ true
contains-request_text m u major minor hs rest h =
    let version : contains key_header (version_text major minor (fields_text hs rest)) ≡ true =
      contains-append key_header (codes "HTTP/") _ (
        contains-append key_header major _ (
          contains-step key_header b'.' _ (
            contains-append key_header minor _
              (contains-append key_header (b'\r' ∷ b'\n' ∷ []) _ h)))) in
    contains-append key_header m _ (
      contains-step key_header b' ' _
        (contains-append key_header u _ (contains-step key_header b' ' _ version)))

-- What `map_parsed` was given, from what it gives.
map_parsed-true :
    (r : Parsed UpgradeParser) (q : RequestParser) (rest : Bytes)
    → map_parsed to_http r ≡ parsed is_true q rest
    → (p : UpgradeParser) × (r ≡ parsed is_true p rest) × (p.req ≡ q.req)
map_parsed-true (parsed is_true p rest') q rest e =
    let left : rest' ≡ rest = cc in
    let same : to_http p ≡ q = cc in
    (p, ap (λ r. parsed is_true p r) left, ap (λ (r : RequestParser). r.req) same)
map_parsed-true (parsed is_false p rest') q rest e = absurd cc
map_parsed-true (parsed indeterminate p rest') q rest e = absurd cc
map_parsed-true (crashed f) q rest e = absurd cc

-- The text of a request with a key header, as the first thing on a connection.
pub parse_first-text :
    (host : Host) (m u major minor : Bytes) (hs : List Header) (rest : Bytes)
    → IsRequestText m u major minor hs
    → (p : UpgradeParser) × (parse_first host (request_text m u major minor hs rest)
        ≡ parsed is_true p rest)
      × (p.req.headers ≡ hs)
parse_first-text host m u major minor hs rest t =
    let text = request_text m u major minor hs rest in
    let same =
      parse_upgrade-to_http (RequestParser.start (new_request host.major host.minor)) text in
    let read = parse-request_text m u major minor hs rest host.major host.minor t in
    let (p, parses, req) = map_parsed-true _ _ rest (same ∙ read) in
    (p, parses, ap (λ (r : Request). r.headers) req)

-- The reply of `first_write`.
abbrev pub accept_buffers : Host → Bytes → List Bytes
accept_buffers host key =
    upgrade_line switching_protocols
    ∷ (header_buffers (accept_headers host.get_digest host.to_base64 key) ++ crlf ∷ [])

pub on_request-accepts :
    (host : Host) (r : Parsed UpgradeParser) (p : UpgradeParser) (rest : Bytes)
    (before after : List Header) (key : Bytes) (refuse : WsHandshake → WsHandshake)
    (s : WsHandshake)
    → r ≡ parsed is_true p rest
    → p.req.headers ≡ before ++ record { name = key_name; value = key } ∷ after
    → All (λ g. same_bytes g.name key_name ≡ false) before
    → on_request host r refuse s ≡ record s {
      pending = reply_write switching_protocols;
      written = s.written ++ accept_buffers host key ∷ [];
    }
unfolding on_request upgrade_request upgrade_buffers
on_request-accepts host r p rest before after key refuse s parses headers others =
    let found : find_key p.req.headers ≡ some key =
      ap find_key headers ∙ find_key-first before after _ others refl in
    rw parses (rw found refl)

abbrev pub replied : Host → Bytes → WsHandshake → WsHandshake
replied host key s = record s {
  pending = reply_write switching_protocols;
  written = s.written ++ accept_buffers host key ∷ [];
}

on_first_read-accepts :
    (host : Host) (m u major minor : Bytes) (before after : List Header) (key : Bytes)
    (s : WsHandshake)
    → IsRequestText m u major minor (before ++ record { name = key_name; value = key } ∷ after)
    → All (λ g. same_bytes g.name key_name ≡ false) before
    → on_first_read host false
        (request_text m u major minor
          (before ++ record { name = key_name; value = key } ∷ after)
          [])
        s
      ≡ replied host key s
unfolding on_first_read first_write
on_first_read-accepts host m u major minor before after key s text others =
    let hs = before ++ record { name = key_name; value = key } ∷ after in
    let (q, parses, headers) = parse_first-text host m u major minor hs [] text in
    let has_key =
      contains-request_text m u major minor hs [] (contains-fields_text before after key []) in
    rw has_key (on_request-accepts host _ q [] before after key _ s parses headers others)

module _ (try_handshake : HandShakeData → Bool) (host : Host) where
  -- A text frame from a client, read while the session waits for the GUID.
  on_guid_read-text :
      (mask held : MaskingKey) (p : Bytes) (s : WsHandshake)
      → host.endian ≡ little
      → p ≢ []
      → length p < 2 ^ 64
      → on_guid_read try_handshake host false held (client_frame true text_frame mask p []) s
        ≡ do_custom_handshake try_handshake (record { tag = ws_guid; data_string = p }) s
  unfolding on_guid_read on_guid_parsed on_guid_frame received
  on_guid_read-text mask held p s e ne big =
      rw e (rw (parse-client_frame true text_frame mask held p [] ne big) refl)

  -- A well-formed upgrade request as the first read of a session, the end of the reply's write, and a
  -- masked text frame with a payload as the read behind it, on a host whose lowest byte is first: the
  -- session writes the reply that accepts the first Sec-WebSocket-Key header, and no more; then it is
  -- connected if its `try_handshake` takes the payload as a GUID, and hands the payload on if not.
  pub run-guid :
      (m u major minor : Bytes) (before after : List Header) (key p : Bytes)
      (held mask held' : MaskingKey) (s : WsHandshake)
      → IsRequestText m u major minor (before ++ record { name = key_name; value = key } ∷ after)
      → All (λ g. same_bytes g.name key_name ≡ false) before
      → host.endian ≡ little
      → p ≢ []
      → length p < 2 ^ 64
      → s.pending ≡ first_read
      → let guid : HandShakeData = record { tag = ws_guid; data_string = p } in
        let text =
          request_text m u major minor
            (before ++ record { name = key_name; value = key } ∷ after)
            [] in
        run try_handshake host
          (read false held text
            ∷ wrote false
            ∷ read false held' (client_frame true text_frame mask p [])
            ∷ [])
          s
        ≡ (if try_handshake guid
            then connect (replied host key s)
            else hand_on guid (replied host key s))
  unfolding run dispatch dispatch_to on_first_read first_write on_second_read do_custom_handshake
  run-guid m u major minor before after key p held mask held' s text others e ne big waits =
      let bytes =
        request_text m u major minor (before ++ record { name = key_name; value = key } ∷ after)
          [] in
      let first =
        ap (λ pending. dispatch_to try_handshake host pending (read false held bytes) s) waits
        ∙ on_first_read-accepts host m u major minor before after key s text others in
      let rest = wrote false ∷ read false held' (client_frame true text_frame mask p []) ∷ [] in
      let waiting = record (replied host key s) { pending = guid_read } in
      ap (run try_handshake host rest) first ∙ on_guid_read-text mask held' p waiting e ne big
