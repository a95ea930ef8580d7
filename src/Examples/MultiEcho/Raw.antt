-- ===== src/Examples/MultiEcho/Raw.antt =====
-- What the echo server does with a first read that is no upgrade request.
use splitsen.Base.{
  ℕ, true, false, List, [], ◌∷◌, Bytes, Bool-cases, inl, inr, ◌==◌, ◌≡◌, refl, ap, ◌∙◌, arith,
}
use splitsen.Handshake.{HandShakeData, http, contains, starts_with}
use splitsen.Handshake
use splitsen.Stream.{Parsed, is_false, is_true, indeterminate, parsed}
use splitsen.Stream
use splitsen.Http.Chars.{is_refused}
use splitsen.Http.Chars
use splitsen.Http.Request.{Header, Request, new_request}
use splitsen.Http.MimeTypes.{same_bytes}
use splitsen.Http.Parser.{RequestParser, reset, parse_request, method_start}
use splitsen.Http.Parser
use splitsen.Http.Parser.Grammar.{request_text}
use splitsen.Http.Parser.RoundTrip.{IsRequestText, parse-request_text}
use splitsen.Http.RequestHandler.{handle_request}
use splitsen.Http.Session.{
  write_reply, answer, on_first_parsed, on_first_read, handshake, websocket_key,
}
use splitsen.Http.Session.Reads.{read_request}
use splitsen.WebSocket.Frame.{MaskingKey}
use splitsen.WebSocket.RequestParser
use splitsen.WebSocket.RequestParser.{UpgradeParser, parse_upgrade}
use splitsen.WebSocket.Handshake as Upgrading
use splitsen.WebSocket.Handshake.{WsHandshake, read, key_header, parse_first, first_read}
use splitsen.Protocol.Chain.{refused, taken, dropped, on_handshake_fail}
use splitsen.Examples.TcpSession.{guid}
use splitsen.Examples.MultiEcho.{
  serialization_guid, in_http, World, new_http_session, routed, do_next_handshake, serve,
}
use splitsen.Examples.MultiEcho.Routes.{by_guid, refused_twice}

-- The first byte cannot begin a request.
parse-is_refused :
    (r : Request) (c : ℕ) (cs : Bytes)
    → is_refused c ≡ true
    → parse_request (reset r) (c ∷ cs)
      ≡ parsed is_false (record { state = method_start; req = r }) cs
unfolding parse_request Stream.parse Parser.consume Parser.consume_in Parser.consume_method_start
parse-is_refused r c cs h = rw h refl

upgrade-is_refused :
    (r : Request) (c : ℕ) (cs : Bytes)
    → is_refused c ≡ true
    → parse_upgrade (RequestParser.start r) (c ∷ cs) ≡ parsed is_false (RequestParser.start r) cs
unfolding parse_upgrade Stream.parse RequestParser.consume RequestParser.consume_in
    RequestParser.is_char RequestParser.is_ctl RequestParser.is_tspecial Chars.is_refused
    Chars.is_char Chars.is_ctl Chars.is_tspecial
upgrade-is_refused r c cs h = rw h refl

pub same_bytes-≡ : (xs ys : Bytes) → same_bytes xs ys ≡ true → xs ≡ ys
same_bytes-≡ [] [] h = refl
same_bytes-≡ [] (y ∷ ys) h = absurd cc
same_bytes-≡ (x ∷ xs) [] h = absurd cc
same_bytes-≡ (x ∷ xs) (y ∷ ys) h = elim (Bool-cases (x == y)) [
  | inl e ↦
      let rest = same_bytes-≡ xs ys (rw e at h) in
      let first : x ≡ y = ground (arith, e) in rw (first, rest) refl
  | inr e ↦ let f : false ≡ true = rw e at h in absurd cc
]

-- A GUID does not have the text.
other_than :
    (g bytes : Bytes)
    → contains key_header g ≡ false
    → contains key_header bytes ≡ true
    → same_bytes g bytes ≡ false
other_than g bytes without has = elim (Bool-cases (same_bytes g bytes)) [
  | inr e ↦ e
  | inl e ↦
      let same = same_bytes-≡ g bytes e in
      let both : contains key_header g ≡ true = rw same has in absurd cc
]

module _ {Msg : Type 0} (world : World Msg) where
  http_refuses :
      (c : ℕ) (cs : Bytes)
      → is_refused c ≡ true
      → contains websocket_key (c ∷ cs) ≡ false
      → do_next_handshake world 3 (record { tag = http; data_string = c ∷ cs })
        ≡ refused (record { tag = http; data_string = c ∷ cs })
  unfolding do_next_handshake handshake on_first_read on_first_parsed
  http_refuses c cs odd plain =
      rw plain (rw (parse-is_refused (new_request world.major world.minor) c cs odd) refl)

  log_refuses :
      (c : ℕ) (cs : Bytes)
      → is_refused c ≡ true
      → do_next_handshake world 2 (record { tag = http; data_string = c ∷ cs })
        ≡ refused (record { tag = http; data_string = c ∷ cs })
  unfolding do_next_handshake Upgrading.handshake Upgrading.handshake_in Upgrading.first_write
      Upgrading.on_request
  log_refuses c cs odd =
      rw (upgrade-is_refused (new_request world.host.major world.host.minor) c cs odd) refl

module _ {Msg : Type 0} (world : World Msg) (held : MaskingKey) where
  -- A first read without "Sec-WebSocket-Key:" whose first byte cannot begin a request: the connection is
  -- with the serialization session or with my_tcp_session, which waits for its first message, if the
  -- read is that session's GUID and no more; anything else is dropped. The HTTP and the log session
  -- never keep it.
  pub serve-raw :
      (c : ℕ) (cs : Bytes)
      → is_refused c ≡ true
      → contains key_header (c ∷ cs) ≡ false
      → serve world (read false held (c ∷ cs) ∷ [])
        ≡ routed (by_guid world (record { tag = http; data_string = c ∷ cs }))
  unfolding serve Upgrading.run Upgrading.dispatch Upgrading.dispatch_to Upgrading.on_first_read
  serve-raw c cs odd plain =
      let d : HandShakeData = record { tag = http; data_string = c ∷ cs } in
      rw plain (
        ap routed
          (refused_twice world d (http_refuses world c cs odd plain) (log_refuses world c cs odd)))

  -- A first read that has "Sec-WebSocket-Key:" in it and is only the beginning of an upgrade
  -- request, so that the parser asks for more: the connection is dropped, with the data of that
  -- read, which has no tag.
  pub serve-cut :
      (bytes rest : Bytes) (p : UpgradeParser)
      → contains key_header bytes ≡ true
      → parse_first world.host bytes ≡ parsed indeterminate p rest
      → serve world (read false held bytes ∷ [])
        ≡ routed (dropped (record { tag = Handshake.none; data_string = bytes }))
  unfolding serve Upgrading.run Upgrading.dispatch Upgrading.dispatch_to Upgrading.on_first_read
      Upgrading.first_write Upgrading.on_request do_next_handshake handshake Upgrading.handshake
      Upgrading.handshake_in contains
  serve-cut bytes rest p has cut =
      let d : HandShakeData = record { tag = Handshake.none; data_string = bytes } in
      let unserialized = other_than serialization_guid bytes refl has in
      let untold = other_than guid bytes refl has in
      let refusing : on_handshake_fail (do_next_handshake world) 4 d ≡ dropped d =
        refused_twice world d refl refl ∙ rw unserialized (rw untold refl) in
      rw has (rw cut (ap routed refusing))

  -- The text of a well-formed request without "Sec-WebSocket-Key:" as the first read: the HTTP session
  -- has it, and is writing the handler's reply to just that request.
  pub serve-request :
      (m u major minor : Bytes) (hs : List Header)
      → IsRequestText m u major minor hs
      → contains key_header (request_text m u major minor hs []) ≡ false
      → let s = new_http_session world.major world.minor world.status in
        let q = read_request m u major minor hs in
        serve world (read false held (request_text m u major minor hs []) ∷ [])
        ≡ routed (
            taken 3 (
              in_http (
                write_reply
                  (handle_request world.lexical_cast world.open_file world.doc_root q.req s.reply)
                  (record s { parser = q }))))
  unfolding serve Upgrading.run Upgrading.dispatch Upgrading.dispatch_to Upgrading.on_first_read
      on_handshake_fail do_next_handshake handshake on_first_read on_first_parsed answer write_reply
  serve-request m u major minor hs text plain =
      rw plain
        (rw plain (rw (parse-request_text m u major minor hs [] world.major world.minor text) refl))
