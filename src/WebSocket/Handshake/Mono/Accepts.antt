-- ===== src/WebSocket/Handshake/Mono/Accepts.antt =====
-- What a server of one protocol does with an upgrade request.
use splitsen.Base.{
  Bool, true, false, List, [], ◌∷◌, ◌++◌, Bytes, All, if◌then◌else◌, ◌≡◌, refl, ap, ◌∙◌,
}
use splitsen.Tcp.{on_error}
use splitsen.Http.Request.{Header}
use splitsen.Http.MimeTypes.{same_bytes}
use splitsen.Http.Parser.Grammar.{request_text}
use splitsen.Http.Parser.RoundTrip.{IsRequestText}
use splitsen.WebSocket.Frame.{MaskingKey}
use splitsen.WebSocket.Upgrade.{key_name, switching_protocols}
use splitsen.WebSocket.Handshake.{WsHandshake, first_read, Host, fail, connect, read, wrote}
use splitsen.WebSocket.Handshake.Accept.{replied, parse_first-text, on_request-accepts}
use splitsen.WebSocket.Handshake.Mono.{
  first_write, on_first_read, on_second_read, dispatch_to, dispatch, run,
}

on_second_read-switching :
    (error : Bool) (s : WsHandshake)
    → on_second_read switching_protocols error s ≡ (if error then fail s else connect s)
unfolding on_second_read on_error
on_second_read-switching true s = refl
on_second_read-switching false s = refl

-- A well-formed upgrade request as the first read of a session, and the end of the reply's write: the
-- session has written the reply that accepts the first Sec-WebSocket-Key header, and no more, and is
-- connected, or shut down if the write ended with an error. What lies behind the request in the read
-- is lost.
pub run-upgrade :
    (host : Host) (m u major minor : Bytes) (before after : List Header) (key rest : Bytes)
    (held : MaskingKey) (error : Bool) (s : WsHandshake)
    → IsRequestText m u major minor (before ++ record { name = key_name; value = key } ∷ after)
    → All (λ g. same_bytes g.name key_name ≡ false) before
    → s.pending ≡ first_read
    → run host
        (read false held (
            request_text m u major minor
              (before ++ record { name = key_name; value = key } ∷ after)
              rest)
          ∷ wrote error
          ∷ [])
        s
      ≡ (if error then fail (replied host key s) else connect (replied host key s))
unfolding run dispatch dispatch_to on_first_read first_write on_second_read on_error
run-upgrade host m u major minor before after key rest held error s text others waits =
    let hs = before ++ record { name = key_name; value = key } ∷ after in
    let bytes = request_text m u major minor hs rest in
    let (q, parses, headers) = parse_first-text host m u major minor hs rest text in
    let first =
      ap (λ pending. dispatch_to host pending (read false held bytes) s) waits
      ∙ on_request-accepts host _ q rest before after key _ s parses headers others in
    ap (run host (wrote error ∷ [])) first ∙ on_second_read-switching error (replied host key s)
