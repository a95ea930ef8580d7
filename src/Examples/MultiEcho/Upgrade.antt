-- ===== src/Examples/MultiEcho/Upgrade.antt =====
-- What the echo server does with an upgrade request.
use splitsen.Base.{
  ◌<◌, ◌^◌, Bool, true, false, List, [], ◌∷◌, ◌++◌, Bytes, Bool-cases, inl, inr, All, length,
  if◌then◌else◌, ◌≡◌, ◌≢◌, refl, ap, ◌∙◌,
}
use splitsen.Handshake.{HandShakeData}
use splitsen.Handshake
use splitsen.Http.Request.{Header}
use splitsen.Http.MimeTypes.{same_bytes}
use splitsen.Http.Parser.Grammar.{request_text}
use splitsen.Http.Parser.RoundTrip.{IsRequestText}
use splitsen.Http.Session.{handshake}
use splitsen.WebSocket.Endian.{little}
use splitsen.WebSocket.Frame.{MaskingKey, text_frame}
use splitsen.WebSocket.FrameParser.Wire.{client_frame}
use splitsen.WebSocket.Upgrade.{key_name}
use splitsen.WebSocket.Handshake as Upgrading
use splitsen.WebSocket.Handshake.{
  WsHandshake, first_read, idle, hand_on, connect, read, wrote, do_custom_handshake, run, Event,
}
use splitsen.WebSocket.Handshake.Accept.{replied, run-guid}
use splitsen.Protocol.Chain.{Taken, taken, on_handshake_fail}
use splitsen.Examples.MultiEcho.{
  ws_session_guid, log_guid, has_guid, KeptBy, in_log, World, new_ws_session, stays, routed,
  serve_with, do_next_handshake, serve,
}
use splitsen.Examples.MultiEcho.Routes.{by_guid, last_two}

module _ {Msg : Type 0} (world : World Msg) where
  -- Where the GUID that a client sends behind its upgrade goes, when it is not the first session's.
  abbrev pub by_client_guid : HandShakeData → Taken (KeptBy Msg)
  by_client_guid d =
      if has_guid log_guid d
      then taken 2 (in_log (connect (new_ws_session idle)))
      else by_guid world d

  chain :
      (p : Bytes)
      → let d : HandShakeData = record { tag = Handshake.ws_guid; data_string = p } in
        on_handshake_fail (do_next_handshake world) 4 d ≡ by_client_guid d
  unfolding on_handshake_fail do_next_handshake handshake Upgrading.handshake Upgrading.handshake_in
      do_custom_handshake
  chain p =
      let d : HandShakeData = record { tag = Handshake.ws_guid; data_string = p } in
      elim (Bool-cases (has_guid log_guid d)) [
        | inl log ↦ rw log refl
        | inr other ↦ rw other (last_two world d)
      ]

  decided :
      (b : Bool) (key p : Bytes)
      → let d : HandShakeData = record { tag = Handshake.ws_guid; data_string = p } in
        let s = replied world.host key (new_ws_session first_read) in
        let t = if b then connect s else hand_on d s in
        serve_with world t t.handed_on
        ≡ (if b then stays (connect s) else routed (by_client_guid d))
  decided true key p = refl
  decided false key p = ap routed (chain p)

  -- A well-formed upgrade request as the first read of a connection, the end of the reply's write, and
  -- a masked text frame with a payload as the next read, on a host whose lowest byte is first: the
  -- reply is written, and the payload alone decides where the connection is then, with the session whose
  -- GUID it is, connected, or dropped if it is none of the four.
  pub serve-guid :
      (m u major minor : Bytes) (before after : List Header) (key p : Bytes)
      (held mask held' : MaskingKey)
      → IsRequestText m u major minor (before ++ record { name = key_name; value = key } ∷ after)
      → All (λ g. same_bytes g.name key_name ≡ false) before
      → world.host.endian ≡ little
      → p ≢ []
      → length p < 2 ^ 64
      → let d : HandShakeData = record { tag = Handshake.ws_guid; data_string = p } in
        let text =
          request_text m u major minor
            (before ++ record { name = key_name; value = key } ∷ after)
            [] in
        serve world (
          read false held text
          ∷ wrote false
          ∷ read false held' (client_frame true text_frame mask p [])
          ∷ [])
        ≡ (if has_guid ws_session_guid d
            then stays (connect (replied world.host key (new_ws_session first_read)))
            else routed (by_client_guid d))
  unfolding serve
  serve-guid m u major minor before after key p held mask held' text others e ne big =
      let d : HandShakeData = record { tag = Handshake.ws_guid; data_string = p } in
      let s = new_ws_session first_read in
      let ran =
        run-guid (has_guid ws_session_guid) world.host m u major minor before after key p held mask
          held' s text others e ne big refl in
      ap (λ (t : WsHandshake). serve_with world t t.handed_on) ran
      ∙ decided (has_guid ws_session_guid d) key p
