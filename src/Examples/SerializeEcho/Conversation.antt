-- ===== src/Examples/SerializeEcho/Conversation.antt =====
-- An echo from end to end.
use splitsen.Base.{
  ℕ, ◌<◌, ◌^◌, false, [], ◌∷◌, ◌++◌, Bytes, Option, some, length, take, drop, ◌≡◌, refl, ap, ◌∙◌,
}
use splitsen.Handshake.{contains}
use splitsen.Http.Chars.{is_refused}
use splitsen.Http.RequestHandler.{c_str}
use splitsen.WebSocket.Frame.{MaskingKey}
use splitsen.WebSocket.Handshake.{read}
use splitsen.Serialization.{
  SerializationSession, for_header, nothing, ReadEvent, arrived, header_text, async_read,
  async_write,
}
use splitsen.Serialization.Header.{read_size-header}
use splitsen.Serialization.Exchange.{read_wire}
use splitsen.Protocol.Chain.{taken}
use splitsen.Examples.MultiEcho.{
  World, in_serialization, new_serialization_session, serialization_guid, routed, serve,
}
use splitsen.Examples.MultiEcho.Raw.{serve-raw}
use splitsen.Examples.EchoMessage.{Message, from_client, from_server, ClientEchoTimed, server_echo}
use splitsen.Examples.SerializeEcho.{
  SerializeClient, new_client, entered, server_read, on_socket_connected, type_in, on_write_guid,
  on_message_written, client_read,
}

-- The bytes of a message in two reads, of its header and of its archive.
abbrev pub read_both {ℓ} : {S : Type ℓ} → (ReadEvent → S → S) → Bytes → S → S
read_both f bytes s = f (arrived (drop 8 bytes)) (f (arrived (take 8 bytes)) s)

module _ (save : Message → Bytes) (load : Bytes → Option Message)
    (loads : (m : Message) → load (save m) ≡ some m) where
  abbrev wire : Message → Bytes
  wire m = header_text (length (save m)) ++ save m

  async_write-wire :
      (m : Message) (s : SerializationSession Message)
      → length (save m) < 16 ^ 8
      → async_write save load m s ≡ record s { written = s.written ++ wire m }
  unfolding async_write
  async_write-wire m s fits = rw ((read_size-header (length (save m)) fits).0) refl

  -- A session that was told of nothing yet and waits for a header.
  abbrev fresh : Bytes → SerializationSession Message
  fresh written = record new_serialization_session { waiting = for_header; written = written }

  server-echoes :
      (utc : ℕ) (m : ClientEchoTimed)
      → length (save (from_client m)) < 16 ^ 8
      → length (save (from_server (server_echo utc m))) < 16 ^ 8
      → (read_both (server_read save load utc) (wire (from_client m)) (fresh [])).written
        ≡ wire (from_server (server_echo utc m))
  unfolding server_read
  server-echoes utc m fits fits' =
      let (header, archive) = read_wire save load (from_client m) (fresh []) loads fits refl in
      let heard : SerializationSession Message = record (fresh []) {
        waiting = nothing;
        delivered = from_client m ∷ [];
      } in
      let replied = async_write-wire (from_server (server_echo utc m)) heard fits' in
      rw header (rw archive (ap (λ (s : SerializationSession Message). s.written) replied))

  client-prints :
      (utc : ℕ) (m : ClientEchoTimed) (w : Bytes)
      → length (save (from_server (server_echo utc m))) < 16 ^ 8
      → (read_both
          (client_read save load)
          (wire (from_server (server_echo utc m)))
          (record { session = fresh w; printed = [] })).printed
        ≡ m.msg ∷ []
  unfolding client_read server_echo
  client-prints utc m w fits =
      let (header, archive) =
        read_wire save load (from_server (server_echo utc m)) (fresh w) loads fits refl in
      rw header (rw archive refl)

-- The client, once it is connected, its GUID is written, and `line` was typed in.
abbrev pub asking : World Message → Bytes → ℕ → SerializeClient
asking world line sent =
    on_write_guid world.save world.load false line sent
      (on_socket_connected world.save world.load new_client)

module _ (world : World Message) (loads : (m : Message) → world.load (world.save m) ≡ some m) where
  asking-whole :
      (line : Bytes) (sent : ℕ)
      → length (world.save (from_client (record { msg = entered line; sent = sent }))) < 16 ^ 8
      → asking world line sent ≡ record {
        session = record new_serialization_session {
          written =
              serialization_guid
              ++ wire world.save world.load loads
                  (from_client (record { msg = entered line; sent = sent }));
        };
        printed = [];
      }
  unfolding on_write_guid type_in on_socket_connected
  asking-whole line sent fits =
      ap (λ (s : SerializationSession Message). record new_client { session = s })
        (async_write-wire world.save world.load loads
          (from_client (record { msg = entered line; sent = sent }))
          (record new_serialization_session { written = serialization_guid }) fits)

  -- The echo from end to end, for archives that load what was saved, of less than 2^32 bytes. The server
  -- reads what the client wrote first, the 38 chars of its GUID, as the first read of the connection,
  -- which is then with a serialization session that waits for a header. That session reads the rest of
  -- what the client wrote, in a read of eight bytes and one of the others; the client, told that its
  -- message was written, reads what the session wrote in the same way, and prints what was sent of the
  -- line that was typed in, up to its first null char and at most 1023 chars, and nothing else.
  pub echo-prints :
      (held : MaskingKey) (line : Bytes) (sent utc : ℕ)
      → let text = c_str (take 1023 line) in
        let m : ClientEchoTimed = record { msg = text; sent = sent } in
        length (world.save (from_client m)) < 16 ^ 8
        → length (world.save (from_server (server_echo utc m))) < 16 ^ 8
        → let c = asking world line sent in
          let s = async_read world.save world.load new_serialization_session in
          let heard =
            read_both (server_read world.save world.load utc) (drop 38 c.session.written) s in
          let told =
            read_both
              (client_read world.save world.load)
              heard.written
              (on_message_written world.save world.load false c) in
          (serve world (read false held (take 38 c.session.written) ∷ [])
            ≡ routed (taken 1 (in_serialization s)))
          × (told.printed ≡ text ∷ [])
  unfolding on_message_written is_refused contains entered
  echo-prints held line sent utc fits fits' =
      let m : ClientEchoTimed = record { msg = entered line; sent = sent } in
      let w = serialization_guid ++ wire world.save world.load loads (from_client m) in
      let told : SerializeClient = record {
        session = fresh world.save world.load loads w;
        printed = [];
      } in
      rw (asking-whole line sent fits) (
        serve-raw world held b'{' (drop 1 serialization_guid) refl refl,
        ap (λ bytes. (read_both (client_read world.save world.load) bytes told).printed)
              (server-echoes world.save world.load loads utc m fits fits')
            ∙ client-prints world.save world.load loads utc m w fits',
      )
