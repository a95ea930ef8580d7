-- ===== src/Tests/WebSocketTests.antt =====
-- The WebSocket part on concrete frames: the key and text of the example in RFC 6455, 5.7.
use splitsen.Base.{
  ◌≡◌, refl, true, false, List, [], ◌∷◌, ◌++◌, Bytes, codes, arith, some, inl, inr, replicate,
  length-replicate,
}
use splitsen.Tcp.{connected}
use splitsen.Stream.{is_true, parsed}
use splitsen.Stream.Laws.{Ends}
use splitsen.WebSocket.Endian.{little}
use splitsen.WebSocket.Frame.{
  OperationCode, text_frame, ping, connection_close, MaskingKey, frame_of, new_frame, sent,
}
use splitsen.WebSocket.FrameParser.{
  State, fin_opcode, mask_payload_len, payload, start, key_at, parse_frame,
}
use splitsen.WebSocket.FrameParser.RoundTrip.{
  received, parse-client_frame, parse-server_frame, parse-sent, parse_empty,
}
use splitsen.WebSocket.FrameParser.Stuck.{NoFault, Waits, IsPast, parse-sent_65536}
use splitsen.WebSocket.FrameParser.Wire.{masked, client_frame, server_frame}
use splitsen.WebSocket.Session.{Session, arrived, step, run}
use splitsen.WebSocket.Session.Delivery.{Message, after_frame, step-frame, reads}
use splitsen.Examples.WsEcho.{echoed, echo_run, run-echoed}
use splitsen.WebSocket.Session.Cuts.{IsBehind, arrivals, run_cut}

abbrev key : MaskingKey
key = record { key0 = 0x37; key1 = 0xfa; key2 = 0x21; key3 = 0x3d }

abbrev zeros : MaskingKey
zeros = record { key0 = 0; key1 = 0; key2 = 0; key3 = 0 }

abbrev hello : Bytes
hello = codes "Hello"

wire-hello :
    client_frame true text_frame key hello []
    ≡ 0x81 ∷ 0x85 ∷ 0x37 ∷ 0xfa ∷ 0x21 ∷ 0x3d ∷ 0x7f ∷ 0x9f ∷ 0x4d ∷ 0x51 ∷ 0x58 ∷ []
unfolding key_at
wire-hello = refl

sent-hello : sent little (frame_of key hello) ≡ 0x81 ∷ 0x05 ∷ hello
unfolding sent frame_of
sent-hello = refl

parse-client_frame_example :
    parse_frame little
      (start (new_frame zeros))
      (client_frame true text_frame key hello (codes "z"))
    ≡ parsed is_true
        (record { state = payload; frame = received zeros true text_frame true key 5 hello })
        (codes "z")
parse-client_frame_example =
    parse-client_frame true text_frame key zeros hello (codes "z") (λ e. cc) (omega arith)

parse-server_frame_example :
    parse_frame little (start (new_frame key)) (server_frame true text_frame hello ++ [])
    ≡ parsed is_true
        (record {
          state = payload;
          frame = received key true text_frame false key 5 (masked key 0 hello);
        })
        []
parse-server_frame_example = parse-server_frame true text_frame key hello [] (λ e. cc) (omega arith)

parse-sent_example :
    parse_frame little (start (new_frame zeros)) (sent little (frame_of key hello) ++ [])
    ≡ parsed is_true
        (record { state = payload; frame = received zeros true text_frame false zeros 5 hello })
        []
unfolding frame_of
parse-sent_example =
    parse-sent (frame_of key hello) zeros [] refl (λ e. cc) (omega arith) (omega arith)
      (refl, refl, refl, refl)

parse_empty_example :
    parse_frame little (start (new_frame zeros)) (client_frame true ping key [] (codes "z"))
    ≡ parsed is_true
        (record {
          state = mask_payload_len;
          frame = record (new_frame zeros) {
            fin = true;
            opcode = ping;
            mask = true;
            payload_len = 0;
          };
        })
        (0x37 ∷ 0xfa ∷ 0x21 ∷ 0x3d ∷ codes "z")
parse_empty_example = parse_empty true ping key zeros (codes "z")

-- A payload of 65536 bytes; its elements are never looked at.
long : Bytes
long = replicate 65536 7

parse-sent_65536_example :
    Ends NoFault
      (Waits IsPast)
      (parse_frame little (start (new_frame zeros)) (sent little (frame_of zeros long) ++ hello))
unfolding frame_of long
parse-sent_65536_example =
    parse-sent_65536 (frame_of zeros long) zeros hello refl (length-replicate 65536 7)

-- A session that listens, with nothing delivered and nothing written yet.
abbrev listening : Session
listening = record { tcp = connected; pending = some fin_opcode; delivered = []; written = [] }

abbrev say : OperationCode → Bytes → Message
say op text = record { fin = true; opcode = op; key = key; text = text }

step-frame_example :
    step little
      (arrived zeros (client_frame true connection_close key hello (codes "lost")))
      listening
    ≡ after_frame (say connection_close hello) listening
step-frame_example =
    step-frame (say connection_close hello) zeros (codes "lost") listening ((λ e. cc), omega arith)
      refl

abbrev talk : List (Message × MaskingKey)
talk =
    (say text_frame hello, zeros)
    ∷ (say ping (codes "p"), key)
    ∷ (say text_frame (codes "!"), key)
    ∷ []

run_cut_example :
    (s : State) × (run little
        (arrived zeros (0x81 ∷ 0x85 ∷ 0x37 ∷ [])
          ∷ arrivals ((zeros, 0xfa ∷ 0x21 ∷ 0x3d ∷ 0x7f ∷ 0x9f ∷ 0x4d ∷ 0x51 ∷ 0x58 ∷ []) ∷ []))
        listening
      ≡ record listening { pending = some s })
    × IsBehind s
unfolding key_at
run_cut_example =
    run_cut true text_frame key zeros hello 0x81 0x85 (0x37 ∷ [])
      (0xfa ∷ 0x21 ∷ 0x3d ∷ 0x7f ∷ 0x9f ∷ 0x4d ∷ 0x51 ∷ 0x58 ∷ [])
      ((zeros, 0xfa ∷ 0x21 ∷ 0x3d ∷ 0x7f ∷ 0x9f ∷ 0x4d ∷ 0x51 ∷ 0x58 ∷ []) ∷ []) listening (λ e. cc)
      (omega arith) (λ e. cc) refl refl

run-echoed_example :
    echo_run little zeros (reads talk) listening ≡ echoed (hello ∷ codes "!" ∷ []) listening
run-echoed_example =
    run-echoed zeros talk listening
      (
        ((λ e. cc), omega arith),
        inl refl,
        (λ e. omega (arith, e)),
        (
          ((λ e. cc), omega arith),
          inr (inl refl),
          (λ e. omega (arith, e)),
          (((λ e. cc), omega arith), inl refl, (λ e. omega (arith, e)), tt),
        ),
      )
      refl
