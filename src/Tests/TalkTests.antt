-- ===== src/Tests/TalkTests.antt =====
-- Runs of the sessions that answer with JSON, and of the log sessions.
use splitsen.Base.{
  ℕ, ◌≡◌, refl, ◌↔◌, Bool, true, false, List, [], ◌∷◌, ◌++◌, Bytes, Option, none, some, codes, inl,
  inr, arith,
}
use splitsen.Tcp.{connected}
use splitsen.WebSocket.Endian.{little}
use splitsen.WebSocket.Frame.{OperationCode, text_frame, ping, MaskingKey}
use splitsen.WebSocket.FrameParser.{fin_opcode}
use splitsen.WebSocket.Session as Ws
use splitsen.Logger.Track.{Severity, Place}
use splitsen.Examples.WsEcho.{frames}
use splitsen.Examples.LogSessions.{started, connects, shuts_down, logs, Event, run, run_posted}
use splitsen.Examples.LogSessions.Delivery.{run-heard}
use splitsen.Examples.JsonTalk.{
  PropertyTree, Value, of_char, of_enumerator, of_number, of_string, of_strings, Response, answers,
  ignores, breaks, talk,
}
use splitsen.Examples.JsonTalk.Laws.{Turn, turns, spoken}
use splitsen.Examples.MultiEcho.WsSession
use splitsen.Examples.MultiEcho.WsSession.{on_text-Means, talk-answered}
use splitsen.Examples.EchoMessage.{echo_json}
use splitsen.Examples.JsonServer.Messages.{response_echo_json, response_files_json}
use splitsen.Examples.JsonServer.Session
use splitsen.Examples.JsonServer.Session.{talk-replied}

abbrev zeros : MaskingKey
zeros = record { key0 = 0; key1 = 0; key2 = 0; key3 = 0 }

abbrev listening : Ws.Session
listening = record { tcp = connected; pending = some fin_opcode; delivered = []; written = [] }

-- A library for trees made up: a text is an identification, a number and a string.
abbrev first_of : Bytes → Option ℕ
first_of [] = none
first_of (id ∷ bytes) = some id

abbrev second_of : Bytes → Option ℕ
second_of [] = none
second_of (id ∷ bytes) = first_of bytes

abbrev rest_of : Bytes → Option Bytes
rest_of (id ∷ number ∷ bytes) = some bytes
rest_of bytes = none

abbrev value_bytes : Value → Bytes
value_bytes (of_char n) = n ∷ []
value_bytes (of_enumerator n) = n ∷ []
value_bytes (of_number n) = n ∷ []
value_bytes (of_string bytes) = bytes
value_bytes (of_strings []) = []
value_bytes (of_strings (bytes ∷ more)) = bytes

abbrev fields_bytes : List (Bytes × Value) → Bytes
fields_bytes [] = []
fields_bytes ((key, value) ∷ fields) = value_bytes value ++ fields_bytes fields

abbrev trees : PropertyTree Bytes
trees = record {
  read_json = λ text. elim text [ [] ↦ none | c ∷ cs ↦ some (c ∷ cs) ];
  get_char = λ key. first_of;
  get_unsigned_char = λ key. first_of;
  get_uint32 = λ key. second_of;
  get_number = λ key. second_of;
  get_string = λ key. rest_of;
  write_json = fields_bytes;
}

abbrev turn : ℕ → OperationCode → Bytes → Response → Turn
turn utc op text response = record {
  utc = utc;
  message = record { fin = true; opcode = op; key = zeros; text = text };
  memory = zeros;
  response = response;
}

-- A client asks for an echo, pings, and sends what nobody asks for.
abbrev echo_turns : List Turn
echo_turns =
    turn 50 text_frame (1 ∷ 40 ∷ codes "a") (answers (2 ∷ 40 ∷ b'a' ∷ 50 ∷ []))
    ∷ turn 51 ping (codes "p") ignores
    ∷ turn 52 text_frame (2 ∷ []) ignores
    ∷ []

on_text-Means_example :
    (WsSession.on_text trees 50 (7 ∷ []) ≡ breaks) ↔ WsSession.Means trees 50 (7 ∷ []) breaks
on_text-Means_example = on_text-Means trees 50 (7 ∷ []) breaks

talk-answered_example :
    talk (WsSession.on_text trees) little zeros (turns echo_turns) listening
    ≡ some
        (spoken ((1 ∷ 40 ∷ codes "a") ∷ (2 ∷ []) ∷ []) ((2 ∷ 40 ∷ b'a' ∷ 50 ∷ []) ∷ []) listening)
unfolding echo_json
talk-answered_example =
    talk-answered trees zeros echo_turns listening
      (
        (
          ((λ e. cc), omega arith),
          inl refl,
          (λ op. (
            WsSession.readable _ refl (WsSession.asks (codes "a") 40 refl refl refl),
            ((λ e. omega (arith, e)), omega arith),
          )),
        ),
        (
          (((λ e. cc), omega arith), inr (inl refl), (λ op. absurd (ground (arith, op)))),
          (
            (
              ((λ e. cc), omega arith),
              inl refl,
              (λ op. (WsSession.readable _ refl (WsSession.from_a_server refl), tt)),
            ),
            tt,
          ),
        ),
      )
      refl

abbrev directory : ℕ → List (Bool × Bytes)
directory utc = (true, codes "/home/a/b.txt") ∷ (false, codes "/home/a/c") ∷ []

-- A client asks for the time, for the files, and for nothing that there is.
abbrev server_turns : List Turn
server_turns =
    turn 50 text_frame (1 ∷ 40 ∷ codes "a") (answers (2 ∷ 40 ∷ b'a' ∷ 50 ∷ []))
    ∷ turn 51 text_frame (3 ∷ 8 ∷ []) (answers (4 ∷ codes "/h...txt"))
    ∷ turn 52 text_frame (9 ∷ []) ignores
    ∷ []

talk-replied_example :
    talk (Session.on_text trees directory) little zeros (turns server_turns) listening
    ≡ some (
        spoken
          ((1 ∷ 40 ∷ codes "a") ∷ (3 ∷ 8 ∷ []) ∷ (9 ∷ []) ∷ [])
          ((2 ∷ 40 ∷ b'a' ∷ 50 ∷ []) ∷ (4 ∷ codes "/h...txt") ∷ [])
          listening)
unfolding response_echo_json response_files_json
talk-replied_example =
    talk-replied trees directory zeros server_turns listening
      (
        (
          ((λ e. cc), omega arith),
          inl refl,
          (λ op. (
            Session.readable _ refl (Session.asks_echo (codes "a") 40 (refl, refl) refl refl),
            ((λ e. omega (arith, e)), omega arith),
          )),
        ),
        (
          (
            ((λ e. cc), omega arith),
            inl refl,
            (λ op. (
              Session.readable _ refl (Session.asks_files 8 (refl, refl) refl (omega arith)),
              ((λ e. omega (arith, e)), omega arith),
            )),
          ),
          (
            (
              ((λ e. cc), omega arith),
              inl refl,
              (λ op. (
                Session.readable _ refl
                    (Session.unknown 9 refl (λ e. omega (arith, e)) (λ e. omega (arith, e))),
                tt,
              )),
            ),
            tt,
          ),
        ),
      )
      refl

-- Two sessions come and one goes, with a line before, between and after.
abbrev log_events : List Event
log_events =
    logs (codes "a")
    ∷ connects 8
    ∷ connects 4
    ∷ logs (codes "b")
    ∷ shuts_down 8 none none
    ∷ logs (codes "c")
    ∷ []

abbrev log_line : ℕ → Severity → Bytes → Bytes
log_line obj severity msg = codes "bye" ++ msg

run-heard_example :
    run_posted little zeros 8 (run log_line log_events started).posted listening
    ≡ record listening { written = frames (codes "b<br>" ∷ codes "bye<br>" ∷ []) }
run-heard_example =
    run-heard log_line little zeros 8 log_events listening
      (((λ e. omega (arith, e)), omega arith), (((λ e. omega (arith, e)), omega arith), tt))

abbrev place : Place
place = record {
  file = codes "/src/a.cpp";
  line = codes "12";
  func = codes "void f()";
  obj = codes "8";
}
