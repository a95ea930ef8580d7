-- ===== src/Tests/SerializationTests.antt =====
-- Serialized messages on concrete bytes; an archive is the message itself.
use splitsen.Base.{
  false, true, List, [], ◌∷◌, Bytes, Option, none, some, codes, replicate, ◌≡◌, refl,
}
use splitsen.Tcp.{connected}
use splitsen.Hex.{is_space, hex_value}
use splitsen.Serialization.{
  SerializationSession, for_header, nothing, arrived, header_length, to_hex, header_text,
  format_header, read_size, hex_char, skip_space, read_digits, read_number, read_prefixed,
  read_signed, async_write, dispatch, Step, write, wrote, ask, transferred, failed,
}
use splitsen.Serialization
use splitsen.Serialization.Engine
use splitsen.Serialization.Engine.{SerializationEngine}
use splitsen.Serialization.Engine.Equivalence.{to_session, run-to_session}

abbrev save : Bytes → Bytes
save msg = msg

abbrev load : Bytes → Option Bytes
load archive = some archive

abbrev session : SerializationSession Bytes
session = record {
  tcp = connected;
  waiting = for_header;
  delivered = [];
  written = [];
  is_aborted = false;
}

header : format_header 300 ≡ some (codes "     12c")
unfolding format_header header_text to_hex hex_char replicate
header = refl

-- A 0x and a minus sign are read, too.
sizes :
    (read_size (codes " 0x1G   ") ≡ some 1)
    × ((read_size (codes "-1      ") ≡ some 18446744073709551615)
        × (read_size (codes "0x      ") ≡ none))
unfolding read_size skip_space is_space read_signed read_prefixed read_number read_digits hex_value
sizes = (refl, (refl, refl))

-- No vector is as long as a minus sign can ask for: the handler throws.
too_large : (dispatch save load (arrived (codes "-1      ")) session).is_aborted ≡ true
unfolding dispatch read_size skip_space is_space read_signed read_prefixed read_number read_digits
    hex_value
too_large = refl

abbrev engine : SerializationEngine Bytes
engine = record {
  tcp = connected;
  awaited = Engine.no_read;
  structs = [];
  written = [];
  is_stopped = false;
}

abbrev steps : List (Step Bytes)
steps =
    write (codes "ab")
    ∷ wrote true
    ∷ ask
    ∷ transferred (arrived (codes "       1"))
    ∷ transferred (arrived (codes "x"))
    ∷ transferred failed
    ∷ []

run-to_session_example :
    to_session (Engine.run save load steps engine)
    ≡ Serialization.run save load steps (to_session engine)
run-to_session_example = run-to_session save load steps engine
