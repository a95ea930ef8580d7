-- ===== src/Examples/JsonTalk.antt =====
-- Sessions that answer each text with JSON: what the two `on_read` functions share that talk JSON
-- (examples/multi_protocol_echo/server/my_ws_session.hpp, examples/json_server/my_session.cpp).
-- Boost.PropertyTree is a parameter: what reads a text into a tree, what reads a value under a key, and
-- what writes a tree; where it throws, the parameter gives none. A char read as a number, signed or not,
-- is its byte. A time is in milliseconds since 1970.
pub mod Laws
use splitsen.Base.{ℕ, List, [], ◌∷◌, Bytes, Option, none, some, length, drop, ◌==◌, if◌then◌else◌}
use splitsen.WebSocket.Endian.{Endian}
use splitsen.WebSocket.Frame.{MaskingKey}
use splitsen.WebSocket.Session.{Session, ReadEvent, step, async_write}

-- A value that is added to a tree. A char is written as a number; an enumerator is left to the stream.
pub data Value : Type 0 where
  of_char : ℕ → Value
  of_enumerator : ℕ → Value
  of_number : ℕ → Value
  of_string : Bytes → Value
  of_strings : List Bytes → Value

pub record PropertyTree (Tree : Type 0) : Type 0 where
  pub read_json : Bytes → Option Tree
  pub get_char : Bytes → Tree → Option ℕ
  pub get_unsigned_char : Bytes → Tree → Option ℕ
  pub get_uint32 : Bytes → Tree → Option ℕ
  pub get_number : Bytes → Tree → Option ℕ
  pub get_string : Bytes → Tree → Option Bytes
  pub write_json : List (Bytes × Value) → Bytes

-- What a text comes to: an answer; none, an exception that is caught among the reasons; or a failed
-- assertion or undefined behaviour.
pub data Response : Type 0 where
  answers : Bytes → Response
  ignores : Response
  breaks : Response

abbrev pub get {ℓ} : {A : Type ℓ} → Option A → (A → Response) → Response
get none f = ignores
get (some a) f = f a

-- The session goes on, or the program does not.
abbrev pub write_answer : Endian → MaskingKey → Response → Session → Option Session
write_answer e held (answers answer) w = some (async_write e held answer w)
write_answer e held ignores w = some w
write_answer e held breaks w = none

abbrev pub read_next : (Session → Option Session) → Option Session → Option Session
read_next f none = none
read_next f (some w) = f w

module _ (on_text : ℕ → Bytes → Response) (e : Endian) (held : MaskingKey) where
  -- `on_read` at a time
  unfoldable pub on_read : ℕ → Bytes → Session → Option Session
  unfolding async_write
  on_read utc json_msg w = write_answer e held (on_text utc json_msg) w

  abbrev pub on_read_each : ℕ → List Bytes → Session → Option Session
  on_read_each utc [] w = some w
  on_read_each utc (msg ∷ msgs) w = read_next (on_read_each utc msgs) (on_read utc msg w)

  -- A read ends, and `on_read` is called with what it delivers.
  unfoldable pub talk_step : ℕ → ReadEvent → Session → Option Session
  unfolding on_read
  talk_step utc event w =
      let w' = step e event w in on_read_each utc (drop (length w.delivered) w'.delivered) w'

  unfoldable pub talk : List (ℕ × ReadEvent) → Session → Option Session
  unfolding talk_step
  talk [] w = some w
  talk ((utc, event) ∷ events) w = read_next (talk events) (talk_step utc event w)
