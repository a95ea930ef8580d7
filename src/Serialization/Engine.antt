-- ===== src/Serialization/Engine.antt =====
-- serialization_engine (splice/serialization_engine.hxx), the other class that exchanges archives behind
-- a header with their length. It logs nothing, and gives a message to `on_read_struct`.
pub mod Equivalence
use splitsen.Base.{
  ℕ, Bool, true, false, List, [], ◌∷◌, ◌++◌, Bytes, Option, none, some, length, leb, ◌==◌,
  if◌then◌else◌,
}
use splitsen.Tcp.{TcpSession, on_error}
use splitsen.Serialization.{
  vector_limit, format_header, read_size, ReadEvent, failed, arrived, Step, write, wrote, ask,
  transferred,
}

-- `header_length_` of the engine
abbrev pub header_size : ℕ
header_size = 8

-- The handler that waits for a read, if any.
pub data Awaited : Type 0 where
  a_header : Awaited
  bytes_of_data : ℕ → Awaited
  no_read : Awaited

-- `structs` has the messages that `on_read_struct` was called with; `is_stopped` says that an assertion
-- failed or that an exception left a handler.
pub record SerializationEngine (Msg : Type 0) : Type 0 where
  pub tcp : TcpSession
  pub awaited : Awaited
  pub structs : List Msg
  pub written : Bytes
  pub is_stopped : Bool

module _ {Msg : Type 0} (save : Msg → Bytes) (load : Bytes → Option Msg) where
  abbrev pub on_error_code : SerializationEngine Msg → SerializationEngine Msg
  on_error_code s = record s { tcp = on_error s.tcp }

  -- The buffers of the gather-write, the header in front, or `invalid_argument`.
  abbrev pub write_buffers :
      Option Bytes → Bytes → SerializationEngine Msg → SerializationEngine Msg
  write_buffers none outbound_data s = on_error_code s
  write_buffers (some outbound_header) outbound_data s = record s {
    written = s.written ++ (outbound_header ++ outbound_data);
  }

  unfoldable pub async_write_struct : Msg → SerializationEngine Msg → SerializationEngine Msg
  unfolding format_header on_error
  async_write_struct msg s =
      let outbound_data = save msg in
      write_buffers (format_header (length outbound_data)) outbound_data s

  unfoldable pub on_write_struct : Bool → SerializationEngine Msg → SerializationEngine Msg
  unfolding on_error
  on_write_struct true s = on_error_code s
  on_write_struct false s = s

  unfoldable pub async_read : SerializationEngine Msg → SerializationEngine Msg
  async_read s = record s { awaited = a_header }

  -- The two handlers that nothing is bound to.
  unfoldable pub handle_read : Bool → SerializationEngine Msg → SerializationEngine Msg
  unfolding on_error
  handle_read error s = if error then on_error_code s else s

  unfoldable pub handle_read_dataframe :
      Bool → Bytes → SerializationEngine Msg → SerializationEngine Msg
  unfolding async_read
  handle_read_dataframe error bytes s = async_read s

  -- A handler that returns without another read.
  abbrev pub return : SerializationEngine Msg → SerializationEngine Msg
  return s = record s { awaited = no_read }

  -- `is>>std::hex>>inbound_data_size`, the vector for as much data, which throws if it is too long, and
  -- the read.
  abbrev pub read_data : Option ℕ → SerializationEngine Msg → SerializationEngine Msg
  read_data none s = on_error_code (return s)
  read_data (some inbound_data_size) s =
      if leb vector_limit inbound_data_size
      then record (return s) { is_stopped = true }
      else record s { awaited = bytes_of_data inbound_data_size }

  unfoldable pub on_read_header : ReadEvent → SerializationEngine Msg → SerializationEngine Msg
  unfolding read_size on_error
  on_read_header failed s = on_error_code (return s)
  on_read_header (arrived inbound_header) s =
      if length inbound_header == header_size
      then read_data (read_size inbound_header) s
      else record (return s) { is_stopped = true }

  -- `archive>>msg`; `on_error_ex_ec` does nothing with an exception.
  abbrev pub on_read_struct : Option Msg → SerializationEngine Msg → SerializationEngine Msg
  on_read_struct none s = return s
  on_read_struct (some msg) s = record (return s) { structs = s.structs ++ msg ∷ [] }

  unfoldable pub on_read_data : ℕ → ReadEvent → SerializationEngine Msg → SerializationEngine Msg
  unfolding on_error
  on_read_data size failed s = on_error_code (return s)
  on_read_data size (arrived inbound_data) s =
      if length inbound_data == size
      then on_read_struct (load inbound_data) s
      else record (return s) { is_stopped = true }

  unfoldable pub read_ends : Awaited → ReadEvent → SerializationEngine Msg → SerializationEngine Msg
  unfolding on_read_header on_read_data
  read_ends a_header event s = on_read_header event s
  read_ends (bytes_of_data n) event s = on_read_data n event s
  read_ends no_read event s = s

  unfoldable pub step : Step Msg → SerializationEngine Msg → SerializationEngine Msg
  unfolding async_write_struct on_write_struct async_read read_ends
  step (write msg) s = async_write_struct msg s
  step (wrote error) s = on_write_struct error s
  step ask s = async_read s
  step (transferred event) s = read_ends s.awaited event s

  -- Nothing runs after an assertion that failed or an exception.
  unfoldable pub run : List (Step Msg) → SerializationEngine Msg → SerializationEngine Msg
  unfolding step
  run [] s = s
  run (e ∷ es) s = let rest = run es (step e s) in if s.is_stopped then s else rest
