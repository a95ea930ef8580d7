-- ===== src/Serialization.antt =====
-- serialization_session (splice/serialization_session.hxx): messages as archives, each behind a header
-- of eight chars with its length in hexadecimal. The archives are Boost's: two parameters, where
-- loading fails when the archive's constructor or operator throws. The handlers of a derived class
-- are a list of the messages that `on_read` is called with. The assertions are taken as enabled:
-- `is_aborted` says that one failed, or that an exception left a handler, and with it io_service::run;
-- nothing runs after that. Memory for a vector below `vector_limit` is taken to be there.
pub mod Header
pub mod Exchange
pub mod Engine
use splitsen.Base.{
  ℕ, zero, suc, ◌+◌, ◌-◌, ◌*◌, ◌/◌, ◌%◌, ◌^◌, Bool, true, false, not, ◌&&◌, ◌||◌, List, [], ◌∷◌,
  ◌++◌, Bytes, Option, none, some, ltb, leb, ◌==◌, if◌then◌else◌, length, replicate,
}
use splitsen.Hex.{is_space, hex_value}
use splitsen.Tcp.{TcpSession, on_error}

abbrev pub header_length : ℕ
header_length = 8

-- A std::vector<char> cannot have as many chars: its constructor throws, here and above.
abbrev pub vector_limit : ℕ
vector_limit = 2 ^ 63

-- The digits that `std::hex << n` writes, for a fuel above n.
unfoldable pub hex_char : ℕ → ℕ
hex_char d = if ltb d 10 then b'0' + d else b'a' + (d - 10)

unfoldable pub to_hex : ℕ → ℕ → Bytes
unfolding hex_char
to_hex zero n = []
to_hex (suc fuel) n =
    let front = to_hex fuel (n / 16) in (if ltb n 16 then [] else front) ++ hex_char (n % 16) ∷ []

-- `std::setw(header_length_) << std::hex << n`: blanks in front, up to the width.
unfoldable pub header_text : ℕ → Bytes
unfolding to_hex
header_text n =
    let digits = to_hex (suc n) n in replicate (header_length - length digits) b' ' ++ digits

-- The header, or none where its size is not the header's.
unfoldable pub format_header : ℕ → Option Bytes
unfolding header_text
format_header n = if length (header_text n) == header_length then some (header_text n) else none

unfoldable pub skip_space : Bytes → Bytes
unfolding is_space
skip_space [] = []
skip_space (c ∷ cs) = let rest = skip_space cs in if is_space c then rest else c ∷ cs

-- The number that the digits up to the first other char give, behind those read so far.
unfoldable pub read_digits : ℕ → Bytes → ℕ
read_digits n [] = n
read_digits n (c ∷ cs) = elim (hex_value c) [ none ↦ n | some v ↦ read_digits (n * 16 + v) cs ]

-- At least one digit, and a number that fits a std::size_t of 64 bits.
unfoldable pub read_number : Bytes → Option ℕ
unfolding read_digits
read_number [] = none
read_number (c ∷ cs) = elim (hex_value c) [
  | none ↦ none
  | some v ↦ let n = read_digits v cs in if ltb n (2 ^ 64) then some n else none
]

-- A 0x in front of the digits is passed over.
unfoldable pub read_prefixed : Bytes → Option ℕ
unfolding read_number
read_prefixed (c ∷ d ∷ cs) =
    if c == b'0' && (d == b'x' || d == b'X') then read_number cs else read_number (c ∷ d ∷ cs)
read_prefixed cs = read_number cs

-- A minus sign negates the number as an unsigned one.
abbrev pub negate : Option ℕ → Option ℕ
negate none = none
negate (some n) = some ((2 ^ 64 - n) % 2 ^ 64)

unfoldable pub read_signed : Bytes → Option ℕ
unfolding read_prefixed
read_signed [] = none
read_signed (c ∷ cs) =
    if c == b'-'
    then negate (read_prefixed cs)
    else if c == b'+'
    then read_prefixed cs
    else read_prefixed (c ∷ cs)

-- `is >> std::hex >> inbound_data_size`
unfoldable pub read_size : Bytes → Option ℕ
unfolding skip_space read_signed
read_size header = read_signed (skip_space header)

-- The read that is waited for: of a header, of a number of bytes, or none.
pub data Waiting : Type 0 where
  for_header : Waiting
  for_data : ℕ → Waiting
  nothing : Waiting

pub record SerializationSession (Msg : Type 0) : Type 0 where
  pub tcp : TcpSession
  pub waiting : Waiting
  pub delivered : List Msg
  pub written : Bytes
  pub is_aborted : Bool

-- One completion of `async_read_some`: an error, or the bytes that were transferred.
pub data ReadEvent : Type 0 where
  failed : ReadEvent
  arrived : Bytes → ReadEvent

-- What happens to a session: a message is to be written, a write ends, a message is asked for, a read
-- ends.
pub data Step (Msg : Type 0) : Type 0 where
  write : Msg → Step Msg
  wrote : Bool → Step Msg
  ask : Step Msg
  transferred : ReadEvent → Step Msg

module _ {Msg : Type 0} (save : Msg → Bytes) (load : Bytes → Option Msg) where
  abbrev pub fail : SerializationSession Msg → SerializationSession Msg
  fail s = record s { tcp = on_error s.tcp; waiting = nothing }

  abbrev pub abort : SerializationSession Msg → SerializationSession Msg
  abort s = record s { waiting = nothing; is_aborted = true }

  -- `async_read`
  abbrev pub async_read : SerializationSession Msg → SerializationSession Msg
  async_read s = record s { waiting = for_header }

  -- `on_handshake_success`, and the two handlers that nothing is bound to.
  unfoldable pub on_handshake_success : SerializationSession Msg → SerializationSession Msg
  on_handshake_success s = async_read s

  unfoldable pub handle_read : Bool → SerializationSession Msg → SerializationSession Msg
  unfolding on_error
  handle_read error s = if error then record s { tcp = on_error s.tcp } else s

  unfoldable pub handle_read_dataframe :
      Bool → Bytes → SerializationSession Msg → SerializationSession Msg
  handle_read_dataframe error bytes s = async_read s

  abbrev pub write_behind :
      Bytes → Option Bytes → SerializationSession Msg → SerializationSession Msg
  write_behind outbound_data none s = record s { tcp = on_error s.tcp }
  write_behind outbound_data (some header) s = record s {
    written = s.written ++ (header ++ outbound_data);
  }

  -- `async_write`: the header and the archive in one write.
  unfoldable pub async_write : Msg → SerializationSession Msg → SerializationSession Msg
  unfolding format_header
  async_write msg s = write_behind (save msg) (format_header (length (save msg))) s

  -- The end of a write: `on_write` and `on_write_msg`.
  unfoldable pub on_write_msg : Bool → SerializationSession Msg → SerializationSession Msg
  unfolding on_error
  on_write_msg true s = record s { tcp = on_error s.tcp }
  on_write_msg false s = s

  -- The vector for as many chars is made first, and throws where there are too many.
  abbrev pub wait_for : Option ℕ → SerializationSession Msg → SerializationSession Msg
  wait_for none s = fail s
  wait_for (some n) s = if leb vector_limit n then abort s else record s { waiting = for_data n }

  unfoldable pub on_read_header : ReadEvent → SerializationSession Msg → SerializationSession Msg
  unfolding read_size on_error
  on_read_header failed s = fail s
  on_read_header (arrived bytes) s =
      if length bytes == header_length then wait_for (read_size bytes) s else abort s

  -- A message that cannot be loaded goes to `on_error_ex_ec`, which does nothing.
  abbrev pub deliver : Option Msg → SerializationSession Msg → SerializationSession Msg
  deliver none s = record s { waiting = nothing }
  deliver (some msg) s = record s { waiting = nothing; delivered = s.delivered ++ msg ∷ [] }

  unfoldable pub on_read_data : ℕ → ReadEvent → SerializationSession Msg → SerializationSession Msg
  unfolding on_error
  on_read_data inbound_data_size failed s = fail s
  on_read_data inbound_data_size (arrived bytes) s =
      if length bytes == inbound_data_size then deliver (load bytes) s else abort s

  -- The handler that waits for a read runs.
  unfoldable pub dispatch_to :
      Waiting → ReadEvent → SerializationSession Msg → SerializationSession Msg
  unfolding on_read_header on_read_data
  dispatch_to for_header event s = on_read_header event s
  dispatch_to (for_data n) event s = on_read_data n event s
  dispatch_to nothing event s = s

  unfoldable pub dispatch : ReadEvent → SerializationSession Msg → SerializationSession Msg
  unfolding dispatch_to
  dispatch event s = dispatch_to s.waiting event s

  unfoldable pub step : Step Msg → SerializationSession Msg → SerializationSession Msg
  unfolding async_write on_write_msg dispatch
  step (write msg) s = async_write msg s
  step (wrote error) s = on_write_msg error s
  step ask s = async_read s
  step (transferred event) s = dispatch event s

  -- Nothing runs after an assertion that failed or an exception.
  unfoldable pub run : List (Step Msg) → SerializationSession Msg → SerializationSession Msg
  unfolding step
  run [] s = s
  run (e ∷ es) s = let rest = run es (step e s) in if s.is_aborted then s else rest
