-- ===== src/Logger/Track.antt =====
-- The lines that the loggers write: the functions `log_trace_t` to `log_fatal_t` of log_interface
-- (splice/logger/log_interface.hpp), `track` of the four my_loggers
-- (examples/multi_protocol_echo/server/my_logger.cpp, examples/mono_protocol_echo) and the texts of
-- boost_log_interface (splice/logger/boost_log_interface.hpp). The text of a number, of an address and of
-- a thread's identification are parameters.
use splitsen.Base.{
  ℕ, Bool, [], ◌∷◌, ◌++◌, Bytes, Option, none, some, codes, length, ◌≡◌, refl, Option-cases, inl,
  inr, arith,
}
use splitsen.Logger.{extract_file_name, file_func_name, reduce}

pub data Severity : Type 0 where
  trace debug info warning error fatal : Severity

-- The path of the source file, the line, the function's signature and the address of the session.
pub record Place : Type 0 where
  pub file : Bytes
  pub line : Bytes
  pub func : Bytes
  pub obj : Bytes

abbrev pub endl : Bytes
endl = b'\n' ∷ []

abbrev pub with_msg : Bytes → Bytes → Option Bytes → Option Bytes
with_msg front msg none = none
with_msg front msg (some ffn) = some (front ++ (ffn ++ (codes " " ++ (msg ++ endl))))

-- `track` of the servers of one protocol and of their client
unfoldable pub track_to_console : ℕ → Place → Bytes → Option Bytes
unfolding file_func_name
track_to_console severity place msg =
    with_msg [] msg (file_func_name severity place.file place.line place.func place.obj)

-- `my_logger::track` of the server of several protocols: what its signal is called with, and what its
-- file gets.
unfoldable pub track : Bytes → ℕ → Place → Bytes → Option Bytes
unfolding file_func_name
track thread_id severity place msg =
    with_msg (thread_id ++ codes "|") msg
      (file_func_name severity place.file place.line place.func place.obj)

module _ (isprint : ℕ → Bool) (int_text lexical_cast : ℕ → Bytes) where
  -- The message that `log_trace_t` and the like pass on with the bytes of some data.
  abbrev pub with_data : Severity → Bytes → Bytes → Bytes
  with_data info msg bytes =
      msg ++ (codes " size=" ++ (lexical_cast (length bytes) ++ reduce isprint int_text bytes))
  with_data _ msg bytes = msg ++ reduce isprint int_text bytes

  abbrev pub call {ℓ} :
      {A : Type ℓ} → (Place → Bytes → Option A) → Place → Bytes → Option Bytes → Option A
  call log place msg none = none
  call log place msg (some file) = log (record place { file = file }) msg

  -- `log_trace_t` and the like: the path is cut to the file's name first.
  unfoldable pub log_t {ℓ} :
      {A : Type ℓ}
      → (Severity → Place → Bytes → Option A)
      → Severity
      → Place
      → Bytes
      → Bytes
      → Option A
  unfolding extract_file_name reduce
  log_t log severity place msg bytes =
      call (log severity) place (with_data severity msg bytes) (extract_file_name place.file)

-- The record of boost_log_interface, which SPLICE_LOG begins with the address. The stream is left at
-- std::hex, so the line is in hexadecimal here.
abbrev pub at_line : Place → Bytes → Bytes
at_line place file = codes "[" ++ (file ++ (codes "@" ++ (place.line ++ codes "]:")))

abbrev pub in_func : Severity → Place → Bytes
in_func trace place = codes "[" ++ (place.func ++ codes "]")
in_func debug place = codes "[" ++ (place.func ++ codes "]")
in_func info place = codes "[" ++ (place.func ++ codes "]")
in_func warning place = codes "[" ++ (place.func ++ (codes "][" ++ (place.obj ++ codes "]")))
in_func error place = []
in_func fatal place = []

abbrev pub boost_record : Severity → Place → Bytes → Option Bytes → Option Bytes
boost_record severity place msg none = none
boost_record severity place msg (some file) = some (
    codes "["
    ++ (place.obj
        ++ (codes "]"
            ++ (at_line place file
                ++ (in_func severity place ++ (codes " msg=\"" ++ (msg ++ codes "\"")))))))

-- `log_trace` to `log_fatal` of boost_log_interface
unfoldable pub boost_log : Severity → Place → Bytes → Option Bytes
unfolding extract_file_name
boost_log severity place msg = boost_record severity place msg (extract_file_name place.file)

-- What is behind the last separator has no separator.
extract_file_name_twice :
    (path file : Bytes) → extract_file_name path ≡ some file → extract_file_name file ≡ none
unfolding extract_file_name
extract_file_name_twice [] file e = absurd (ground arith)
extract_file_name_twice (c ∷ cs) file e = elim (Option-cases (extract_file_name cs)) [
  | inl no_more ↦ ground (arith, no_more)
  | inr (name, more) ↦ ground (arith, more, extract_file_name_twice cs name more)
]

-- A logger whose line is undefined if the file's name is, and what comes of it when it is called for data.
pub log_t_undefined :
    (isprint : ℕ → Bool) (int_text lexical_cast : ℕ → Bytes)
    (log : Severity → Place → Bytes → Option Bytes)
    → ((severity : Severity) (place : Place) (msg : Bytes)
        → extract_file_name place.file ≡ none
        → log severity place msg ≡ none)
    → (severity : Severity) (place : Place) (msg bytes : Bytes)
    → log_t isprint int_text lexical_cast log severity place msg bytes ≡ none
unfolding log_t
log_t_undefined isprint int_text lexical_cast log undefined_if severity place msg bytes =
    let text = with_data isprint int_text lexical_cast severity msg bytes in
    elim (Option-cases (extract_file_name place.file)) [
      | inl no_name ↦ rw no_name refl
      | inr (file, name) ↦ rw name (
          undefined_if severity (record place { file = file }) text
            (extract_file_name_twice place.file file name))
    ]
