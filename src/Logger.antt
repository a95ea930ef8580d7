-- ===== src/Logger.antt =====
-- What log_interface (splice/logger/log_interface.hpp) makes of the texts that are logged. The C library's
-- isprint and the text of an int are parameters.
pub mod Reduce
pub mod Track
use splitsen.Base.{
  ℕ, zero, suc, ◌+◌, ◌-◌, ◌*◌, Bool, true, false, ◌||◌, ◌&&◌, List, [], ◌∷◌, ◌++◌, Bytes, Option,
  none, some, codes, length, drop, ltb, ◌==◌, if◌then◌else◌,
}

abbrev pub is_separator : ℕ → Bool
is_separator c = c == b'\\' || c == b'/' || c == b':'

abbrev pub or_here : Option Bytes → Bool → Bytes → Option Bytes
or_here (some name) here rest = some name
or_here none true rest = some rest
or_here none false rest = none

-- `extract_file_name`: what is behind the last separator. Without one the loop reads in front of the
-- path, which is undefined: `none`.
unfoldable pub extract_file_name : Bytes → Option Bytes
extract_file_name [] = none
extract_file_name (c ∷ cs) = or_here (extract_file_name cs) (is_separator c) cs

-- `rfind("::")`, as what is behind it.
abbrev pub begins_with_colons : Bytes → Bool
begins_with_colons [] = false
begins_with_colons (c ∷ []) = false
begins_with_colons (c ∷ d ∷ cs) = c == b':' && d == b':'

unfoldable pub behind_colons : Bytes → Option Bytes
behind_colons [] = none
behind_colons (c ∷ cs) = or_here (behind_colons cs) (begins_with_colons (c ∷ cs)) (drop 1 cs)

abbrev pub or_whole : Bytes → Option Bytes → Bytes
or_whole func none = func
or_whole func (some name) = name

unfoldable pub extract_func_name : Bytes → Bytes
unfolding behind_colons
extract_func_name func = or_whole func (behind_colons func)

-- `file_func_name`; `line` and `obj` are the texts of the line and of the object's address.
abbrev pub with_file : ℕ → Option Bytes → Bytes → Bytes → Bytes → Option Bytes
with_file severity none line func obj = none
with_file severity (some file) line func obj = some (
    severity ∷ b'|' ∷ (file ++ (b'@' ∷ (line ++ (codes "|(0x" ++ (obj ++ (codes ")->" ++ func)))))))

unfoldable pub file_func_name : ℕ → Bytes → Bytes → Bytes → Bytes → Option Bytes
unfolding extract_file_name extract_func_name
file_func_name severity path line func obj =
    with_file severity (extract_file_name path) line (extract_func_name func) obj

module _ (isprint : ℕ → Bool) (int_text : ℕ → Bytes) where
  -- One char of the loop of `reduce`.
  abbrev pub shown : ℕ → Bytes
  shown c = if isprint c then c ∷ [] else b'\\' ∷ int_text c

  -- The loop from the iterator `it` on, with the counter `i`; `begin` has all the bytes. When the
  -- counter is 9 the iterator goes to eleven bytes before the end, and on by one.
  unfoldable pub reduce_from : ℕ → Bytes → Bytes → ℕ → Bytes
  reduce_from zero begin it i = []
  reduce_from (suc fuel) begin [] i = []
  reduce_from (suc fuel) begin (c ∷ cs) i =
      let it = (if i == 9 then drop (length begin - 11 + 1) begin else cs) in
      let dots = (if i == 9 then codes " ... " else []) in
      shown c ++ (dots ++ reduce_from fuel begin it (i + 1))

  unfoldable pub reduce : Bytes → Bytes
  unfolding reduce_from
  reduce bytes =
      if ltb (length bytes) (2 * 10 + 5)
      then b'"' ∷ (bytes ++ b'"' ∷ [])
      else b'"' ∷ (reduce_from (length bytes) bytes bytes 0 ++ b'"' ∷ [])
