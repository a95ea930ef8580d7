-- ===== src/Http/Parser/Grammar.antt =====
-- The text of a request, written down with no reference to the parser (RFC 7230, 3): the request
-- line, the header fields, one line each, and an empty line.
use splitsen.Base.{ℕ, ◌+◌, ◌*◌, ◌-◌, List, [], ◌∷◌, ◌++◌, Bytes}
use splitsen.Http.Request.{Header}

-- The number that decimal digits spell when they are read behind the number `v`.
abbrev pub decimal_from : ℕ → Bytes → ℕ
decimal_from v [] = v
decimal_from v (d ∷ ds) = decimal_from (v * 10 + (d - b'0')) ds

abbrev pub decimal : Bytes → ℕ
decimal = decimal_from 0

-- `rest` follows the text.
abbrev pub field_text : Header → Bytes → Bytes
field_text h rest = h.name ++ (b':' ∷ b' ' ∷ (h.value ++ (b'\r' ∷ b'\n' ∷ rest)))

abbrev pub fields_text : List Header → Bytes → Bytes
fields_text [] rest = b'\r' ∷ b'\n' ∷ rest
fields_text (h ∷ hs) rest = field_text h (fields_text hs rest)

abbrev pub version_text : Bytes → Bytes → Bytes → Bytes
version_text major minor rest =
    b'H' ∷ b'T' ∷ b'T' ∷ b'P' ∷ b'/' ∷ (major ++ (b'.' ∷ (minor ++ (b'\r' ∷ b'\n' ∷ rest))))

abbrev pub request_text : Bytes → Bytes → Bytes → Bytes → List Header → Bytes → Bytes
request_text method uri major minor headers rest =
    method ++ (b' ' ∷ (uri ++ (b' ' ∷ version_text major minor (fields_text headers rest))))
