-- ===== src/Http/Chars.antt =====
-- The character classes of splice/http/request_parser.hxx. A `char` is passed to these as an `int`:
-- a byte from 128 up is negative where char is signed and large where it is not, and no test below
-- tells the two apart, so the model takes the unsigned byte.
use splitsen.Base.{ℕ, Bool, false, not, ◌&&◌, ◌||◌, ◌==◌, leb, ◌≡◌, arith}

unfoldable pub is_char : ℕ → Bool
is_char c = leb c 127

unfoldable pub is_ctl : ℕ → Bool
is_ctl c = leb c 31 || c == 127

unfoldable pub is_tspecial : ℕ → Bool
is_tspecial c =
    c == b'('
    || c == b')'
    || c == b'<'
    || c == b'>'
    || c == b'@'
    || c == b','
    || c == b';'
    || c == b':'
    || c == b'\\'
    || c == b'"'
    || c == b'/'
    || c == b'['
    || c == b']'
    || c == b'?'
    || c == b'='
    || c == b'{'
    || c == b'}'
    || c == b' '
    || c == b'\t'

unfoldable pub is_digit : ℕ → Bool
is_digit c = leb b'0' c && leb c b'9'

-- The guard in front of each byte of a method and of a header's name.
unfoldable pub is_refused : ℕ → Bool
unfolding is_char is_ctl is_tspecial
is_refused c = not (is_char c) || is_ctl c || is_tspecial c

module _ (c : ℕ) (token : is_refused c ≡ false) where
  pub token-ne_space : (c == b' ') ≡ false
  unfolding is_refused
  token-ne_space = ground arith

  pub token-ne_colon : (c == b':') ≡ false
  unfolding is_refused
  token-ne_colon = ground arith

  pub token-ne_tab : (c == b'\t') ≡ false
  unfolding is_refused
  token-ne_tab = ground arith

  pub token-ne_cr : (c == b'\r') ≡ false
  unfolding is_refused
  token-ne_cr = ground arith

pub is_ctl-ne_cr : (c : ℕ) → is_ctl c ≡ false → (c == b'\r') ≡ false
unfolding is_ctl
is_ctl-ne_cr c h = ground arith
