-- ===== src/WebSocket/Upgrade/Base64.antt =====
-- `to_base64` of splice/web_socket/rfc6455_engine.hpp: the padding around the iterators of
-- Boost.Archive, and the base 64 of RFC 4648.
use splitsen.Base.{
  ℕ, suc, ◌+◌, ◌-◌, ◌*◌, ◌/◌, ◌%◌, ◌≤◌, ◌≡◌, ◌≢◌, refl, ap, ◌∙◌, not, List, [], ◌∷◌, ◌++◌, Bytes,
  Option, none, some, length, length-append, take, replicate, length-replicate, ◌^◌, ltb, ◌==◌,
  if◌then◌else◌, arith,
}
use splitsen.WebSocket.Upgrade.{to_sha1, hash_from, magic_guid}

-- `number_of_padd_chars`
abbrev pub pad_count : ℕ → ℕ
pad_count size = if not (size % 3 == 0) then 3 - size % 3 else 0

-- The assertion on the data, and the chars: none where it fails. `read` is what the iterators give from
-- the start of a buffer to an end in it.
unfoldable pub to_base64 : (Bytes → ℕ → Bytes) → Bytes → Option Bytes
unfolding replicate
to_base64 read [] = none
to_base64 read (c ∷ cs) =
    let size = suc (length cs) in
    some (read (c ∷ cs ++ replicate (pad_count size) 0) size ++ replicate (pad_count size) b'=')

-- The alphabet of RFC 4648
abbrev pub base64_char : ℕ → ℕ
base64_char v =
    if ltb v 26
    then b'A' + v
    else if ltb v 52
    then b'a' + (v - 26)
    else if ltb v 62
    then b'0' + (v - 52)
    else if v == 62
    then b'+'
    else b'/'

abbrev pub chars : List ℕ → Bytes
chars [] = []
chars (v ∷ vs) = base64_char v ∷ chars vs

-- The groups of six bits of three bytes each
abbrev pub sextets : Bytes → List ℕ
sextets (a ∷ b ∷ c ∷ cs) =
    a / 4 ∷ (a % 4 * 16 + b / 16) ∷ (b % 16 * 4 + c / 64) ∷ c % 64 ∷ sextets cs
sextets _ = []

-- How base64_from_binary, transform_width and insert_linebreaks are documented to work on bytes: each six
-- bits give a char of the alphabet, as many as cover the bytes, in one line if there are at most 72.
abbrev pub ReadsBase64 : (Bytes → ℕ → Bytes) → Type 0
ReadsBase64 read =
    (buff : Bytes) (n : ℕ)
    → length buff % 3 ≡ 0
    → n ≤ length buff
    → n ≤ 54
    → read buff n ≡ chars (take ((8 * n + 5) / 6) (sextets buff))

-- RFC 4648, 4: three bytes at a time, with one or two pads behind a last group of two bytes or one.
abbrev pub rfc4648 : Bytes → Bytes
rfc4648 (a ∷ b ∷ c ∷ cs) =
    base64_char (a / 4)
    ∷ base64_char (a % 4 * 16 + b / 16)
    ∷ base64_char (b % 16 * 4 + c / 64)
    ∷ base64_char (c % 64)
    ∷ rfc4648 cs
rfc4648 (a ∷ b ∷ []) =
    base64_char (a / 4) ∷ base64_char (a % 4 * 16 + b / 16) ∷ base64_char (b % 16 * 4) ∷ b'=' ∷ []
rfc4648 (a ∷ []) = base64_char (a / 4) ∷ base64_char (a % 4 * 16) ∷ b'=' ∷ b'=' ∷ []
rfc4648 [] = []

abbrev encoded : Bytes → ℕ → ℕ → Bytes
encoded bytes sextet_count pads =
    chars (take sextet_count (sextets (bytes ++ replicate pads 0))) ++ replicate pads b'='

encoded-rfc4648 :
    (bytes : Bytes)
    → encoded bytes ((8 * length bytes + 5) / 6) (pad_count (length bytes)) ≡ rfc4648 bytes
unfolding replicate
encoded-rfc4648 [] = refl
encoded-rfc4648 (a ∷ []) = let low : a % 4 * 16 + 0 ≡ a % 4 * 16 = omega arith in rw low refl
encoded-rfc4648 (a ∷ b ∷ []) = let low : b % 16 * 4 + 0 ≡ b % 16 * 4 = omega arith in rw low refl
encoded-rfc4648 (a ∷ b ∷ c ∷ cs) =
    let n = length cs in
    let count : (8 * suc (suc (suc n)) + 5) / 6 ≡ suc (suc (suc (suc ((8 * n + 5) / 6)))) =
      omega arith in
    let pads : pad_count (suc (suc (suc n))) ≡ pad_count n = ground arith in
    rw (count, pads, encoded-rfc4648 cs) refl

padded_length : (n : ℕ) → (n + pad_count n) % 3 ≡ 0
padded_length n = ground arith

-- A word of a digest, highest byte first.
abbrev pub word_bytes : ℕ → Bytes
word_bytes w = w / 2 ^ 24 % 256 ∷ w / 2 ^ 16 % 256 ∷ w / 2 ^ 8 % 256 ∷ w / 2 ^ 0 % 256 ∷ []

abbrev pub digest_bytes : (ℕ → ℕ) → Bytes
digest_bytes digest =
    word_bytes (digest 0)
    ++ (word_bytes (digest 1)
        ++ (word_bytes (digest 2) ++ (word_bytes (digest 3) ++ word_bytes (digest 4))))

module _ (read : Bytes → ℕ → Bytes) (reads : ReadsBase64 read) where
  -- Data of one to 54 bytes comes out in the base 64 of RFC 4648.
  pub to_base64-rfc4648 :
      (bytes : Bytes) → bytes ≢ [] → length bytes ≤ 54 → to_base64 read bytes ≡ some (rfc4648 bytes)
  unfolding to_base64
  to_base64-rfc4648 [] ne short = absurd (ne refl)
  to_base64-rfc4648 (c ∷ cs) ne short =
      let bytes = c ∷ cs in
      let n = length bytes in
      let pads = pad_count n in
      let whole : length (bytes ++ replicate pads 0) ≡ n + pads =
        length-append bytes (replicate pads 0) ∙ ap (λ m. n + m) (length-replicate pads 0) in
      let chars_are =
        reads (bytes ++ replicate pads 0) n (ap (λ m. m % 3) whole ∙ padded_length n)
          (omega (arith, whole)) short in
      ap (λ cs. some (cs ++ replicate pads b'=')) chars_are ∙ ap some (encoded-rfc4648 bytes)

  -- What a server sends as Sec-WebSocket-Accept is the base 64 of RFC 4648 of the digest of the key and
  -- the magic GUID, each of its five words highest byte first, in 28 chars.
  pub to_base64-to_sha1 :
      (get_digest : Bytes → ℕ → ℕ) (key : Bytes)
      → (to_base64 read (to_sha1 get_digest (key ++ magic_guid))
          ≡ some (rfc4648 (digest_bytes (get_digest (key ++ magic_guid)))))
        × (length (rfc4648 (digest_bytes (get_digest (key ++ magic_guid)))) ≡ 28)
  unfolding to_sha1 hash_from
  to_base64-to_sha1 get_digest key = (
    to_base64-rfc4648 (digest_bytes (get_digest (key ++ magic_guid))) (λ e. cc) (omega arith),
    refl,
  )
