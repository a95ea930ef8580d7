-- ===== src/WebSocket/Upgrade/Response.antt =====
-- What a client reads in the answer to its upgrade request.
use splitsen.Base.{
  ℕ, zero, suc, ◌+◌, ◌*◌, ◌^◌, ◌<◌, false, List, [], ◌∷◌, ◌++◌, Bytes, some, codes, take, drop, All,
  ◌≡◌, refl, ap, ◌∙◌, arith,
}
use splitsen.Http.Request.{Header, Request}
use splitsen.Http.Reply.{header_buffers, crlf}
use splitsen.Http.MimeTypes.{same_bytes}
use splitsen.Http.Reply.Wire.{read_reply, read_code, skip_line, gather, IsField, read_reply-buffers}
use splitsen.Http.RequestHandler.Framing.{IsLine, is_line-IsLine, is_name-All}
use splitsen.WebSocket.Upgrade.{
  switching_protocols, status_text, upgrade_line, upgrade_buffers, key_name, find_key, hash_from,
  to_sha1, accept_headers, upgrade_request,
}

-- A number from its bytes, highest first.
abbrev pub big_endian : ℕ → Bytes → ℕ
big_endian n [] = n
big_endian n (b ∷ bs) = big_endian (n * 256 + b) bs

pub find_key-first :
    (before after : List Header) (h : Header)
    → All (λ g. same_bytes g.name key_name ≡ false) before
    → h.name ≡ key_name
    → find_key (before ++ h ∷ after) ≡ some h.value
unfolding find_key
find_key-first [] after h others named = rw named refl
find_key-first (g ∷ before) after h (other, others) named =
    rw other (find_key-first before after h others named)

gather-last : (bs : List Bytes) (c : Bytes) → gather (bs ++ c ∷ []) ≡ gather (bs ++ c ∷ [] ∷ [])
unfolding gather
gather-last [] c = refl
gather-last (b ∷ bs) c = ap (λ (l : Bytes). b ++ l) (gather-last bs c)

read_code-switching :
    (rest : Bytes) → read_code (drop 9 (status_text switching_protocols ++ rest)) ≡ some (101, rest)
unfolding read_code skip_line
read_code-switching rest = refl

module _ (get_digest : Bytes → ℕ → ℕ) (to_base64 : Bytes → Bytes) where
  -- The twenty bytes of `to_sha1` are the five words of the digest, each highest byte first, if the
  -- words are of 32 bits.
  pub big_endian-to_sha1 :
      (s : Bytes) (k : ℕ)
      → k < 5
      → ((i : ℕ) → get_digest s i < 2 ^ 32)
      → big_endian 0 (take 4 (drop (4 * k) (to_sha1 get_digest s))) ≡ get_digest s k
  unfolding to_sha1 hash_from
  big_endian-to_sha1 s zero h fits = omega (arith, fits 0)
  big_endian-to_sha1 s (suc zero) h fits = omega (arith, fits 1)
  big_endian-to_sha1 s (suc (suc zero)) h fits = omega (arith, fits 2)
  big_endian-to_sha1 s (suc (suc (suc zero))) h fits = omega (arith, fits 3)
  big_endian-to_sha1 s (suc (suc (suc (suc zero)))) h fits = omega (arith, fits 4)
  big_endian-to_sha1 s (suc (suc (suc (suc (suc k))))) h fits = absurd (omega arith)

  -- The answer to a request with the header Sec-WebSocket-Key, whatever the headers in front of the
  -- first one of that name and behind it are: a client that takes whatever is in front of a colon for
  -- a name reads 101, the three headers of the upgrade with the key's digest in base 64, and nothing
  -- behind them, if base 64 has no carriage return. But the first of the three has a null char in front
  -- of its name, the one that ends the literal of the status line.
  pub upgrade_request-accepted :
      (req : Request) (before after : List Header) (key : Bytes)
      → ((bytes : Bytes) → IsLine (to_base64 bytes))
      → All (λ g. same_bytes g.name key_name ≡ false) before
      → req.headers ≡ before ++ record { name = key_name; value = key } ∷ after
      → let reply = upgrade_request get_digest to_base64 req in
        (buffers : List Bytes) × ((upgrade_buffers reply.status reply.headers ≡ some buffers)
          × (read_reply (gather buffers)
              ≡ some (record {
                code = 101;
                headers =
                    record { name = 0 ∷ codes "Upgrade"; value = codes "websocket" }
                    ∷ drop 1 (accept_headers get_digest to_base64 key);
                body = [];
              })))
  unfolding upgrade_request upgrade_buffers upgrade_line header_buffers gather
  upgrade_request-accepted req before after key line others headers =
      let found : find_key req.headers ≡ some key =
        ap find_key headers ∙ find_key-first before after _ others refl in
      let hs = accept_headers get_digest to_base64 key in
      let read : List Header =
        record { name = 0 ∷ codes "Upgrade"; value = codes "websocket" } ∷ drop 1 hs in
      let fields : All IsField read = (
        (is_name-All (0 ∷ codes "Upgrade") refl, is_line-IsLine (codes "websocket") refl),
        (
          (is_name-All (codes "Connection") refl, is_line-IsLine (codes "Upgrade") refl),
          ((is_name-All (codes "Sec-WebSocket-Accept") refl, line _), tt),
        ),
      ) in
      (
        upgrade_line switching_protocols ∷ (header_buffers hs ++ crlf ∷ []),
        (
          rw found refl,
          ap (λ (l : Bytes). read_reply (upgrade_line switching_protocols ++ l))
                (gather-last (header_buffers hs) crlf)
              ∙ read_reply-buffers (status_text switching_protocols) read [] 101 read_code-switching
                  fields,
        ),
      )
