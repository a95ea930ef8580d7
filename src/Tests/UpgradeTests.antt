-- ===== src/Tests/UpgradeTests.antt =====
-- An upgrade request, with a digest and an encoding made up for it.
use splitsen.Base.{
  zero, suc, ◌*◌, ◌/◌, ◌++◌, take, drop, length, ℕ, ◌+◌, ◌%◌, List, [], ◌∷◌, Bytes, some, codes,
  ◌≡◌, refl, arith,
}
use splitsen.Http.Request.{Header, Request, new_request}
use splitsen.Http.Reply.Wire.{read_reply, gather}
use splitsen.Http.RequestHandler.Framing.{IsLine}
use splitsen.WebSocket.Upgrade.Base64.{sextets, chars, to_base64, to_base64-to_sha1}
use splitsen.WebSocket.Upgrade.{
  to_sha1, magic_guid, accept_headers, upgrade_request, upgrade_buffers, key_name,
}
use splitsen.WebSocket.Upgrade.Response.{upgrade_request-accepted}

abbrev words : Bytes → ℕ → ℕ
words s i = i % 7 + 305419896

abbrev letters : Bytes → Bytes
letters [] = []
letters (b ∷ bs) = (b'A' + b % 26) ∷ letters bs

letters-IsLine : (bs : Bytes) → IsLine (letters bs)
letters-IsLine [] = tt
letters-IsLine (b ∷ bs) = ((λ e. omega arith), letters-IsLine bs)

abbrev host : Header
host = record { name = codes "Host"; value = codes "a" }

abbrev key_header : Header
key_header = record { name = key_name; value = codes "dGhl" }

abbrev request : Request
request = record (new_request 1 1) {
  method = codes "GET";
  uri = codes "/";
  headers = host ∷ key_header ∷ [];
}

upgrade_request-accepted_example :
    let reply = upgrade_request words letters request in
    (buffers : List Bytes) × ((upgrade_buffers reply.status reply.headers ≡ some buffers)
      × (read_reply (gather buffers)
          ≡ some (record {
            code = 101;
            headers =
                record { name = 0 ∷ codes "Upgrade"; value = codes "websocket" }
                ∷ drop 1 (accept_headers words letters (codes "dGhl"));
            body = [];
          })))
upgrade_request-accepted_example =
    upgrade_request-accepted words letters request (host ∷ []) [] (codes "dGhl") letters-IsLine
      (refl, tt) refl

-- The digest of the example of RFC 6455, and iterators as they are documented.
abbrev sample_digest : Bytes → ℕ → ℕ
sample_digest s zero = 0xb37a4f2c
sample_digest s (suc zero) = 0xc0624f16
sample_digest s (suc (suc zero)) = 0x90f64606
sample_digest s (suc (suc (suc zero))) = 0xcf385945
sample_digest s _ = 0xb2bec4ea

abbrev iterators : Bytes → ℕ → Bytes
iterators buff n = chars (take ((8 * n + 5) / 6) (sextets buff))

to_base64-to_sha1_example :
    (to_base64 iterators (to_sha1 sample_digest (codes "dGhlIHNhbXBsZSBub25jZQ==" ++ magic_guid))
      ≡ some (codes "s3pPLMBiTxaQ9kYGzzhZRbK+xOo="))
    × (length (codes "s3pPLMBiTxaQ9kYGzzhZRbK+xOo=") ≡ 28)
to_base64-to_sha1_example =
    to_base64-to_sha1 iterators (λ buff n thirds within short. refl) sample_digest
      (codes "dGhlIHNhbXBsZSBub25jZQ==")
