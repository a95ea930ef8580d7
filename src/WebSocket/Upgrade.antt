-- ===== src/WebSocket/Upgrade.antt =====
-- The answer to an upgrade request: reply and request_handler of
-- splice/web_socket/rfc6455_engine.hpp. SHA-1 and the base 64 iterators are Boost's: `get_digest`
-- gives the five words of a digest by their index, `to_base64` is a parameter that Base64 defines.
pub mod Response
pub mod Base64
use splitsen.Base.{
  ℕ, zero, suc, ◌+◌, ◌-◌, ◌*◌, ◌/◌, ◌%◌, ◌^◌, bit_and, Bool, true, false, List, [], ◌∷◌, ◌++◌,
  Bytes, Option, none, some, codes, if◌then◌else◌,
}
use splitsen.Http.Request.{Header, Request}
use splitsen.Http.Reply.{header_buffers, crlf}
use splitsen.Http.MimeTypes.{same_bytes}

pub data UpgradeStatus : Type 0 where
  switching_protocols bad_request internal_server_error : UpgradeStatus

-- `lexical_cast` of a status
unfoldable pub status_name : UpgradeStatus → Bytes
status_name switching_protocols = codes "switching_protocols"
status_name bad_request = codes "bad_request"
status_name internal_server_error = codes "internal_server_error"

pub record UpgradeReply : Type 0 where
  pub status : UpgradeStatus
  pub headers : List Header

abbrev pub status_text : UpgradeStatus → Bytes
status_text switching_protocols = codes "HTTP/1.1 101 Switching Protocols\r\n"
status_text bad_request = codes "HTTP/1.1 400 Bad Request\r\n"
status_text internal_server_error = codes "HTTP/1.1 500 Internal Server Error\r\n"

-- `to_buffer`: the buffer of a string literal, an array of chars, ends with its null char.
unfoldable pub upgrade_line : UpgradeStatus → Bytes
upgrade_line status = status_text status ++ 0 ∷ []

-- `reply::to_buffers`: the assertion on its headers, then the buffers; none where it fails.
unfoldable pub upgrade_buffers : UpgradeStatus → List Header → Option (List Bytes)
unfolding upgrade_line header_buffers
upgrade_buffers status [] = none
upgrade_buffers status (h ∷ hs) =
    some (upgrade_line status ∷ (header_buffers (h ∷ hs) ++ crlf ∷ []))

abbrev pub stock_reply : UpgradeStatus → UpgradeReply
stock_reply status = record { status = status; headers = [] }

abbrev pub key_name : Bytes
key_name = codes "Sec-WebSocket-Key"

-- `find_if` over the headers, and the value of the one that it finds.
unfoldable pub find_key : List Header → Option Bytes
find_key [] = none
find_key (h ∷ hs) =
    let rest = find_key hs in if same_bytes h.name key_name then some h.value else rest

abbrev pub magic_guid : Bytes
magic_guid = codes "258EAFA5-E914-47DA-95CA-C5AB0DC85B11"

-- The loop of `to_sha1` from index `i` on, for the bytes left.
unfoldable pub hash_from : (ℕ → ℕ) → ℕ → ℕ → Bytes
hash_from digest zero i = []
hash_from digest (suc left) i =
    digest (i / 2 ^ 2) / 2 ^ (8 * (3 - bit_and i 3)) % 256 ∷ hash_from digest left (i + 1)

unfoldable pub to_sha1 : (Bytes → ℕ → ℕ) → Bytes → Bytes
unfolding hash_from
to_sha1 get_digest s = hash_from (get_digest s) 20 0

module _ (get_digest : Bytes → ℕ → ℕ) (to_base64 : Bytes → Bytes) where
  abbrev pub accept_headers : Bytes → List Header
  accept_headers key =
      record { name = codes "Upgrade"; value = codes "websocket" }
      ∷ record { name = codes "Connection"; value = codes "Upgrade" }
      ∷ record {
        name = codes "Sec-WebSocket-Accept";
        value = to_base64 (to_sha1 get_digest (key ++ magic_guid));
      }
      ∷ []

  abbrev pub reply_to : Option Bytes → UpgradeReply
  reply_to none = stock_reply bad_request
  reply_to (some key) = record { status = switching_protocols; headers = accept_headers key }

  -- `request_handler::handle_request`
  unfoldable pub upgrade_request : Request → UpgradeReply
  unfolding find_key to_sha1
  upgrade_request req = reply_to (find_key req.headers)
