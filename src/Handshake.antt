-- ===== src/Handshake.antt =====
-- hand_shake_data_t (splice/common_types.hpp): the bytes of a read that a session hands on with its
-- socket when they are not of its protocol, and the stage that they belong to.
use splitsen.Base.{Bool, true, false, ◌&&◌, ◌||◌, [], ◌∷◌, Bytes, codes, ◌==◌}

pub data HandShake : Type 0 where
  http web_socket ws_guid none : HandShake

-- `lexical_cast` of a stage
unfoldable pub name_of : HandShake → Bytes
name_of http = codes "http"
name_of web_socket = codes "web_socket"
name_of ws_guid = codes "ws_guid"
name_of none = codes "none"

-- `data_` up to `size_`, and `tag_`.
pub record HandShakeData : Type 0 where
  pub tag : HandShake
  pub data_string : Bytes

-- `std::string::find` of one string in another: whether it is there at all.
unfoldable pub starts_with : Bytes → Bytes → Bool
starts_with [] text = true
starts_with (k ∷ ks) [] = false
starts_with (k ∷ ks) (c ∷ cs) = k == c && starts_with ks cs

unfoldable pub contains : Bytes → Bytes → Bool
unfolding starts_with
contains key [] = starts_with key []
contains key (c ∷ cs) = starts_with key (c ∷ cs) || contains key cs
