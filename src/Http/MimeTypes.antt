-- ===== src/Http/MimeTypes.antt =====
-- http::server::mime_types (splice/http/mime_types.hxx).
use splitsen.Base.{Bool, true, false, ◌&&◌, List, [], ◌∷◌, ◌==◌, if◌then◌else◌, Bytes, codes}

pub record Mapping : Type 0 where
  pub extension : Bytes
  pub mime_type : Bytes

-- The table, up to the entry that marks its end.
abbrev pub mappings : List Mapping
mappings =
    record { extension = codes "gif"; mime_type = codes "image/gif" }
    ∷ record { extension = codes "htm"; mime_type = codes "text/html" }
    ∷ record { extension = codes "html"; mime_type = codes "text/html" }
    ∷ record { extension = codes "jpg"; mime_type = codes "image/jpeg" }
    ∷ record { extension = codes "png"; mime_type = codes "image/png" }
    ∷ []

abbrev pub same_bytes : Bytes → Bytes → Bool
same_bytes [] [] = true
same_bytes [] (b ∷ ys) = false
same_bytes (a ∷ xs) [] = false
same_bytes (a ∷ xs) (b ∷ ys) = a == b && same_bytes xs ys

-- The loop over the table, from `m` on.
unfoldable pub look_up : List Mapping → Bytes → Bytes
look_up [] extension = codes "text/plain"
look_up (m ∷ ms) extension =
    let rest = look_up ms extension in
    if same_bytes m.extension extension then m.mime_type else rest

unfoldable pub extension_to_type : Bytes → Bytes
unfolding look_up
extension_to_type extension = look_up mappings extension
