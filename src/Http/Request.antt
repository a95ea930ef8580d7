-- ===== src/Http/Request.antt =====
-- splice/http/header.hpp and request.hpp: the request that the parser fills, and the ways in which
-- it does so.
use splitsen.Base.{ℕ, List, [], ◌∷◌, ◌++◌, Bytes, ◌≡◌, refl, Option, none, some}

pub record Header : Type 0 where
  pub name : Bytes
  pub value : Bytes

pub record Request : Type 0 where
  pub method : Bytes
  pub uri : Bytes
  pub http_version_major : ℕ
  pub http_version_minor : ℕ
  pub headers : List Header

-- The request that `request req;` declares, with both numbers as the memory holds them.
unfoldable pub new_request : ℕ → ℕ → Request
new_request major minor = record {
  method = [];
  uri = [];
  http_version_major = major;
  http_version_minor = minor;
  headers = [];
}

-- `std::vector::back()` changed by `f`; `none` on the empty vector, where it is undefined.
unfoldable pub update_back : (Header → Header) → List Header → Option (List Header)
update_back f [] = none
update_back f (h ∷ []) = some (f h ∷ [])
update_back f (h ∷ g ∷ hs) = elim (update_back f (g ∷ hs)) [ none ↦ none | some t ↦ some (h ∷ t) ]

abbrev pub push_name : ℕ → Header → Header
push_name c h = record h { name = h.name ++ c ∷ [] }

abbrev pub push_value : ℕ → Header → Header
push_value c h = record h { value = h.value ++ c ∷ [] }

pub update_back-append :
    (f : Header → Header) (hs : List Header) (h : Header)
    → update_back f (hs ++ h ∷ []) ≡ some (hs ++ f h ∷ [])
unfolding update_back
update_back-append f [] h = refl
update_back-append f (a ∷ []) h = refl
update_back-append f (a ∷ b ∷ hs) h =
    let ih : update_back f (b ∷ (hs ++ h ∷ [])) ≡ some (b ∷ (hs ++ f h ∷ [])) =
      update_back-append f (b ∷ hs) h in
    λ i. elim (ih i) [ none ↦ none | some t ↦ some (a ∷ t) ]
