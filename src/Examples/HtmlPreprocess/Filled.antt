-- ===== src/Examples/HtmlPreprocess/Filled.antt =====
-- The replacing of a placeholder: where the key occurs first, and nowhere else.
use splitsen.Base.{
  ℕ, suc, ◌≤◌, true, false, [], ◌∷◌, ◌++◌, Bytes, some, length, drop, codes, All, All-concat,
  Bool-cases, Option-cases, inl, inr, ◌≡◌, ◌≢◌, refl, sym, ap, ◌∙◌, arith,
}
use splitsen.Handshake.{starts_with}
use splitsen.WebSocket.Handshake.Accept.{starts_with_self}
use splitsen.Http.RequestHandler.{c_str}
use splitsen.Http.RequestHandler.Replies.{c_str-whole}
use splitsen.Examples.HtmlPreprocess.{replace_first, replace_all, placeholders}

starts_with-drop :
    (key text : Bytes) → starts_with key text ≡ true → text ≡ key ++ drop (length key) text
unfolding starts_with
starts_with-drop [] text h = refl
starts_with-drop (k ∷ key) [] h = absurd (ground arith)
starts_with-drop (k ∷ key) (c ∷ cs) h =
    let head : k ≡ c = ground (arith, h) in
    let tail : starts_with key cs ≡ true = ground (arith, h) in
    ap (λ l. c ∷ l) (starts_with-drop key cs tail)
    ∙ ap (λ x. x ∷ (key ++ drop (length key) cs)) (sym head)

-- `out` is the text with the value in place of the key's first occurrence.
abbrev pub ReplacedFirst : Bytes → Bytes → Bytes → Bytes → Type 0
ReplacedFirst key value text out =
    (front : Bytes) × (behind : Bytes) × (text ≡ front ++ (key ++ behind))
    × (out ≡ front ++ (value ++ behind))
    × ((before after : Bytes) → text ≡ before ++ (key ++ after) → length front ≤ length before)

earlier :
    (key : Bytes) (c : ℕ) (cs front : Bytes)
    → starts_with key (c ∷ cs) ≡ false
    → ((before after : Bytes) → cs ≡ before ++ (key ++ after) → length front ≤ length before)
    → (before after : Bytes) → c ∷ cs ≡ before ++ (key ++ after)
    → suc (length front) ≤ length before
earlier key c cs front none_here first [] after e =
    absurd (ground (arith, none_here, starts_with_self key after, ap (starts_with key) e))
earlier key c cs front none_here first (b ∷ before) after e =
    let tail : cs ≡ before ++ (key ++ after) = ap (drop 1) e in
    omega (arith, first before after tail)

pub replace_first-ReplacedFirst :
    (key value text out : Bytes)
    → replace_first key value text ≡ some out
    → ReplacedFirst key value text out
unfolding replace_first
replace_first-ReplacedFirst key value [] out e = absurd cc
replace_first-ReplacedFirst key value (c ∷ cs) out e =
    elim (Bool-cases (starts_with key (c ∷ cs))) [
      | inl here ↦ (
        [],
        drop (length key) (c ∷ cs),
        starts_with-drop key (c ∷ cs) here,
        ground (arith, e, here),
        (λ before after h. omega arith),
      )
      | inr none_here ↦ elim (Option-cases (replace_first key value cs)) [
        | inl never ↦ absurd (ground (arith, e, none_here, never))
        | inr (rest, later) ↦
            let (front, behind, whole, made, first) =
              replace_first-ReplacedFirst key value cs rest later in
            let out_is : out ≡ c ∷ rest = ground (arith, e, none_here, later) in
            (
              c ∷ front,
              behind,
              ap (λ l. c ∷ l) whole,
              out_is ∙ ap (λ l. c ∷ l) made,
              earlier key c cs front none_here first,
            )
      ]
    ]

abbrev pub HasNoNull : Bytes → Type 0
HasNoNull bytes = All (λ c. c ≢ 0) bytes

-- The html text with the quoted host in place of "value_of_hostName", and then the port in place of
-- "value_of_portNumber".
abbrev pub IsFilled : Bytes → Bytes → Bytes → Bytes → Type 0
IsFilled host port text out =
    (named : Bytes) × ReplacedFirst (codes "value_of_hostName") (codes "\"" ++ (host ++ codes "\""))
      text named
    × ReplacedFirst (codes "value_of_portNumber") port named out

pub replace_all-IsFilled :
    (host port text out : Bytes)
    → HasNoNull host
    → HasNoNull port
    → replace_all (placeholders host port) text ≡ some out
    → IsFilled host port text out
unfolding replace_all
replace_all-IsFilled host port text out host_whole port_whole e =
    let host_key = codes "value_of_hostName" in
    let port_key = codes "value_of_portNumber" in
    let quoted = codes "\"" ++ (host ++ codes "\"") in
    let quoted_whole = c_str-whole quoted (
      (λ z. omega (arith, z)),
      All-concat (λ c. c ≢ 0) host b'"' host_whole (λ z. omega (arith, z)),
    ) in
    let port_is = c_str-whole port port_whole in
    elim (Option-cases (replace_first host_key (c_str quoted) text)) [
      | inl never ↦ absurd (ground (arith, e, never))
      | inr (named, first) ↦ elim (Option-cases (replace_first port_key (c_str port) named)) [
        | inl never ↦ absurd (ground (arith, e, first, never))
        | inr (made, second) ↦
            let out_is : out ≡ made = ground (arith, e, first, second) in
            (
              named,
              replace_first-ReplacedFirst host_key quoted text named
                  (ap (λ v. replace_first host_key v text) (sym quoted_whole) ∙ first),
              replace_first-ReplacedFirst port_key port named out (
                  ap (λ v. replace_first port_key v named) (sym port_is)
                  ∙ second
                  ∙ ap some (sym out_is)),
            )
      ]
    ]
