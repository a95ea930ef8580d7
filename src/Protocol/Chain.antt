-- ===== src/Protocol/Chain.antt =====
-- on_handshake_fail of multi_protocol (splice/multi_protocol.hxx), over any `do_next_handshake`: the
-- sessions of the protocols below an index are tried, one after the other, each with what the one
-- before it handed on.
use splitsen.Base.{ℕ, zero, suc, ◌<◌, ◌⊎◌, inl, inr, ◌≡◌, refl, arith}
use splitsen.Handshake.{HandShakeData}

-- A session's handshake keeps the socket, for good or until its next read or write, or hands it on.
pub data Tried {ℓ} (S : Type ℓ) : Type ℓ where
  kept : S → Tried S
  refused : HandShakeData → Tried S

-- The protocol's index and its session, or what was logged behind "Unable to connect:".
pub data Taken {ℓ} (S : Type ℓ) : Type ℓ where
  taken : ℕ → S → Taken S
  dropped : HandShakeData → Taken S

abbrev pub after {ℓ} : {S : Type ℓ} → ℕ → Tried S → (HandShakeData → Taken S) → Taken S
after i (kept s) fail = taken i s
after i (refused d) fail = fail d

-- The recursion is through the handler that `do_next_handshake` is given.
unfoldable pub on_handshake_fail {ℓ} :
    {S : Type ℓ} → (ℕ → HandShakeData → Tried S) → ℕ → HandShakeData → Taken S
on_handshake_fail next zero d = dropped d
on_handshake_fail next (suc i) d = after i (next i d) (λ d'. on_handshake_fail next i d')

module _ {ℓ} {S : Type ℓ} (next : ℕ → HandShakeData → Tried S) where
  -- The protocols from below one index down to another refuse, the last of them with `d'`.
  pub data Refuses : ℕ → HandShakeData → ℕ → HandShakeData → Type ℓ where
    all_asked : (i : ℕ) (d : HandShakeData) → Refuses i d i d
    asked :
        (i : ℕ) (d d' : HandShakeData) (j : ℕ) (d'' : HandShakeData)
        → next i d ≡ refused d'
        → Refuses i d' j d''
        → Refuses (suc i) d j d''

  -- A protocol below the index keeps what reaches it.
  pub record TakenBy (n : ℕ) (d : HandShakeData) (j : ℕ) (s : S) : Type ℓ where
    pub below : j < n
    pub reached : HandShakeData
    pub refuses : Refuses n d (suc j) reached
    pub keeps : next j reached ≡ kept s
    pub gives : on_handshake_fail next n d ≡ taken j s

  -- All of them refuse.
  pub record DroppedBy (n : ℕ) (d : HandShakeData) : Type ℓ where
    pub left : HandShakeData
    pub refuses : Refuses n d zero left
    pub gives : on_handshake_fail next n d ≡ dropped left

  abbrev pub Ends : ℕ → HandShakeData → Type ℓ
  Ends n d = ((j : ℕ) × (s : S) × TakenBy n d j s) ⊎ DroppedBy n d

  -- The next protocol refuses.
  Ends-asked : (i : ℕ) (d d' : HandShakeData) → next i d ≡ refused d' → Ends i d' → Ends (suc i) d
  unfolding on_handshake_fail
  Ends-asked i d d' e (inl (j, s, t)) = inl (
    j,
    s,
    record {
      below = (let b = t.below in omega (arith, b));
      reached = t.reached;
      refuses = asked i d d' (suc j) t.reached e t.refuses;
      keeps = t.keeps;
      gives = rw e t.gives;
    },
  )
  Ends-asked i d d' e (inr t) = inr (record {
    left = t.left;
    refuses = asked i d d' zero t.left e t.refuses;
    gives = rw e t.gives;
  })

  Ends-tried :
      (i : ℕ) (d : HandShakeData) (r : Tried S)
      → next i d ≡ r
      → ((d' : HandShakeData) → Ends i d')
      → Ends (suc i) d
  unfolding on_handshake_fail
  Ends-tried i d (kept s) e below = inl (
    i,
    s,
    record {
      below = omega arith;
      reached = d;
      refuses = all_asked (suc i) d;
      keeps = e;
      gives = rw e refl;
    },
  )
  Ends-tried i d (refused d') e below = Ends-asked i d d' e (below d')

  -- From any index and on any data the chain of handshakes comes to an end: the socket is with a
  -- protocol below the index that keeps it, and all between refused it, in order of the indices and each
  -- given what the one before handed on; or all below the index refused it, and it is dropped.
  pub on_handshake_fail-Ends : (n : ℕ) (d : HandShakeData) → Ends n d
  unfolding on_handshake_fail
  on_handshake_fail-Ends zero d =
      inr (record { left = d; refuses = all_asked zero d; gives = refl })
  on_handshake_fail-Ends (suc i) d =
      Ends-tried i d (next i d) refl (λ d'. on_handshake_fail-Ends i d')
