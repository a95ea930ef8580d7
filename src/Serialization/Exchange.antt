-- ===== src/Serialization/Exchange.antt =====
-- What one serialization_session writes, another reads.
use splitsen.Base.{
  drop-append, ℕ, ◌<◌, ◌≤◌, ◌^◌, [], ◌∷◌, ◌++◌, Bytes, Option, some, false, leb, length, take, drop,
  ==_iff, arith, ◌≡◌, refl, sym, ap, ◌∙◌,
}
use splitsen.Tcp.{on_error}
use splitsen.Serialization.{
  SerializationSession, vector_limit, for_header, for_data, nothing, arrived, header_length,
  header_text, read_size, async_write, on_read_header, on_read_data, dispatch_to, dispatch,
}
use splitsen.Serialization.Header.{read_size-header, format_header-large}

take-append : (xs ys : Bytes) → take (length xs) (xs ++ ys) ≡ xs
take-append [] ys = refl
take-append (x ∷ xs) ys = ap (λ (l : Bytes). x ∷ l) (take-append xs ys)

below_limit : (n : ℕ) → n < 16 ^ 8 → leb vector_limit n ≡ false
below_limit n h = ground (arith, h)

module _ {Msg : Type 0} (save : Msg → Bytes) (load : Bytes → Option Msg)
    (s : SerializationSession Msg) where
  -- The two reads of a message.
  header_step :
      (header : Bytes) (n : ℕ)
      → s.waiting ≡ for_header
      → length header ≡ header_length
      → read_size header ≡ some n
      → leb vector_limit n ≡ false
      → dispatch save load (arrived header) s ≡ record s { waiting = for_data n }
  unfolding dispatch dispatch_to on_read_header
  header_step header n waits eight size fits = rw (waits, eight, size, fits) refl

  data_step :
      (archive : Bytes) (msg : Msg)
      → s.waiting ≡ for_data (length archive)
      → load archive ≡ some msg
      → dispatch save load (arrived archive) s
        ≡ record s { waiting = nothing; delivered = s.delivered ++ msg ∷ [] }
  unfolding dispatch dispatch_to on_read_data
  data_step archive msg waits loaded =
      rw (waits, (==_iff (length archive) (length archive)).1 refl, loaded) refl

  -- An archive of less than 2^32 bytes is written behind its header.
  pub async_write-fits :
      (msg : Msg)
      → length (save msg) < 16 ^ 8
      → (async_write save load msg s).written
        ≡ s.written ++ (header_text (length (save msg)) ++ save msg)
  unfolding async_write
  async_write-fits msg fits = rw ((read_size-header (length (save msg)) fits).0) refl

  -- An archive of 2^32 bytes or more is not written at all: the session reports an error, and with
  -- that it shuts its socket down.
  pub async_write-large :
      (msg : Msg)
      → 16 ^ 8 ≤ length (save msg)
      → async_write save load msg s ≡ record s { tcp = on_error s.tcp }
  unfolding async_write
  async_write-large msg large = rw (format_header-large (length (save msg)) large) refl

module _ {Msg : Type 0} (save : Msg → Bytes) (load : Bytes → Option Msg) where
  -- The bytes of a message, in two reads.
  pub read_wire :
      (msg : Msg) (s : SerializationSession Msg)
      → ((m : Msg) → load (save m) ≡ some m)
      → length (save msg) < 16 ^ 8
      → s.waiting ≡ for_header
      → let wire = header_text (length (save msg)) ++ save msg in
        (dispatch save load (arrived (take 8 wire)) s
          ≡ record s { waiting = for_data (length (save msg)) })
        × (dispatch save load
              (arrived (drop 8 wire))
              (record s { waiting = for_data (length (save msg)) })
            ≡ record s { waiting = nothing; delivered = s.delivered ++ msg ∷ [] })
  read_wire msg s loads fits waits =
      let (formatted, (eight, size)) = read_size-header (length (save msg)) fits in
      let header = header_text (length (save msg)) in
      let first : take 8 (header ++ save msg) ≡ header =
        ap (λ (k : ℕ). take k (header ++ save msg)) (sym eight) ∙ take-append header (save msg) in
      let rest : drop 8 (header ++ save msg) ≡ save msg =
        ap (λ (k : ℕ). drop k (header ++ save msg)) (sym eight) ∙ drop-append header (save msg) in
      (
        ap (λ bytes. dispatch save load (arrived bytes) s) first
            ∙ header_step save load s header (length (save msg)) waits eight size
                (below_limit (length (save msg)) fits),
        ap
              (λ bytes.
                dispatch save load (arrived bytes)
                  (record s { waiting = for_data (length (save msg)) }))
              rest
            ∙ data_step save load (record s { waiting = for_data (length (save msg)) }) (save msg)
                msg refl (loads msg),
      )

  -- A message whose archive has less than 2^32 bytes, written by a session that wrote nothing before,
  -- in two reads, of the first eight bytes and of the rest, at a session that waits for a header,
  -- whose archives load what was saved: that session is told of just that message, and waits for
  -- nothing until it is asked to read again.
  pub exchange :
      (msg : Msg) (sender receiver : SerializationSession Msg)
      → ((m : Msg) → load (save m) ≡ some m)
      → length (save msg) < 16 ^ 8
      → sender.written ≡ []
      → receiver.waiting ≡ for_header
      → let wire = (async_write save load msg sender).written in
        dispatch save load
          (arrived (drop 8 wire))
          (dispatch save load (arrived (take 8 wire)) receiver)
        ≡ record receiver { waiting = nothing; delivered = receiver.delivered ++ msg ∷ [] }
  exchange msg sender receiver loads fits empty waits =
      let written = async_write-fits save load sender msg fits in
      let wire = header_text (length (save msg)) ++ save msg in
      let (header, archive) = read_wire msg receiver loads fits waits in
      rw (written, empty) (ap (dispatch save load (arrived (drop 8 wire))) header ∙ archive)
