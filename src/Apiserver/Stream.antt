-- ===== src/Apiserver/Stream.antt =====
-- internal/apiserver/registry/sandbox/rest/stream.go: the streams over the websocket connection of a
-- client that attaches.
use sandbox_mommy.Base.{
  ℕ, ◌≡◌, refl, ap, Option, none, some, ◌⊎◌, inl, inr, List, [], ◌∷◌, map, length, join, take,
  length-take, All,
}
use sandbox_mommy.Stream.{Bytes, IoError, Reading, Writer, copy_buffer}
use sandbox_mommy.Stream.Copy.{Fed, gives, stops, Source}

-- `ReadMessage` and `WriteMessage` of the websocket library: a whole message with its type.
pub record Connection (C : Type 0) : Type 0 where
  pub read_message : C → (IoError ⊎ (ℕ × Bytes)) × C
  pub write_message : ℕ → Bytes → C → Option IoError × C

abbrev pub binary_message : ℕ
binary_message = 2

module _ {C : Type 0} (conn : Connection C) where
  -- `copy(p, msg)` into a buffer of the given length.
  abbrev pub copied : ℕ → (IoError ⊎ (ℕ × Bytes)) × C → Reading × C
  copied len (inl e, c) = (([], some e), c)
  copied len (inr (kind, msg), c) = ((take len msg, none), c)

  abbrev pub stream_read : ℕ → C → Reading × C
  stream_read len c = copied len (conn.read_message c)

  abbrev pub answered : ℕ → Option IoError × C → (ℕ × Option IoError) × C
  answered n (some e, c) = ((0, some e), c)
  answered n (none, c) = ((n, none), c)

  abbrev pub stream_writer : Writer C
  stream_writer = record {
    write = λ p c. answered (length p) (conn.write_message binary_message p c);
  }

-- The connection hands out whole messages in their order and then fails.
pub record Receives {C : Type 0} (conn : Connection C) : Type 0 where
  pub messages : C → List Bytes
  pub ending : C → IoError
  pub ends : (c : C) → messages c ≡ [] → (d : C) × (conn.read_message c ≡ (inl (ending c), d))
  pub arrives :
      (c : C) (p : Bytes) (ps : List Bytes)
      → messages c ≡ p ∷ ps
      → (kind : ℕ) × (d : C) × (conn.read_message c ≡ (inr (kind, p), d))
        × (messages d ≡ ps)
        × (ending d ≡ ending c)

abbrev pub IsFull : Bytes → Type 0
IsFull [] = ⊥
IsFull (_ ∷ _) = Unit

-- As much of each message as a buffer has room for.
abbrev pub cut : List Bytes → Bytes
cut ps = join (map (take copy_buffer) ps)

module _ {C : Type 0} (conn : Connection C) (r : Receives conn) where
  abbrev pub Ready : C → Type 0
  Ready c = All IsFull (r.messages c)

  abbrev pub rest : C → Bytes
  rest c = cut (r.messages c)

  feeds_from :
      (c : C) (ps : List Bytes)
      → r.messages c ≡ ps
      → All IsFull ps
      → (a : Reading × C) × (some (stream_read conn copy_buffer c) ≡ some a)
        × Fed Ready rest r.ending c a
  feeds_from c [] e full =
      let (d, answer) = r.ends c e in
      (
        (([], some (r.ending c)), d),
        ap (λ x. some (copied conn copy_buffer x)) answer,
        stops (rw e refl) refl,
      )
  feeds_from c ([] ∷ ps) e (empty, full) = absurd empty
  feeds_from c ((b ∷ bs) ∷ ps) e (_, full) =
      let (kind, d, answer, after, same) = r.arrives c (b ∷ bs) ps e in
      (
        ((take copy_buffer (b ∷ bs), none), d),
        ap (λ x. some (copied conn copy_buffer x)) answer,
        gives {t = d} (rw (e, after) refl) same (length-take copy_buffer (b ∷ bs)) (rw after full),
      )

  pub feeds :
      (c : C)
      → Ready c
      → (a : Reading × C) × (some (stream_read conn copy_buffer c) ≡ some a)
        × Fed Ready rest r.ending c a
  feeds c full = feeds_from c (r.messages c) refl full

  abbrev pub stream_source : Source (λ c. some (stream_read conn copy_buffer c))
  stream_source = record { Ready = Ready; rest = rest; finish = r.ending; feeds = feeds }
