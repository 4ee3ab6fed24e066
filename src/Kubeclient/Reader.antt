-- ===== src/Kubeclient/Reader.antt =====
-- api/client/kubeclient/websocket.go: what a reader of the connection sees of the messages.
use sandbox_mommy.Base.{
  ℕ, suc, ◌<◌, ◌≤◌, ◌≡◌, refl, ◌∙◌, Option, none, some, List, [], ◌∷◌, ◌++◌, inl, inr, Bool-cases,
  length, if◌then◌else◌, arith,
}
use mathlib.Core.List.{append_assoc}
use sandbox_mommy.Base.Int.{eqb}
use sandbox_mommy.Loop.{Step, Sound, turns, leaves, loop_ends}
use sandbox_mommy.Stream.{Bytes, IoError, eof, close_error, fault, Reading, copy_buffer}
use sandbox_mommy.Stream.Copy.{Fed, gives, stops, Source}
use sandbox_mommy.Kubeclient.{
  convert, binary_message, close_message, Socket, BinaryReader, binary_case, on_type, read_round,
  read,
}

-- A message on the connection.
pub record Frame : Type 0 where
  pub kind : ℕ
  pub payload : Bytes

-- The reader that `CopyFrom` makes.
abbrev pub fresh : {C M : Type 0} → C → BinaryReader C M
fresh c = record { conn = c; reader = none }

-- The bytes that the messages carry to the reader: those of the binary ones, up to a message that
-- closes the stream.
abbrev pub stream_bytes : List Frame → Bytes
stream_bytes [] = []
stream_bytes (f ∷ fs) =
    if eqb f.kind binary_message
    then f.payload ++ stream_bytes fs
    else if eqb f.kind close_message
    then []
    else stream_bytes fs

-- `io.EOF` for a normal closure.
abbrev pub final_error : IoError → IoError
final_error eof = eof
final_error (close_error code) = if eqb code 1000 then eof else close_error code
final_error (fault text) = fault text

abbrev pub stream_end : IoError → List Frame → IoError
stream_end e [] = final_error e
stream_end e (f ∷ fs) =
    if eqb f.kind binary_message
    then stream_end e fs
    else if eqb f.kind close_message
    then eof
    else stream_end e fs

-- What `Read` on an open message gives, where `left` is still to come of it: some bytes, or with
-- the last of them, or after them, `io.EOF`.
pub data Gives (left : Bytes) : Bytes → Option IoError → Type 0 where
  more : {b : ℕ} {bs : Bytes} → Gives left (b ∷ bs) none
  last : {bs : Bytes} → left ≡ [] → Gives left bs (some eof)

-- The connection delivers messages in their order and then fails for good: what the documentation of the websocket
-- library and of `io.Reader` says of `NextReader` and `Read`.
pub record Delivers {C M : Type 0} (socket : Socket C M) : Type 0 where
  pub frames : C → List Frame
  pub ending : C → IoError
  pub pending : M → C → Bytes
  pub ends : (c : C) → frames c ≡ [] → (d : C) × (socket.next_reader c ≡ (inl (ending c), d))
  pub opens :
      (c : C) (f : Frame) (fs : List Frame)
      → frames c ≡ f ∷ fs
      → (m : M) × (d : C) × (socket.next_reader c ≡ (inr (f.kind, m), d))
        × (frames d ≡ fs)
        × (ending d ≡ ending c)
        × (pending m d ≡ f.payload)
  pub reads :
      (m : M) (c : C) (len : ℕ)
      → 0 < len
      → (bs : Bytes) × (e : Option IoError) × (d : C) × (socket.read_message m len c ≡ ((bs, e), d))
        × (frames d ≡ frames c)
        × (ending d ≡ ending c)
        × (pending m c ≡ bs ++ pending m d)
        × (length bs ≤ len)
        × Gives (pending m d) bs e

dropped :
    {all left : Bytes} (bs after : Bytes)
    → all ≡ bs ++ (left ++ after)
    → left ≡ []
    → all ≡ bs ++ after
dropped bs after r p = rw (r, p) refl

convert_lem : (e : IoError) → convert (some e) ≡ some (final_error e)
convert_lem eof = refl
convert_lem (close_error code) = ground arith
convert_lem (fault text) = refl

module _ {C M : Type 0} (socket : Socket C M) (d : Delivers socket) (bound : ℕ) where
  -- The bytes still to come from a reader, and the error after them.
  abbrev rest_of : Option M → C → Bytes
  rest_of none c = stream_bytes (d.frames c)
  rest_of (some m) c = d.pending m c ++ stream_bytes (d.frames c)

  abbrev rest : BinaryReader C M → Bytes
  rest s = rest_of s.reader s.conn

  abbrev finish : BinaryReader C M → IoError
  finish s = stream_end (d.ending s.conn) (d.frames s.conn)

  -- The messages still to read, the open one included.
  abbrev size_of : Option M → C → ℕ
  size_of none c = length (d.frames c)
  size_of (some m) c = suc (length (d.frames c))

  abbrev size : BinaryReader C M → ℕ
  size s = size_of s.reader s.conn

  abbrev Ready : BinaryReader C M → Type 0
  Ready s = size s < bound

  abbrev Served : BinaryReader C M → Reading × BinaryReader C M → Type 0
  Served = Fed Ready rest finish

  abbrev Keeps : BinaryReader C M → Step (BinaryReader C M) (Reading × BinaryReader C M) → Type 0
  Keeps = Sound Ready Served size

  -- A round that reads no bytes changes nothing of what is to come.
  Served-from :
      (s t : BinaryReader C M) (a : Reading × BinaryReader C M)
      → rest s ≡ rest t
      → finish t ≡ finish s
      → Served t a
      → Served s a
  Served-from s t _ r f (gives p q room k) = gives (r ∙ p) (q ∙ f) room k
  Served-from s t _ r f (stops p e) = stops (r ∙ p) (e ∙ f)

  filled :
      (s : BinaryReader C M) (m : M) (c : C) (bs : Bytes) (e : Option IoError)
      → rest s ≡ bs ++ (d.pending m c ++ stream_bytes (d.frames c))
      → finish (fresh c) ≡ finish s
      → length (d.frames c) < size s
      → Ready s
      → length bs ≤ copy_buffer
      → Gives (d.pending m c) bs e
      → Keeps s (binary_case socket copy_buffer m ((bs, e), c))
  filled s m c _ _ r f h k room more = leaves (gives r f room (omega arith))
  filled s m c [] _ r f h k room (last p) =
      turns (omega arith) h (λ a. Served-from s _ a (dropped [] _ r p) f)
  filled s m c (b ∷ bs) _ r f h k room (last p) =
      leaves (gives (dropped (b ∷ bs) _ r p) f room (omega arith))

  binary_sound :
      (s : BinaryReader C M) (m : M) (c : C)
      → rest s ≡ d.pending m c ++ stream_bytes (d.frames c)
      → finish (fresh c) ≡ finish s
      → length (d.frames c) < size s
      → Ready s
      → Keeps s (binary_case socket copy_buffer m (socket.read_message m copy_buffer c))
  binary_sound s m c r f h k =
      let (bs, e, t, answer, same, ended, split, room, gift) =
        d.reads m c copy_buffer (omega arith) in
      rw answer (
        filled s m t bs e (rw (r, split, same) (append_assoc bs (d.pending m t) _))
          (rw (ended, same) f) (rw same h) k room gift)

  typed_sound :
      (c t : C) (m : M) (f : Frame) (fs : List Frame)
      → d.frames c ≡ f ∷ fs
      → d.frames t ≡ fs
      → d.ending t ≡ d.ending c
      → d.pending m t ≡ f.payload
      → Ready (fresh c)
      → Keeps (fresh c) (on_type socket copy_buffer f.kind m t)
  typed_sound c t m f fs before after ended full ready =
      let fewer : length (d.frames t) < length (d.frames c) = rw (before, after) (omega arith) in
      elim (Bool-cases (eqb f.kind binary_message)) [
        | inl k ↦ rw k (
            binary_sound (fresh c) m t (rw (before, k, full, after) refl)
              (rw (before, k, ended, after) refl) fewer ready)
        | inr k ↦ elim (Bool-cases (eqb f.kind close_message)) [
          | inl q ↦ rw (k, q) (leaves (stops (rw (before, k, q) refl) (rw (before, k, q) refl)))
          | inr q ↦
              rw (k, q)
                (turns (omega arith) fewer (λ a.
                  Served-from (fresh c) (fresh t) a (rw (before, k, q, after) refl)
                    (rw (before, k, q, after, ended) refl)))
        ]
      ]

  unopened_sound :
      (c : C) (fs : List Frame)
      → d.frames c ≡ fs
      → Ready (fresh c)
      → Keeps (fresh c) (read_round socket copy_buffer none c)
  unopened_sound c [] e ready =
      let (t, answer) = d.ends c e in
      rw answer (leaves (rw (convert_lem (d.ending c)) (stops (rw e refl) (rw e refl))))
  unopened_sound c (f ∷ fs) e ready =
      let (m, t, answer, after, ended, full) = d.opens c f fs e in
      rw answer (typed_sound c t m f fs e after ended full ready)

  read_round-Keeps :
      (r : Option M) (c : C)
      → Ready (record { conn = c; reader = r })
      → Keeps (record { conn = c; reader = r }) (read_round socket copy_buffer r c)
  read_round-Keeps none c ready = unopened_sound c (d.frames c) refl ready
  read_round-Keeps (some m) c ready =
      binary_sound (record { conn = c; reader = some m }) m c refl refl (omega arith) ready

  pub read_ends :
      (s : BinaryReader C M)
      → Ready s
      → (a : Reading × BinaryReader C M) × (read socket copy_buffer bound s ≡ some a) × Served s a
  read_ends s k =
      loop_ends Ready Served size _ (λ (t : BinaryReader C M) j. read_round-Keeps t.reader t.conn j)
        bound s k k

  -- The reader of a connection, as a source: its `Read` ends within the messages that are left.
  abbrev pub reader_source : Source (read socket copy_buffer bound)
  reader_source = record { Ready = Ready; rest = rest; finish = finish; feeds = read_ends }
