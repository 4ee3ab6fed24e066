-- ===== src/Kubeclient.antt =====
-- api/client/kubeclient/websocket.go: the reader and the writer over a websocket connection, and
-- the two copiers made of them.
pub mod Reader
pub mod Delivery
pub mod Request
pub mod Attach
pub mod Attempts
pub mod Client
use sandbox_mommy.Base.{
  ℕ, ◌+◌, String, Bool, true, false, Option, none, some, List, [], ◌∷◌, ◌⊎◌, inl, inr, length,
  if◌then◌else◌,
}
use sandbox_mommy.Base.Int.{eqb, ltb}
use sandbox_mommy.Stream.{
  Bytes, IoError, eof, close_error, fault, Reading, Writer, Copying, Copied, copy, copy_buffer,
}
use sandbox_mommy.Loop.{Step, again, leave, loop}

-- The constants of the websocket library that the code names.
abbrev pub binary_message : ℕ
binary_message = 2

abbrev pub close_message : ℕ
close_message = 8

abbrev pub close_normal_closure : ℕ
close_normal_closure = 1000

abbrev pub convert : Option IoError → Option IoError
convert none = none
convert (some (close_error code)) =
    if eqb code close_normal_closure then some eof else some (close_error code)
convert (some e) = some e

-- The websocket library, over the state `C` of a connection: `NextReader` opens the next message,
-- with its type, and `Read` on it fills a buffer of the given length. `M` are the open messages.
pub record Socket (C M : Type 0) : Type 0 where
  pub next_reader : C → (IoError ⊎ (ℕ × M)) × C
  pub read_message : M → ℕ → C → (Bytes × Option IoError) × C

pub record BinaryReader (C M : Type 0) : Type 0 where
  pub conn : C
  pub reader : Option M

module _ {C M : Type 0} (socket : Socket C M) (len : ℕ) where
  abbrev pub Round : Type 0
  Round = Step (BinaryReader C M) (Reading × BinaryReader C M)

  -- `case websocket.BinaryMessage`, with what the message's `Read` gave.
  abbrev pub binary_case : M → Reading × C → Round
  binary_case m ((bs, none), c) = leave ((bs, none), record { conn = c; reader = some m })
  binary_case m (([], some eof), c) = again (record { conn = c; reader = none })
  binary_case m ((b ∷ bs, some eof), c) = leave ((b ∷ bs, none), record { conn = c; reader = none })
  binary_case m ((bs, some e), c) =
      leave ((bs, convert (some e)), record { conn = c; reader = none })

  -- The `switch msgType`.
  abbrev pub on_type : ℕ → M → C → Round
  on_type kind m c =
      if eqb kind binary_message
      then binary_case m (socket.read_message m len c)
      else if eqb kind close_message
      then leave (([], some eof), record { conn = c; reader = some m })
      else again (record { conn = c; reader = none })

  abbrev pub opened : (IoError ⊎ (ℕ × M)) × C → Round
  opened (inl e, c) = leave (([], convert (some e)), record { conn = c; reader = none })
  opened (inr (kind, m), c) = on_type kind m c

  abbrev pub read_round : Option M → C → Round
  read_round none c = opened (socket.next_reader c)
  read_round (some m) c = on_type binary_message m c

  abbrev pub read : ℕ → BinaryReader C M → Option (Reading × BinaryReader C M)
  read fuel s = loop (λ (r : BinaryReader C M). read_round r.reader r.conn) fuel s

-- `CopyFrom`: `io.Copy` from a fresh reader of the connection, with fuel for the rounds of the
-- copy and for the rounds of each `Read`.
abbrev pub copy_from :
    {C M W : Type 0}
    → Socket C M
    → Writer W
    → ℕ
    → ℕ
    → W
    → C
    → Option (Option (Copied (BinaryReader C M) W))
copy_from socket writer fuel read_fuel dst src =
    copy (read socket copy_buffer read_fuel) writer fuel (record { conn = src; reader = none }) dst

-- The sending half of a connection: `NextWriter` opens a message of a type, which is sent when its
-- writer is closed. `M` are the messages being written.
pub record Sender (C M : Type 0) : Type 0 where
  pub next_writer : ℕ → C → (IoError ⊎ M) × C
  pub write_message : M → Bytes → C → (ℕ × Option IoError) × C
  pub close_message_writer : M → C → C

module _ {C M : Type 0} (sender : Sender C M) where
  -- `defer w.Close()`
  abbrev pub closing : M → (ℕ × Option IoError) × C → (ℕ × Option IoError) × C
  closing m (answer, c) = (answer, sender.close_message_writer m c)

  abbrev pub write_opened : Bytes → (IoError ⊎ M) × C → (ℕ × Option IoError) × C
  write_opened p (inl e, c) = ((0, convert (some e)), c)
  write_opened p (inr m, c) = closing m (sender.write_message m p c)

  abbrev pub binary_writer : Writer C
  binary_writer = record { write = λ p c. write_opened p (sender.next_writer binary_message c) }

  -- `CopyTo`: `io.Copy` from a reader that has no `WriteTo` of its own, as the program's pipe has
  -- none.
  abbrev pub copy_to :
      {S : Type 0} → (ℕ → S → Reading × S) → ℕ → C → S → Option (Option (Copied S C))
  copy_to source_read fuel dst src =
      copy (λ s. some (source_read copy_buffer s)) binary_writer fuel src dst
