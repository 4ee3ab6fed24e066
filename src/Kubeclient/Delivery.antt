-- ===== src/Kubeclient/Delivery.antt =====
-- api/client/kubeclient/websocket.go: what `CopyFrom` brings, and what `CopyTo` sends.
use mathlib.Core.List.{append-nil}
use sandbox_mommy.Base.{
  ℕ, ◌<◌, ◌≤◌, ◌≡◌, refl, none, some, inr, List, [], ◌∷◌, ◌++◌, length, join, join-append, All,
  All-append, ap, ◌∙◌,
}
use sandbox_mommy.Stream.{Bytes, Reading, Writer, Copying, copy_buffer}
use sandbox_mommy.Stream.Copy.{Source, Takes, reported, copy_brings}
use sandbox_mommy.Kubeclient.{
  Socket, BinaryReader, Sender, copy_from, copy_to, binary_writer, binary_message,
}
use sandbox_mommy.Kubeclient.Reader.{Delivers, stream_bytes, stream_end, fresh, reader_source}

module _ {C M W : Type 0} (socket : Socket C M) (d : Delivers socket) (writer : Writer W)
    (dst : Takes writer) where
  -- `CopyFrom` ends, with more fuel for its rounds than bytes and more for each `Read` than
  -- messages: every byte that the binary messages carry is in the destination, in order and
  -- counted, and the error is the one that the connection ends with, none where it is closed
  -- normally.
  pub copy_from-Delivers :
      (fuel read_fuel : ℕ) (w : W) (c : C)
      → length (stream_bytes (d.frames c)) < fuel
      → length (d.frames c) < read_fuel
      → dst.IsOpen w
      → (t : Copying (BinaryReader C M) W) × (copy_from socket writer fuel read_fuel w c
          ≡ some (some (reported (stream_end (d.ending c) (d.frames c)), t)))
        × (dst.content t.target ≡ dst.content w ++ stream_bytes (d.frames c))
        × (t.written ≡ length (stream_bytes (d.frames c)))
        × dst.IsOpen t.target
  copy_from-Delivers fuel read_fuel w c enough enough_reads o =
      copy_brings _ (reader_source socket d read_fuel) writer dst fuel (fresh c) w enough
        enough_reads o

-- A chunk that the copier writes: not empty, and no longer than its buffer.
abbrev pub Chunk : Bytes → Type 0
Chunk [] = ⊥
Chunk (b ∷ bs) = length (b ∷ bs) ≤ copy_buffer

-- The connection, while it is up, sends the messages that are written to it, each when its writer is closed: what
-- the documentation of the websocket library says of `NextWriter`.
pub record Sends {C M : Type 0} (sender : Sender C M) : Type 1 where
  pub IsUp : C → Type 0
  pub sent : C → List Bytes
  pub sends :
      (p : Bytes) (c : C)
      → IsUp c
      → (m : M) × (d : C) × (e : C) × (sender.next_writer binary_message c ≡ (inr m, d))
        × (sender.write_message m p d ≡ ((length p, none), e))
        × (sent (sender.close_message_writer m e) ≡ sent c ++ (p ∷ []))
        × IsUp (sender.close_message_writer m e)

module _ {C M : Type 0} (sender : Sender C M) (n : Sends sender) where
  abbrev pub Clean : C → Type 0
  Clean c = n.IsUp c × All Chunk (n.sent c)

  writer_sends :
      (b : ℕ) (bs : Bytes) (c : C)
      → length (b ∷ bs) ≤ copy_buffer
      → Clean c
      → (v : C) × ((binary_writer sender).write (b ∷ bs) c ≡ ((length (b ∷ bs), none), v))
        × (join (n.sent v) ≡ join (n.sent c) ++ (b ∷ bs))
        × Clean v
  writer_sends b bs c room (up, chunks) =
      let (m, d, e, opened, written, appended, still) = n.sends (b ∷ bs) c up in
      let joined : join (n.sent (sender.close_message_writer m e)) ≡ join (n.sent c) ++ (b ∷ bs) =
        ap join appended
        ∙ join-append (n.sent c) ((b ∷ bs) ∷ [])
        ∙ ap (λ (r : Bytes). join (n.sent c) ++ r) (append-nil (b ∷ bs)) in
      (
        sender.close_message_writer m e,
        rw (opened, written) refl,
        joined,
        (still, rw appended (All-append Chunk (n.sent c) _ chunks (room, tt))),
      )

  abbrev writer_takes : Takes (binary_writer sender)
  writer_takes = record { IsOpen = Clean; content = λ c. join (n.sent c); takes = writer_sends }

  module _ {S : Type 0} (source_read : ℕ → S → Reading × S)
      (src : Source (λ s. some (source_read copy_buffer s))) where
    -- `CopyTo` ends, with more fuel than bytes: the messages sent are chunks of at most the buffer's
    -- size, none of them empty, and together they are what was sent before and all the bytes of the
    -- source, in order.
    pub copy_to-Sends :
        (fuel : ℕ) (s : S) (c : C)
        → length (src.rest s) < fuel
        → src.Ready s
        → Clean c
        → (t : Copying S C) × (copy_to sender source_read fuel c s
            ≡ some (some (reported (src.finish s), t)))
          × (join (n.sent t.target) ≡ join (n.sent c) ++ src.rest s)
          × (t.written ≡ length (src.rest s))
          × Clean t.target
    copy_to-Sends fuel s c enough ready clean =
        copy_brings _ src (binary_writer sender) writer_takes fuel s c enough ready clean
