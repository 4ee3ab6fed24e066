-- ===== src/Apiserver/Relay.antt =====
-- internal/apiserver/registry/sandbox/rest/stream.go and api/client/kubeclient/websocket.go: the
-- input of a user, from the client's copier through the connection to the server's.
use sandbox_mommy.Base.{
  ℕ, ◌<◌, ◌≡◌, refl, ap, ◌∙◌, some, List, [], ◌∷◌, ◌++◌, length, join, take_all, All,
}
use sandbox_mommy.Stream.{Bytes, Reading, Writer, Copying, copy, copy_buffer}
use sandbox_mommy.Stream.Copy.{Source, Takes, reported, copy_brings}
use sandbox_mommy.Kubeclient.{Sender, copy_to}
use sandbox_mommy.Kubeclient.Delivery.{Chunk, Sends, copy_to-Sends}
use sandbox_mommy.Apiserver.Stream.{Connection, Receives, IsFull, cut, stream_read, stream_source}

-- What the copier of chunks cannot lose.
cut_chunks : (ps : List Bytes) → All Chunk ps → cut ps ≡ join ps
cut_chunks [] c = refl
cut_chunks ([] ∷ ps) (c, cs) = absurd c
cut_chunks ((b ∷ bs) ∷ ps) (c, cs) =
    ap (λ (q : Bytes). q ++ cut ps) (take_all copy_buffer (b ∷ bs) c)
    ∙ ap (λ (q : Bytes). (b ∷ bs) ++ q) (cut_chunks ps cs)

chunks-IsFull : (ps : List Bytes) → All Chunk ps → All IsFull ps
chunks-IsFull [] c = tt
chunks-IsFull ([] ∷ ps) (c, cs) = absurd c
chunks-IsFull ((b ∷ bs) ∷ ps) (c, cs) = (tt, chunks-IsFull ps cs)

module _ {V W : Type 0} (conn : Connection V) (r : Receives conn) (writer : Writer W)
    (dst : Takes writer) where
  -- Copying from the server's end of a connection whose messages are not empty ends, with more fuel
  -- than bytes, and brings of each message the part that the buffer of the copier has room for: what
  -- is longer is cut off and lost.
  pub copy-cut :
      (fuel : ℕ) (v : V) (w : W)
      → length (cut (r.messages v)) < fuel
      → All IsFull (r.messages v)
      → dst.IsOpen w
      → (t : Copying V W) × (copy (λ c. some (stream_read conn copy_buffer c)) writer fuel v w
          ≡ some (some (reported (r.ending v), t)))
        × (dst.content t.target ≡ dst.content w ++ cut (r.messages v))
        × (t.written ≡ length (cut (r.messages v)))
        × dst.IsOpen t.target
  copy-cut fuel v w enough full o =
      copy_brings _ (stream_source conn r) writer dst fuel v w enough full o

  module _ {C M S : Type 0} (sender : Sender C M) (n : Sends sender)
      (source_read : ℕ → S → Reading × S) (src : Source (λ s. some (source_read copy_buffer s)))
      (link : C → V) where
    -- The round trip of the input, over a link that hands the server the messages that the client
    -- sent: from a client's connection that is up and has sent nothing, `CopyTo` ends with more
    -- fuel than bytes, and the server's copier ends with the same fuel and brings exactly the bytes
    -- of the client's source, in order and counted.
    pub stdin_roundtrip :
        ((c : C) → r.messages (link c) ≡ n.sent c)
        → (fuel : ℕ) (s : S) (c : C) (w : W) → length (src.rest s) < fuel
        → src.Ready s
        → n.IsUp c
        → n.sent c ≡ []
        → dst.IsOpen w
        → (t : Copying S C) × (u : Copying V W) × (copy_to sender source_read fuel c s
            ≡ some (some (reported (src.finish s), t)))
          × (copy (λ d. some (stream_read conn copy_buffer d)) writer fuel (link t.target) w
              ≡ some (some (reported (r.ending (link t.target)), u)))
          × (dst.content u.target ≡ dst.content w ++ src.rest s)
          × (u.written ≡ length (src.rest s))
    stdin_roundtrip linked fuel s c w enough ready up unsent o =
        let (t, answer, carried, count, still) =
          copy_to-Sends sender n source_read src fuel s c enough ready (up, rw unsent tt) in
        let whole : join (n.sent t.target) ≡ src.rest s =
          carried ∙ ap (λ ps. join ps ++ src.rest s) unsent in
        let arrived : cut (r.messages (link t.target)) ≡ src.rest s =
          ap cut (linked t.target) ∙ cut_chunks (n.sent t.target) still.1 ∙ whole in
        let (u, brought, content, counted, _) =
          copy-cut fuel (link t.target) w (rw arrived enough)
            (rw (linked t.target) (chunks-IsFull (n.sent t.target) still.1)) o in
        (
          t,
          u,
          answer,
          brought,
          content ∙ ap (λ (q : Bytes). dst.content w ++ q) arrived,
          counted ∙ ap length arrived,
        )
