-- ===== src/Stream/Copy.antt =====
-- What `io.Copy` brings from a source to a destination.
use mathlib.Core.List.{append_assoc, append-nil}
use sandbox_mommy.Base.{
  ℕ, ◌+◌, ◌<◌, ◌≤◌, ◌≡◌, refl, sym, ap, ◌∙◌, Option, none, some, [], ◌∷◌, ◌++◌, length,
  length-append, arith,
}
use sandbox_mommy.Loop.{leave, Sound, turns, leaves, loop_ends}
use sandbox_mommy.Stream.{
  Bytes, IoError, eof, close_error, fault, Reading, Writer, Copying, Copied, after_write, wrote,
  copy_round, copy_read, copy, copy_buffer,
}

-- What a `Read` gives of the bytes that are to come: at least one of them and no more than the
-- buffer of the copier has room for, or, when none are left, the error. `Ready` is what the source
-- needs to be read.
pub data Fed {S : Type 0} (Ready : S → Type 0) (rest : S → Bytes) (finish : S → IoError) (s : S)
    : Reading × S → Type 0 where
  gives :
      {b : ℕ} {bs : Bytes} {t : S}
      → rest s ≡ b ∷ bs ++ rest t
      → finish t ≡ finish s
      → length (b ∷ bs) ≤ copy_buffer
      → Ready t
      → Fed Ready rest finish s ((b ∷ bs, none), t)
  stops :
      {e : IoError} {t : S} → rest s ≡ [] → e ≡ finish s → Fed Ready rest finish s (([], some e), t)

-- A source, with the bytes to come from it and the error after them.
pub record Source {S : Type 0} (source_read : S → Option (Reading × S)) : Type 1 where
  pub Ready : S → Type 0
  pub rest : S → Bytes
  pub finish : S → IoError
  pub feeds :
      (s : S) → Ready s → (a : Reading × S) × (source_read s ≡ some a) × Fed Ready rest finish s a

-- A destination that takes all it is given, in the order of the writes: the
-- copier never writes an empty chunk. `IsOpen` is what it needs, and keeps.
pub record Takes {W : Type 0} (writer : Writer W) : Type 1 where
  pub IsOpen : W → Type 0
  pub content : W → Bytes
  pub takes :
      (b : ℕ) (bs : Bytes) (w : W)
      → length (b ∷ bs) ≤ copy_buffer
      → IsOpen w
      → (v : W) × (writer.write (b ∷ bs) w ≡ ((length (b ∷ bs), none), v))
        × (content v ≡ content w ++ (b ∷ bs))
        × IsOpen v

-- `io.Copy` does not report the end of its source.
abbrev pub reported : IoError → Option IoError
reported eof = none
reported e = some e

after_write_lem :
    {S W : Type 0} (source_read : S → Option (Reading × S)) (writer : Writer W) (e : IoError)
    (s : Copying S W)
    → after_write source_read writer (some e) s ≡ leave (some (reported e, s))
after_write_lem source_read writer eof s = refl
after_write_lem source_read writer (close_error code) s = refl
after_write_lem source_read writer (fault text) s = refl

wrote_all :
    {S W : Type 0} (source_read : S → Option (Reading × S)) (writer : Writer W) (n : ℕ)
    (e : Option IoError) (s : S) (before : ℕ) (w : W)
    → wrote source_read writer n e s before ((n, none), w)
      ≡ after_write source_read writer e (record { source = s; target = w; written = before + n })
wrote_all source_read writer n e s before w = ground arith

module _ {S W : Type 0} (source_read : S → Option (Reading × S)) (src : Source source_read)
    (writer : Writer W) (dst : Takes writer) where
  -- All that was to come is in the destination, and counted.
  pub data Brought (s : Copying S W) : Option (Copied S W) → Type 0 where
    brought :
        {e : Option IoError} {t : Copying S W}
        → e ≡ reported (src.finish s.source)
        → dst.content t.target ≡ dst.content s.target ++ src.rest s.source
        → t.written ≡ s.written + length (src.rest s.source)
        → dst.IsOpen t.target
        → Brought s (some (e, t))

  abbrev left : Copying S W → ℕ
  left s = length (src.rest s.source)

  abbrev Going : Copying S W → Type 0
  Going s = src.Ready s.source × dst.IsOpen s.target

  carried :
      (s t : Copying S W) (p : Bytes)
      → dst.content t.target ≡ dst.content s.target ++ p
      → t.written ≡ s.written + length p
      → src.rest s.source ≡ p ++ src.rest t.source
      → src.finish t.source ≡ src.finish s.source
      → (a : Option (Copied S W)) → Brought t a
      → Brought s a
  carried s t p more grown r f _ (brought e c n o) =
      let counted = ap length r ∙ length-append p (src.rest t.source) in
      brought (e ∙ ap reported f)
        (c
          ∙ ap (λ (q : Bytes). q ++ src.rest t.source) more
          ∙ append_assoc (dst.content s.target) p (src.rest t.source)
          ∙ ap (λ (q : Bytes). dst.content s.target ++ q) (sym r))
        (omega arith) o

  served :
      (s : Copying S W) (a : Reading × S)
      → dst.IsOpen s.target
      → Fed src.Ready src.rest src.finish s.source a
      → Sound Going Brought left s (copy_read source_read writer s.target s.written (some a))
  served s _ o (gives {b} {bs} {t} r f room ready) =
      let (v, answer, more, still) = dst.takes b bs s.target room o in
      let counted = ap length r ∙ length-append (b ∷ bs) (src.rest t) in
      let fewer : length (src.rest t) < length (src.rest s.source) = omega arith in
      rw answer (
        rw (wrote_all source_read writer (length (b ∷ bs)) none t s.written v)
          (turns (ready, still) fewer (carried s _ (b ∷ bs) more refl r f)))
  served s _ o (stops r e) = rw e (
      rw (after_write_lem source_read writer (src.finish s.source) _) (
        leaves (
          brought refl (rw r (sym (append-nil (dst.content s.target))))
            (let none_left = ap length r in omega arith) o)))

  copy_round-Sound :
      (s : Copying S W) → Going s → Sound Going Brought left s (copy_round source_read writer s)
  copy_round-Sound s (ready, o) =
      let (a, answer, fed) = src.feeds s.source ready in rw answer (served s a o fed)

  unpacked :
      (s : Copying S W) (run : Option (Option (Copied S W))) (a : Option (Copied S W))
      → run ≡ some a
      → Brought s a
      → (t : Copying S W) × (run ≡ some (some (reported (src.finish s.source), t)))
        × (dst.content t.target ≡ dst.content s.target ++ src.rest s.source)
        × (t.written ≡ s.written + length (src.rest s.source))
        × dst.IsOpen t.target
  unpacked s run _ q (brought {e} {t} r c n o) = (t, q ∙ ap (λ x. some (some (x, t))) r, c, n, o)

  -- With more fuel than bytes the copy ends: all that was to come is in the destination, counted.
  pub copy_brings :
      (fuel : ℕ) (s : S) (w : W)
      → length (src.rest s) < fuel
      → src.Ready s
      → dst.IsOpen w
      → (t : Copying S W) × (copy source_read writer fuel s w
          ≡ some (some (reported (src.finish s), t)))
        × (dst.content t.target ≡ dst.content w ++ src.rest s)
        × (t.written ≡ length (src.rest s))
        × dst.IsOpen t.target
  copy_brings fuel s w enough ready o =
      let start : Copying S W = record { source = s; target = w; written = 0 } in
      let (a, q, b) =
        loop_ends Going Brought left _ copy_round-Sound fuel start enough (ready, o) in
      let (t, answer, content, count, still) = unpacked start _ a q b in
      (t, answer, content, omega arith, still)
