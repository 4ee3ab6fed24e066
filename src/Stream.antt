-- ===== src/Stream.antt =====
-- What the streaming code uses of Go's package io: readers, writers and `io.Copy`.
pub mod Copy
use sandbox_mommy.Base.{
  ℕ, ◌+◌, String, Bool, true, false, Option, none, some, List, [], ◌∷◌, length, if◌then◌else◌,
}
use sandbox_mommy.Base.Int.{eqb, ltb}
use sandbox_mommy.Loop.{Step, again, leave, loop}

abbrev pub Bytes : Type 0
Bytes = List ℕ

-- What a read or a write reports: `io.EOF`, a `*websocket.CloseError` with its code, anything else.
pub data IoError : Type 0 where
  eof : IoError
  close_error : ℕ → IoError
  fault : String → IoError

-- What `Read` returns, the bytes that it put in the buffer for their number.
abbrev pub Reading : Type 0
Reading = Bytes × Option IoError

-- A destination: `Write` gives the number of bytes taken and an error.
pub record Writer (W : Type 0) : Type 0 where
  pub write : Bytes → W → (ℕ × Option IoError) × W

-- The state of `io.Copy`: the source, the destination, and the number of bytes written.
pub record Copying (S W : Type 0) : Type 0 where
  pub source : S
  pub target : W
  pub written : ℕ

-- The number of bytes written and the error that it returns.
abbrev pub Copied : Type 0 → Type 0 → Type 0
Copied S W = Option IoError × Copying S W

-- The size of the buffer of `io.Copy`.
abbrev pub copy_buffer : ℕ
copy_buffer = 32768

module _ {S W : Type 0} (source_read : S → Option (Reading × S)) (writer : Writer W) where
  abbrev pub CopyRound : Type 0
  CopyRound = Step (Copying S W) (Option (Copied S W))

  -- `if er != nil { if er != EOF { err = er }; break }`
  abbrev pub after_write : Option IoError → Copying S W → CopyRound
  after_write none s = again s
  after_write (some eof) s = leave (some (none, s))
  after_write (some e) s = leave (some (some e, s))

  -- The checks on what `Write` answered: its count, its error, then whether it took all.
  abbrev pub wrote : ℕ → Option IoError → S → ℕ → (ℕ × Option IoError) × W → CopyRound
  wrote given e s n ((taken, some failed), w) = leave (
      some (
        some failed,
        record { source = s; target = w; written = n + (if ltb given taken then 0 else taken) },
      ))
  wrote given e s n ((taken, none), w) =
      if ltb given taken
      then leave (
          some
            (some (fault "invalid write result"), record { source = s; target = w; written = n }))
      else if eqb given taken
      then after_write e (record { source = s; target = w; written = n + taken })
      else leave (
          some (some (fault "short write"), record { source = s; target = w; written = n + taken }))

  abbrev pub copy_read : W → ℕ → Option (Reading × S) → CopyRound
  copy_read w n none = leave none
  copy_read w n (some (([], e), s)) = after_write e (record { source = s; target = w; written = n })
  copy_read w n (some ((b ∷ bs, e), s)) = wrote (length (b ∷ bs)) e s n (writer.write (b ∷ bs) w)

  abbrev pub copy_round : Copying S W → CopyRound
  copy_round s = copy_read s.target s.written (source_read s.source)

  -- `io.Copy`, with fuel for its rounds.
  abbrev pub copy : ℕ → S → W → Option (Option (Copied S W))
  copy fuel src dst = loop copy_round fuel (record { source = src; target = dst; written = 0 })
