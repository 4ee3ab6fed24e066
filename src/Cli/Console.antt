-- ===== src/Cli/Console.antt =====
-- internal/sandbox/cmds/attach/attach.go: the console of a sandbox.
use sandbox_mommy.Base.{
  ℕ, String, ◌<>◌, Bool, true, false, ◌||◌, Option, none, some, List, [], ◌∷◌, ◌++◌, if◌then◌else◌,
}
use sandbox_mommy.Base.Int.{eqb}
use sandbox_mommy.Text.{codes, contains_codes}
use sandbox_mommy.Loop.{Step, again, leave, loop}
use sandbox_mommy.Stream.{Bytes, eof, Reading}

-- What ends a connection: `ErrorInterrupt`, a `*websocket.CloseError` with its code, or another
-- error, with its text.
pub data ConsoleError : Type 0 where
  interrupt : ConsoleError
  closed : ℕ → String → ConsoleError
  failed : String → ConsoleError

abbrev pub error_text : ConsoleError → String
error_text interrupt = "interrupt"
error_text (closed code text) = text
error_text (failed text) = text

abbrev pub is_interrupt : ConsoleError → Bool
is_interrupt interrupt = true
is_interrupt (closed _ _) = false
is_interrupt (failed _) = false

abbrev pub close_going_away : ℕ
close_going_away = 1001

abbrev pub close_abnormal_closure : ℕ
close_abnormal_closure = 1006

abbrev pub ignore_interrupt : ConsoleError → Option ConsoleError
ignore_interrupt e = if is_interrupt e then none else some e

-- `errors.Is(err, ErrorInterrupt) || strings.Contains(err.Error(), "not found")`
abbrev pub ends_run : ConsoleError → Bool
ends_run e = is_interrupt e || contains_codes (codes (error_text e)) (codes "not found")

-- What `attachTerm` waits for: the writer or the reader stops, or the stream ends.
pub data Event : Type 0 where
  write_stopped read_stopped : Event
  stream_ended : Option ConsoleError → Event

-- The terminal and the client library, over a world `W`: attaching within a minute gives a stream
-- or an error; `make_raw` fails or does not; `first_event` is what the `select` takes; `interrupted`
-- is a look at the channel of the signal.
pub record Terminal (W : Type 0) : Type 0 where
  pub attach : W → Option ConsoleError × W
  pub is_terminal : Bool
  pub make_raw : W → Option String × W
  pub restore : W → W
  pub print_out : String → W → W
  pub print_err : String → W → W
  pub first_event : W → Event × W
  pub interrupted : W → Bool × W
  pub sleep : W → W

abbrev pub disconnected : String
disconnected = "\nYou were disconnected from the console."

module _ {W : Type 0} (T : Terminal W) (name : String) where
  abbrev pub selected : Event → Option ConsoleError
  selected write_stopped = some interrupt
  selected read_stopped = some interrupt
  selected (stream_ended e) = e

  -- The `select`, with the deferred restoring of the terminal where it was made raw.
  abbrev pub awaited : (W → W) → Event × W → Option ConsoleError × W
  awaited restore (event, w) = (selected event, restore w)

  abbrev pub console : (W → W) → W → Option ConsoleError × W
  console restore w = awaited restore (
      T.first_event (
        T.print_out
          ("Successfully connected to " <> name <> " console. The escape sequence is ^]\n") w))

  abbrev pub raw : Option String × W → Option ConsoleError × W
  raw (some text, w) = (some (failed ("make raw terminal failed: " <> text)), w)
  raw (none, w) = console T.restore w

  abbrev pub attach_term : W → Option ConsoleError × W
  attach_term w = if T.is_terminal then raw (T.make_raw w) else console (λ v. v) w

  abbrev pub running : Option ConsoleError × W → Option ConsoleError × W
  running (some e, w) = (some e, w)
  running (none, w) = attach_term w

  abbrev pub connect : W → Option ConsoleError × W
  connect w = running (T.attach w)

  -- What a round of `Run` comes to: the command's result, or one more round.
  abbrev pub Round : Type 0
  Round = Step W (Option ConsoleError × W)

  -- The `select` on the signal.
  abbrev pub waited : Bool × W → Round
  waited (true, w) = leave (none, w)
  waited (false, w) = again (T.sleep w)

  abbrev pub on_close : ConsoleError → W → Round
  on_close (closed code text) w =
      if eqb code close_going_away
      then leave (none, T.print_err disconnected w)
      else if eqb code close_abnormal_closure
      then waited (T.interrupted (T.print_err disconnected w))
      else waited (T.interrupted w)
  on_close interrupt w = waited (T.interrupted (T.print_err "interrupt" w))
  on_close (failed text) w = waited (T.interrupted (T.print_err text w))

  abbrev pub on_error : Option ConsoleError × W → Round
  on_error (none, w) = again w
  on_error (some e, w) = if ends_run e then leave (ignore_interrupt e, w) else on_close e w

  abbrev pub round : W → Round
  round w = on_error (connect w)

  abbrev pub run : ℕ → W → Option (Option ConsoleError × W)
  run fuel w = loop round fuel w

-- The goroutine that reads the standard input: the first byte of its buffer, which stays from one
-- read to the next, and the chunks handed on.
pub record Typing (S : Type 0) : Type 0 where
  pub input : S
  pub first : ℕ
  pub chunks : List Bytes

abbrev pub escape : ℕ
escape = 29

abbrev pub stdin_buffer : ℕ
stdin_buffer = 1024

abbrev pub head_or : ℕ → Bytes → ℕ
head_or first [] = first
head_or first (b ∷ _) = b

module _ {S : Type 0} (stdin_read : ℕ → S → Reading × S) where
  abbrev pub typed : Typing S → Bytes → S → Step (Typing S) (Typing S)
  typed t bs s =
      if eqb (head_or t.first bs) escape
      then leave (record { input = s; first = head_or t.first bs; chunks = t.chunks })
      else again (record { input = s; first = head_or t.first bs; chunks = t.chunks ++ (bs ∷ []) })

  abbrev pub on_read : Typing S → Reading × S → Step (Typing S) (Typing S)
  on_read t ((bs, none), s) = typed t bs s
  on_read t (([], some eof), s) = leave (record { input = s; first = t.first; chunks = t.chunks })
  on_read t ((b ∷ bs, some eof), s) = typed t (b ∷ bs) s
  on_read t ((bs, some e), s) =
      leave (record { input = s; first = head_or t.first bs; chunks = t.chunks })

  abbrev pub read_stdin : ℕ → S → Option (Typing S)
  read_stdin fuel s =
      loop (λ (t : Typing S). on_read t (stdin_read stdin_buffer t.input)) fuel
        (record { input = s; first = 0; chunks = [] })
