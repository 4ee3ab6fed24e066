-- ===== src/Tests/Wires.antt =====
-- Connections in memory, and the theorems on streams at them.
use sandbox_mommy.Base.{
  ℕ, ◌<◌, ◌≤◌, ◌≡◌, refl, Option, none, some, ◌⊎◌, inl, inr, List, [], ◌∷◌, ◌++◌, length, arith,
}
use sandbox_mommy.Stream.{
  Bytes, IoError, eof, close_error, Reading, Writer, Copying, copy, copy_buffer,
}
use sandbox_mommy.Stream.Copy.{Fed, gives, stops, Source, Takes}
use sandbox_mommy.Kubeclient.{Socket, BinaryReader, Sender, copy_from, copy_to}
use sandbox_mommy.Kubeclient.Reader.{Frame, Gives, more, last, Delivers}
use sandbox_mommy.Kubeclient.Delivery.{copy_from-Delivers, Sends}
use sandbox_mommy.Apiserver.Stream.{Connection, Receives, stream_read}
use sandbox_mommy.Apiserver.Relay.{copy-cut, stdin_roundtrip}

-- A connection that delivers its messages byte by byte, and is then closed normally.
record Wire : Type 0 where
  current : Bytes
  frames : List Frame

abbrev frame : ℕ → Bytes → Frame
frame kind payload = record { kind = kind; payload = payload }

abbrev next : List Frame → (IoError ⊎ (ℕ × Unit {0})) × Wire
next [] = (inl (close_error 1000), record { current = []; frames = [] })
next (f ∷ fs) = (inr (f.kind, tt), record { current = f.payload; frames = fs })

abbrev byte_of : Bytes → List Frame → Reading × Wire
byte_of [] fs = (([], some eof), record { current = []; frames = fs })
byte_of (b ∷ bs) fs = ((b ∷ [], none), record { current = bs; frames = fs })

abbrev wire_socket : Socket Wire (Unit {0})
wire_socket = record {
  next_reader = λ (c : Wire). next c.frames;
  read_message = λ m len (c : Wire). byte_of c.current c.frames;
}

wire_opens :
    (c : Wire) (f : Frame) (fs : List Frame)
    → c.frames ≡ f ∷ fs
    → (m : Unit {0}) × (d : Wire) × (next c.frames ≡ (inr (f.kind, m), d))
      × (d.frames ≡ fs)
      × (close_error 1000 ≡ close_error 1000)
      × (d.current ≡ f.payload)
wire_opens c f fs e = (tt, record { current = f.payload; frames = fs }, rw e refl, refl, refl, refl)

byte_reads :
    (current : Bytes) (fs : List Frame) (len : ℕ)
    → 0 < len
    → (bs : Bytes) × (e : Option IoError) × (d : Wire) × (byte_of current fs ≡ ((bs, e), d))
      × (d.frames ≡ fs)
      × (close_error 1000 ≡ close_error 1000)
      × (current ≡ bs ++ d.current)
      × (length bs ≤ len)
      × Gives d.current bs e
byte_reads [] fs len h = (
  [],
  some eof,
  record { current = []; frames = fs },
  refl,
  refl,
  refl,
  refl,
  omega arith,
  last refl,
)
byte_reads (b ∷ bs) fs len h =
    (b ∷ [], none, record { current = bs; frames = fs }, refl, refl, refl, refl, omega arith, more)

wire_delivers : Delivers wire_socket
wire_delivers = record {
  frames = λ (c : Wire). c.frames;
  ending = λ c. close_error 1000;
  pending = λ m (c : Wire). c.current;
  ends = λ (c : Wire) e. (record { current = []; frames = [] }, rw e refl);
  opens = wire_opens;
  reads = λ m (c : Wire) len h. byte_reads c.current c.frames len h;
}

-- A destination in memory.
abbrev memory : Writer Bytes
memory = record { write = λ p w. ((length p, none), w ++ p) }

memory_takes : Takes memory
memory_takes = record {
  IsOpen = λ w. Unit {0};
  content = λ w. w;
  takes = λ b bs w room o. (w ++ (b ∷ bs), refl, refl, tt);
}

abbrev console_wire : Wire
console_wire = record {
  current = [];
  frames = frame 2 (104 ∷ 105 ∷ []) ∷ frame 1 (7 ∷ []) ∷ frame 2 [] ∷ frame 2 (33 ∷ []) ∷ [];
}

copy_from-Delivers_example :
    (t : Copying (BinaryReader Wire (Unit {0})) Bytes) × (copy_from wire_socket memory 10 10 []
        console_wire
      ≡ some (some (none, t)))
    × (t.target ≡ 104 ∷ 105 ∷ 33 ∷ [])
    × (t.written ≡ 3)
    × Unit {0}
unfolding wire_delivers memory_takes
copy_from-Delivers_example =
    copy_from-Delivers wire_socket wire_delivers memory memory_takes 10 10 [] console_wire
      (omega arith) (omega arith) tt

-- A sending half in memory: the message being written, and those that are sent.
abbrev Outbox : Type 0
Outbox = Bytes × List Bytes

abbrev outbox : Sender Outbox (Unit {0})
outbox = record {
  next_writer = λ kind c. (inr tt, ([], c.1));
  write_message = λ m p c. ((length p, none), (c.0 ++ p, c.1));
  close_message_writer = λ m c. ([], c.1 ++ (c.0 ∷ []));
}

outbox_sends : Sends outbox
outbox_sends = record {
  IsUp = λ c. Unit {0};
  sent = λ c. c.1;
  sends = λ p c up. (tt, ([], c.1), (p, c.1), refl, refl, refl, tt);
}

-- An input that gives a byte at a time.
abbrev byte_read : ℕ → Bytes → Reading × Bytes
byte_read len [] = (([], some eof), [])
byte_read len (b ∷ bs) = ((b ∷ [], none), bs)

byte_feeds :
    (bs : Bytes)
    → Unit {0}
    → (a : Reading × Bytes) × (some (byte_read copy_buffer bs) ≡ some a)
      × Fed (λ c. Unit {0}) (λ c. c) (λ c. eof) bs a
byte_feeds [] tt = (_, refl, stops refl refl)
byte_feeds (b ∷ bs) tt = (_, refl, gives refl refl (omega arith) tt)

byte_source : Source (λ s. some (byte_read copy_buffer s))
byte_source = record { Ready = λ s. Unit {0}; rest = λ s. s; finish = λ s. eof; feeds = byte_feeds }

-- A server's end that hands out messages, closed normally after them.
abbrev hand_out : List Bytes → (IoError ⊎ (ℕ × Bytes)) × List Bytes
hand_out [] = (inl (close_error 1000), [])
hand_out (p ∷ ps) = (inr (2, p), ps)

abbrev inbox : Connection (List Bytes)
inbox = record { read_message = hand_out; write_message = λ kind p c. (none, c) }

inbox_receives : Receives inbox
inbox_receives = record {
  messages = λ c. c;
  ending = λ c. close_error 1000;
  ends = λ c e. ([], rw e refl);
  arrives = λ c p ps e. (2, ps, rw e refl, refl, refl);
}

copy-cut_example :
    (t : Copying (List Bytes) Bytes) × (copy
        (λ c. some (stream_read inbox copy_buffer c))
        memory
        10
        ((1 ∷ 2 ∷ []) ∷ (3 ∷ []) ∷ [])
        []
      ≡ some (some (some (close_error 1000), t)))
    × (t.target ≡ 1 ∷ 2 ∷ 3 ∷ [])
    × (t.written ≡ 3)
    × Unit {0}
unfolding inbox_receives memory_takes
copy-cut_example =
    copy-cut inbox inbox_receives memory memory_takes 10 ((1 ∷ 2 ∷ []) ∷ (3 ∷ []) ∷ []) []
      (omega arith) (tt, (tt, tt)) tt

stdin_roundtrip_example :
    (t : Copying Bytes Outbox) × (u : Copying (List Bytes) Bytes) × (copy_to outbox byte_read 5
        ([], [])
        (108 ∷ 115 ∷ 10 ∷ [])
      ≡ some (some (none, t)))
    × (copy (λ c. some (stream_read inbox copy_buffer c)) memory 5 t.target.1 []
        ≡ some (some (some (close_error 1000), u)))
    × (u.target ≡ 108 ∷ 115 ∷ 10 ∷ [])
    × (u.written ≡ 3)
unfolding inbox_receives memory_takes outbox_sends byte_source
stdin_roundtrip_example =
    stdin_roundtrip inbox inbox_receives memory memory_takes outbox outbox_sends byte_read
      byte_source (λ c. c.1) (λ c. refl) 5 (108 ∷ 115 ∷ 10 ∷ []) ([], []) [] (omega arith) tt tt
      refl tt
