-- ===== src/Dump.antt =====
-- cmd/muxdump/main.go: the loop that prints the packets of a recorded connection.
--
-- What the loop prints of a packet is an `Entry`: how `fmt`, `humanize.Bytes` and `hex.Dump` lay it out
-- is left to them.
pub mod Packets
pub mod Recorded
use go_muxrpc.Base.{
  ℕ, zero, suc, ◌+◌, ◌-◌, ◌^◌, Bool, true, false, ◌&&◌, not, Option, none, some, List, [], ◌∷◌,
  ◌++◌, text, ltb, length, take, ◌==◌, if◌then◌else◌,
}
use go_muxrpc.Errors.{Err, wrap, eof, equals, Result, ok, err}
use go_muxrpc.Codec.Stream.{Bytes, Input}
use go_muxrpc.Codec.Packet.{Header}
use go_muxrpc.Codec.Reader.{read_header, read_body_into}
use go_muxrpc.Codec.Flag

-- `string(body)`, or `hex.Dump(body)`.
pub data Shown : Type 0 where
  as_text : Bytes → Shown
  as_hex : Bytes → Shown

pub record Entry : Type 0 where
  pub req : ℕ
  pub size : ℕ
  pub flag : ℕ
  pub body : Shown

-- `int(hdr.Req)`: the sign of the 32 bits is kept in the 64 of an int.
unfoldable pub sign_extended : ℕ → ℕ
sign_extended w = if ltb w (2 ^ 31) then w else w + (2 ^ 64 - 2 ^ 32)

abbrev dots : Bytes
dots = b'.' ∷ b'.' ∷ b'.' ∷ []

-- A body of more than `max_len` bytes is cut there.
unfoldable pub cut : ℕ → Bytes → Bytes
cut max_len b = if ltb max_len (length b) then take max_len b ++ dots else b

unfoldable pub shown : ℕ → Bytes → Shown
shown flag b = if Flag.get flag Flag.json then as_text b else as_hex b

unfoldable pub entry_of : ℕ → Header → Bytes → Entry
unfolding cut shown
entry_of max_len h b = record {
  req = h.req;
  size = h.len;
  flag = h.flag;
  body = shown h.flag (cut max_len b);
}

-- A packet of another request is passed over.
unfoldable pub printed : ℕ → ℕ → Header → Bytes → Option Entry
unfolding entry_of sign_extended
printed req max_len h b =
    if not (req == 0) && not (sign_extended h.req == req) then none else some (entry_of max_len h b)

-- One round of the loop: it ends, the program fails, or it goes on.
pub data Step : Type 0 where
  over : Step
  failed : Err → Step
  went_on : Option Entry → Step

-- `errors.Cause(err) == io.EOF`: none of the errors here has a cause of its own.
unfoldable pub stopped : Err → Err → Step
unfolding equals
stopped e shown_as = if equals e eof then over else failed shown_as

unfoldable pub dump_body : ℕ → ℕ → Header → Input × Bytes × Option Err → Input × Step
unfolding printed stopped
dump_body req max_len h (i, b, some e) = (i, stopped e (wrap (text "failed to read body: ") e))
dump_body req max_len h (i, b, none) = (i, went_on (printed req max_len h b))

unfoldable pub dump_round : ℕ → ℕ → Input × Result Header → Input × Step
unfolding dump_body
dump_round req max_len (i, err e) = (i, stopped e (wrap (text "failed to read header: ") e))
dump_round req max_len (i, ok h) = dump_body req max_len h (read_body_into h.len i)

abbrev pub Dumped : Type 0
Dumped = List Entry × Option Err

abbrev pub with_entry : Option Entry → Dumped → Dumped
with_entry none d = d
with_entry (some e) (es, r) = (e ∷ es, r)

abbrev pub then_dump : Option Entry → Option Dumped → Option Dumped
then_dump o none = none
then_dump o (some d) = some (with_entry o d)

unfoldable pub after_step : Input × Step → (Input → Option Dumped) → Option Dumped
after_step (i, over) next = some ([], none)
after_step (i, failed e) next = some ([], some e)
after_step (i, went_on o) next = then_dump o (next i)

-- The loop, for at most so many rounds: what it prints, and the error that ends the program, if any.
unfoldable pub dump_loop : ℕ → ℕ → ℕ → Input → Option Dumped
unfolding after_step
dump_loop zero req max_len i = none
dump_loop (suc n) req max_len i =
    after_step (dump_round req max_len (read_header i)) (dump_loop n req max_len)

-- Each round but the last takes a header at least, so one round for each byte and one more do.
unfoldable pub dump : ℕ → ℕ → Input → Option Dumped
dump req max_len i = dump_loop (suc (length i.bytes)) req max_len i
