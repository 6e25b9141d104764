-- ===== src/Sink.antt =====
-- stream2_sink.go and the encodings of request.go: the sending side of a stream.
pub mod Closing
pub mod Fields
pub mod Encoding
pub mod Chunks
use go_muxrpc.Base.{
  ℕ, ◌+◌, Bool, true, false, Option, none, some, List, [], text, ltb, ◌==◌, length, if◌then◌else◌,
}
use go_muxrpc.Errors.{Err, sentinel, eof, new, wrap, equals, Result, ok, err}
use go_muxrpc.External.{External}
use go_muxrpc.Codec.Stream.{Bytes, Output}
use go_muxrpc.Codec.Packet.{Packet}
use go_muxrpc.Codec.Writer.{write_packet}
use go_muxrpc.Codec.Flag
use go_muxrpc.Packets.{new_end_okay_packet, new_end_err_packet}

-- `RequestEncoding` is a uint: TypeBinary, TypeString and TypeJSON.
abbrev pub type_binary : ℕ
type_binary = 0

abbrev pub type_string : ℕ
type_string = 1

abbrev pub type_json : ℕ
type_json = 2

unfoldable pub is_valid : ℕ → Bool
is_valid rt = if ltb type_json rt then false else true

unfoldable pub as_codec_flag : ℕ → Result ℕ
unfolding is_valid
as_codec_flag rt =
    if is_valid rt
    then if rt == type_binary
      then ok 0
      else if rt == type_string
      then ok Flag.string
      else if rt == type_json
      then ok Flag.json
      else err (new (text "muxrpc: invalid request encoding "))
    else err (new (text "muxrpc: invalid request encoding "))

-- `closed` is nil while the sink is open. `stream_err` is `streamCtx.Err()`. `flag`, `req` and
-- `body` are those of `pkt`.
pub record ByteSink : Type 0 where
  pub closed : Option Err
  pub stream_err : Option Err
  pub flag : ℕ
  pub req : ℕ
  pub body : Bytes

unfoldable pub new_byte_sink : Option Err → ByteSink
new_byte_sink ctx = record { closed = none; stream_err = ctx; flag = 0; req = 0; body = [] }

abbrev pub pkt : ByteSink → Packet
pkt bs = record { flag = bs.flag; req = bs.req; body = bs.body }

encoded : ℕ → Result ℕ → ByteSink → Option ByteSink
encoded re (err e) bs = none
encoded re (ok f) bs =
    let flag = if re == type_binary then Flag.clear bs.flag Flag.json else bs.flag in
    some (record bs { flag = Flag.set flag f })

-- `SetEncoding`; `none` is its panic.
unfoldable pub set_encoding : ℕ → ByteSink → Option ByteSink
unfolding encoded
set_encoding re bs = encoded re (as_codec_flag re) bs

-- The result of a write: the count beside an error is not used by any caller.
sent : ByteSink → ℕ → Output × Option Err → ByteSink × Output × Result ℕ
sent bs n (o, none) = (bs, o, ok n)
sent bs n (o, some e) = (record bs { closed = some e }, o, err e)

write_alive : Bytes → ByteSink → Output → ByteSink × Output × Result ℕ
unfolding sent
write_alive b bs o =
    if bs.req == 0
    then (bs, o, err (new (text "req ID not set ")))
    else let bs' : ByteSink = record bs { body = b } in
      sent bs' (length b) (write_packet (pkt bs') o)

write_open : Option Err → Bytes → ByteSink → Output → ByteSink × Output × Result ℕ
unfolding write_alive
write_open (some e) b bs o = (record bs { closed = some e }, o, err e)
write_open none b bs o = write_alive b bs o

write_checked : Option Err → Bytes → ByteSink → Output → ByteSink × Output × Result ℕ
unfolding write_open
write_checked (some e) b bs o = (bs, o, err e)
write_checked none b bs o = write_open bs.stream_err b bs o

-- `Write`
unfoldable pub write : Bytes → ByteSink → Output → ByteSink × Output × Result ℕ
unfolding write_checked
write b bs o = write_checked bs.closed b bs o

-- `err == io.EOF || err == nil`
unfoldable pub is_end : Option Err → Bool
unfolding equals
is_end none = true
is_end (some e) = equals e eof

answered : ByteSink → Output × Option Err → ByteSink × Output × Option Err
answered bs (o, none) = (bs, o, none)
answered bs (o, some e) = (record bs { closed = some e }, o, some e)

abbrev pub close_timeout : Err
close_timeout = new (text "muxrpc: close timeout exceeded")

-- The write of the last packet, which is given ten seconds: `late` is that the timer fires first. The
-- write is then still under way, and nothing of it is seen yet.
finish : Bool → Packet → ByteSink → Output → ByteSink × Output × Option Err
unfolding answered
finish late p bs o =
    if late
    then (record bs { closed = some close_timeout }, o, some close_timeout)
    else answered bs (write_packet p o)

abbrev pub is_stream : ByteSink → Bool
is_stream bs = Flag.get bs.flag Flag.stream

close_err : Bool → Err → Result Packet → ByteSink → Output → ByteSink × Output × Option Err
unfolding finish
close_err late e (err m) bs o =
    (bs, o, some (wrap (text "close bytesink: error building error packet: ") m))
close_err late e (ok p) bs o = finish late p (record bs { closed = some e }) o

close_open : External → Bool → Option Err → ByteSink → Output → ByteSink × Output × Option Err
unfolding finish close_err equals
close_open x late none bs o = finish late (new_end_okay_packet bs.req (is_stream bs)) bs o
close_open x late (some e) bs o =
    if equals e eof
    then finish late (new_end_okay_packet bs.req (is_stream bs)) bs o
    else close_err late e (new_end_err_packet x bs.req (is_stream bs) e) bs o

-- `CloseWithError`
unfoldable pub close_with_error :
    External → Bool → Option Err → ByteSink → Output → ByteSink × Output × Option Err
unfolding close_open
close_with_error x late e bs o = elim bs.closed [
  | some c ↦ (bs, o, some c)
  | none ↦ close_open x late e bs o
]

-- `Close`
unfoldable pub close : External → Bool → ByteSink → Output → ByteSink × Output × Option Err
close x late bs o = close_with_error x late (some (sentinel eof)) bs o
