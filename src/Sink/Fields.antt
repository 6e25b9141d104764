-- ===== src/Sink/Fields.antt =====
-- The number and the flags of a sink stay when it is written to or closed.
use go_muxrpc.Base.{ℕ, length, ◌≡◌, refl, Bool, true, false, Option, none, some, arith}
use go_muxrpc.Errors.{Err, Result, ok, err}
use go_muxrpc.External.{External}
use go_muxrpc.Codec.Stream.{Bytes, Output}
use go_muxrpc.Codec.Packet.{Packet}
use go_muxrpc.Codec.Writer.{write_packet}
use go_muxrpc.Packets.{new_end_err_packet, new_end_okay_packet}
use go_muxrpc.Sink.{
  ByteSink, close_with_error, close_open, close_err, finish, answered, is_stream, pkt, sent, write,
  write_alive, write_open, write_checked, encoded, set_encoding, as_codec_flag,
}

answered-req : (bs : ByteSink) (t : Output × Option Err) → (answered bs t).0.req ≡ bs.req
unfolding answered
answered-req bs (o, none) = refl
answered-req bs (o, some e) = refl

finish-req :
    (late : Bool) (p : Packet) (bs : ByteSink) (o : Output) → (finish late p bs o).0.req ≡ bs.req
unfolding finish
finish-req true p bs o = refl
finish-req false p bs o = answered-req bs (write_packet p o)

close_err-req :
    (late : Bool) (e : Err) (r : Result Packet) (bs : ByteSink) (o : Output)
    → (close_err late e r bs o).0.req ≡ bs.req
unfolding close_err
close_err-req late e (err m) bs o = refl
close_err-req late e (ok p) bs o = finish-req late p (record bs { closed = some e }) o

close_open-req :
    (x : External) (late : Bool) (e : Option Err) (bs : ByteSink) (o : Output)
    → (close_open x late e bs o).0.req ≡ bs.req
unfolding close_open
close_open-req x late none bs o = finish-req late (new_end_okay_packet bs.req (is_stream bs)) bs o
close_open-req x late (some e) bs o = ground (
  arith,
  finish-req late (new_end_okay_packet bs.req (is_stream bs)) bs o,
  close_err-req late e (new_end_err_packet x bs.req (is_stream bs) e) bs o,
)

pub close-req :
    (x : External) (late : Bool) (e : Option Err) (bs : ByteSink) (o : Output)
    → (close_with_error x late e bs o).0.req ≡ bs.req
unfolding close_with_error
close-req x late e bs o = ground (arith, close_open-req x late e bs o)

sent-req : (bs : ByteSink) (n : ℕ) (t : Output × Option Err) → (sent bs n t).0.req ≡ bs.req
unfolding sent
sent-req bs n (o, none) = refl
sent-req bs n (o, some e) = refl

write_alive-req : (b : Bytes) (bs : ByteSink) (o : Output) → (write_alive b bs o).0.req ≡ bs.req
unfolding write_alive
write_alive-req b bs o =
    let bs' : ByteSink = record bs { body = b } in
    ground (arith, sent-req bs' (length b) (write_packet (pkt bs') o))

write_open-req :
    (e : Option Err) (b : Bytes) (bs : ByteSink) (o : Output) → (write_open e b bs o).0.req ≡ bs.req
unfolding write_open
write_open-req (some e) b bs o = refl
write_open-req none b bs o = write_alive-req b bs o

write_checked-req :
    (e : Option Err) (b : Bytes) (bs : ByteSink) (o : Output)
    → (write_checked e b bs o).0.req ≡ bs.req
unfolding write_checked
write_checked-req (some e) b bs o = refl
write_checked-req none b bs o = write_open-req bs.stream_err b bs o

pub write-req : (b : Bytes) (bs : ByteSink) (o : Output) → (write b bs o).0.req ≡ bs.req
unfolding write
write-req b bs o = write_checked-req bs.closed b bs o

encoded-req :
    (re : ℕ) (f : Result ℕ) (bs bs' : ByteSink) → encoded re f bs ≡ some bs' → bs'.req ≡ bs.req
unfolding encoded
encoded-req re (err e) bs bs' h = absurd (cc h)
encoded-req re (ok f) bs bs' h = ground (arith, h)

pub set_encoding-req :
    (re : ℕ) (bs bs' : ByteSink) → set_encoding re bs ≡ some bs' → bs'.req ≡ bs.req
unfolding set_encoding
set_encoding-req re bs bs' h = encoded-req re (as_codec_flag re) bs bs' h
