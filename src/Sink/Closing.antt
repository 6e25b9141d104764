-- ===== src/Sink/Closing.antt =====
-- What a sink writes, before it is closed, when it is closed, and after.
use go_muxrpc.Base.{
  ℕ, ◌≤◌, ◌≡◌, refl, ◌≢◌, Bool, true, false, Option, none, some, ◌++◌, length, ==_ne, arith,
}
use go_muxrpc.Errors.{Err, eof, equals, ok, err}
use go_muxrpc.External.{External}
use go_muxrpc.Codec.Stream.{Bytes, Output}
use go_muxrpc.Codec.Packet.{Packet, encode}
use go_muxrpc.Codec.Writer.{max_buffer_size}
use go_muxrpc.Codec.RoundTrip.Sessions.{write_packet-encode}
use go_muxrpc.Packets.{new_end_okay_packet, new_end_err_packet}
use go_muxrpc.Sink.{ByteSink, write, close_with_error, is_end, is_stream}

okay_fits :
    (req : ℕ) (stream : Bool) → length (new_end_okay_packet req stream).body ≤ max_buffer_size
unfolding new_end_okay_packet
okay_fits req stream = omega arith

-- The sink is open, its stream lives, and it has a request number.
pub record IsReady (bs : ByteSink) : Type 0 where
  pub open_sink : bs.closed ≡ none
  pub alive : bs.stream_err ≡ none
  pub numbered : bs.req ≢ 0

-- A write of a body that fits, on a ready sink over a connection that takes all, sends one
-- packet, with the flags and the number of the sink and the bytes given, returns the number of
-- bytes, and changes nothing of the sink but its packet.
pub write_ready :
    (b : Bytes) (bs : ByteSink) (o : Output)
    → IsReady bs
    → length b ≤ max_buffer_size
    → o.room ≡ none
    → write b bs o ≡ (
      record bs { body = b },
      record o { sent = o.sent ++ encode (record { flag = bs.flag; req = bs.req; body = b }) },
      ok (length b),
    )
unfolding write
write_ready b bs o h fits room = rw (
  h.open_sink,
  h.alive,
  ==_ne bs.req 0 h.numbered,
  write_packet-encode (record { flag = bs.flag; req = bs.req; body = b }) o fits room,
)

-- CloseWithError with an error other than io.EOF on an open sink, where its packet can be built
-- and the connection takes it in time: that packet is sent and the sink keeps the error. A later
-- write then fails with it, and a later close sends nothing and returns it.
pub close_err_once :
    (x : External) (e : Err) (p : Packet) (bs : ByteSink) (o : Output)
    → bs.closed ≡ none
    → equals e eof ≡ false
    → new_end_err_packet x bs.req (is_stream bs) e ≡ ok p
    → length p.body ≤ max_buffer_size
    → o.room ≡ none
    → let (bs', o', r) = close_with_error x false (some e) bs o in
      (r ≡ none)
      × (o' ≡ record o { sent = o.sent ++ encode p })
      × ((b : Bytes) → write b bs' o' ≡ (bs', o', err e))
      × ((again : Option Err) → close_with_error x false again bs' o' ≡ (bs', o', some e))
unfolding close_with_error write
close_err_once x e p bs o h n build fits room =
    rw (h, n, build, write_packet-encode p o fits room) (refl, refl, λ b. refl, λ again. refl)

-- CloseWithError with nil or io.EOF on a ready sink, where the connection takes it in time,
-- sends the packet that ends the stream and returns nil, and leaves the sink as it was, not
-- closed.
pub close_okay_stays_open :
    (x : External) (e : Option Err) (bs : ByteSink) (o : Output)
    → IsReady bs
    → is_end e ≡ true
    → o.room ≡ none
    → let p = new_end_okay_packet bs.req (is_stream bs) in
      let (bs', o', r) = close_with_error x false e bs o in
      (bs' ≡ bs) × (o' ≡ record o { sent = o.sent ++ encode p }) × (r ≡ none)
unfolding close_with_error is_end
close_okay_stays_open x none bs o h t room =
    rw
      (
        h.open_sink,
        write_packet-encode (new_end_okay_packet bs.req (is_stream bs)) o
            (okay_fits bs.req (is_stream bs)) room,
      )
      (refl, refl, refl)
close_okay_stays_open x (some e) bs o h t room =
    rw
      (
        h.open_sink,
        t,
        write_packet-encode (new_end_okay_packet bs.req (is_stream bs)) o
            (okay_fits bs.req (is_stream bs)) room,
      )
      (refl, refl, refl)
