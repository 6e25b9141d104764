-- ===== src/Codec/Writer.antt =====
-- codec/writer.go, and the limit of codec/buffer.go and codec/buffer_32bit.go.
--
-- The lock of the writer makes each call one step.
use go_muxrpc.Base.{
  ℕ, ◌-◌, ◌^◌, Text, [], ◌∷◌, Option, none, some, ltb, length, text, if◌then◌else◌,
}
use go_muxrpc.Errors.{Err, new, wrap}
use go_muxrpc.Codec.Stream.{Bytes, Output, write, close}
use go_muxrpc.Codec.Packet.{Packet, header_of, header_bytes}

-- `math.MaxUint32`; on 386 and arm it is 2 ^ 30.
abbrev pub max_buffer_size : ℕ
max_buffer_size = 2 ^ 32 - 1

abbrev pub max_buffer_size_32bit : ℕ
max_buffer_size_32bit = 2 ^ 30

-- `if err != nil { return fmt.Errorf(m + "%w", err) }`
abbrev pub wrapped : Text → Option Err → Option Err
wrapped m none = none
wrapped m (some e) = some (wrap m e)

unfoldable pub write_body : Bytes → Output × Option Err → Output × Option Err
write_body b (o, some e) = (o, some (wrap (text "pkt-codec: header write failed: ") e))
write_body b (o, none) =
    let (o', e) = write b o in (o', wrapped (text "pkt-codec: body write failed: ") e)

-- WritePacket, at the limit of the build.
unfoldable pub write_packet_max : ℕ → Packet → Output → Output × Option Err
unfolding write_body
write_packet_max max p o =
    if ltb max (length p.body)
    then (o, some (new (text "pkt-codec: body too large")))
    else write_body p.body (write (header_bytes (header_of p)) o)

unfoldable pub write_packet : Packet → Output → Output × Option Err
write_packet = write_packet_max max_buffer_size

abbrev pub goodbye : Bytes
goodbye = 0 ∷ 0 ∷ 0 ∷ 0 ∷ 0 ∷ 0 ∷ 0 ∷ 0 ∷ 0 ∷ []

unfoldable pub close_underlying : Output × Option Err → Output × Option Err
close_underlying (o, some e) =
    (o, some (wrap (text "pkt-codec: failed to write Close() packet: ") e))
close_underlying (o, none) =
    let (o', e) = close o in (o', wrapped (text "pkt-codec: failed to close underlying writer: ") e)

-- `Writer.Close`
unfoldable pub close_writer : Output → Output × Option Err
unfolding close_underlying
close_writer o = close_underlying (write goodbye o)
