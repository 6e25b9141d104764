-- ===== src/Codec/RoundTrip/Packets.antt =====
-- WritePacket and ReadPacket are inverse, and so are a run of WritePacket ended by Close, and
-- ReadAllPackets.
use go_muxrpc.Base.{
  ℕ, ◌%◌, ◌^◌, ◌≤◌, ◌≡◌, refl, false, [], ◌++◌, append_assoc, none, length, ltb_of_le, arith,
}
use go_muxrpc.Errors.{Err, ok}
use go_muxrpc.Codec.Stream.{Bytes, Input, Output}
use go_muxrpc.Codec.Packet.{Packet, IsPacket, encode, header_of, header_bytes, is_goodbye}
use go_muxrpc.Codec.Reader.{read_header, read_packet, read_body, packet_of}
use go_muxrpc.Codec.Writer.{write_packet_max, write_body, max_buffer_size}
use go_muxrpc.Codec.RoundTrip.Steps.{read_full-append, read_header-header_bytes, write-unlimited}

-- A packet that the wire carries: its length fits the header, and it is not the goodbye.
pub record IsSendable (p : Packet) : Type 0 where
  pub packet : IsPacket p
  pub fits : length p.body ≤ max_buffer_size
  pub not_goodbye : is_goodbye (header_of p) ≡ false

abbrev pub input : Bytes → Err → Input
input b fin = record { bytes = b; fin = fin }

pub header_read :
    (p : Packet) (rest : Bytes) (fin : Err)
    → IsSendable p
    → read_header (input (encode p ++ rest) fin) ≡ (input (p.body ++ rest) fin, ok (header_of p))
header_read p rest fin s = rw (append_assoc (header_bytes (header_of p)) p.body rest) (
    read_header-header_bytes (header_of p) (p.body ++ rest) fin (omega arith) s.packet.req_word
      s.not_goodbye)

pub body_length : (p : Packet) → IsSendable p → length p.body % 2 ^ 32 ≡ length p.body
body_length p s = omega arith

pub read_packet-encode :
    (p : Packet) (rest : Bytes) (fin : Err)
    → IsSendable p
    → read_packet (input (encode p ++ rest) fin) ≡ (input rest fin, ok p)
unfolding read_packet read_body packet_of
read_packet-encode p rest fin s =
    rw (header_read p rest fin s, body_length p s, read_full-append p.body rest fin)

pub write_packet_max-encode :
    (max : ℕ) (p : Packet) (o : Output)
    → length p.body ≤ max
    → o.room ≡ none
    → write_packet_max max p o ≡ (record o { sent = o.sent ++ encode p }, none)
unfolding write_packet_max write_body
write_packet_max-encode max p o h r = rw (
  ltb_of_le (length p.body) max h,
  write-unlimited (header_bytes (header_of p)) o r,
  write-unlimited p.body (record o { sent = o.sent ++ header_bytes (header_of p) }) r,
  append_assoc o.sent (header_bytes (header_of p)) p.body,
)

-- A packet that fits the limit of the build is sent whole, and reads back as itself, with what
-- follows it left on the input, unless its header is the goodbye.
pub read_packet-write_packet :
    (max : ℕ) (p : Packet) (o : Output) (rest : Bytes) (fin : Err)
    → max ≤ max_buffer_size
    → length p.body ≤ max
    → IsPacket p
    → is_goodbye (header_of p) ≡ false
    → o.room ≡ none
    → o.sent ≡ []
    → let (o', e) = write_packet_max max p o in
      (e ≡ none) × (read_packet (input (o'.sent ++ rest) fin) ≡ (input rest fin, ok p))
read_packet-write_packet max p o rest fin hm hl v g r c =
    rw (write_packet_max-encode max p o hl r, c)
      (
        refl,
        read_packet-encode p rest fin (record { packet = v; fits = omega arith; not_goodbye = g }),
      )
