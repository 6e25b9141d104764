-- ===== src/Codec/RoundTrip/Steps.antt =====
-- One read or write at a time: a full read takes the front of the input, a write with room appends.
use go_muxrpc.Base.{
  ◌≡◌, false, ◌++◌, none, length, length-append, take-append, drop-append, leb_of_le, arith,
}
use go_muxrpc.Errors.{Err, ok}
use go_muxrpc.Codec.Stream.{Bytes, Output, read_full, write}
use go_muxrpc.Codec.Packet.{
  Header, IsWord, header_bytes, length-header_bytes, parse_header-header_bytes, is_goodbye,
}
use go_muxrpc.Codec.Reader.{read_header, check_header}

pub read_full-append :
    (b rest : Bytes) (fin : Err)
    → read_full (length b) (record { bytes = b ++ rest; fin = fin })
      ≡ (record { bytes = rest; fin = fin }, ok b)
unfolding read_full
read_full-append b rest fin = rw (
  leb_of_le (length b) (length (b ++ rest)) (omega (arith, length-append b rest)),
  take-append b rest,
  drop-append b rest,
)

-- The header of a call reads back, unless it is the goodbye.
pub read_header-header_bytes :
    (h : Header) (rest : Bytes) (fin : Err)
    → IsWord h.len
    → IsWord h.req
    → is_goodbye h ≡ false
    → read_header (record { bytes = header_bytes h ++ rest; fin = fin })
      ≡ (record { bytes = rest; fin = fin }, ok h)
unfolding read_header check_header
read_header-header_bytes h rest fin hl hr g = rw (
  ← length-header_bytes h,
  read_full-append (header_bytes h) rest fin,
  parse_header-header_bytes h hl hr,
  g,
)

pub write-unlimited :
    (b : Bytes) (o : Output) → o.room ≡ none → write b o ≡ (record o { sent = o.sent ++ b }, none)
unfolding write
write-unlimited b o h = rw h
