-- ===== src/Codec/RoundTrip/Sessions.antt =====
-- A run of WritePacket, ended by Close, and ReadAllPackets over what was sent.
use go_muxrpc.Base.{
  ℕ, zero, suc, ◌≤◌, ◌<◌, ◌≡◌, refl, List, [], ◌∷◌, ◌++◌, append_assoc, append-nil, Option, none,
  some, length, length-append, All, arith,
}
use go_muxrpc.Errors.{Err, sentinel, eof, ok, err, errors_is}
use go_muxrpc.Codec.Stream.{Bytes, Output, close}
use go_muxrpc.Codec.Packet.{
  Packet, encode, header_bytes, header_of, length-header_bytes, is_goodbye, parse_header,
}
use go_muxrpc.Codec.Reader.{read_header, check_header, read_all_loop, read_all, round, body_round}
use go_muxrpc.Codec.Writer.{write_packet, max_buffer_size, goodbye, close_writer, close_underlying}
use go_muxrpc.Codec.RoundTrip.Steps.{read_full-append, write-unlimited}
use go_muxrpc.Codec.RoundTrip.Packets.{
  IsSendable, input, header_read, body_length, write_packet_max-encode,
}

-- The next write, unless the last one failed.
unfoldable pub and_then : Output × Option Err → (Output → Output × Option Err) → Output × Option Err
and_then (o, some e) f = (o, some e)
and_then (o, none) f = f o

-- WritePacket for each packet, up to the first error.
unfoldable pub write_packets : List Packet → Output → Output × Option Err
unfolding and_then
write_packets [] o = (o, none)
write_packets (p ∷ ps) o = and_then (write_packet p o) (write_packets ps)

unfoldable pub encodes : List Packet → Bytes
encodes [] = []
encodes (p ∷ ps) = encode p ++ encodes ps

pub write_packet-encode :
    (p : Packet) (o : Output)
    → length p.body ≤ max_buffer_size
    → o.room ≡ none
    → write_packet p o ≡ (record o { sent = o.sent ++ encode p }, none)
unfolding write_packet
write_packet-encode p o h r = write_packet_max-encode max_buffer_size p o h r

write_packets-encodes :
    (ps : List Packet) (o : Output)
    → All IsSendable ps
    → o.room ≡ none
    → write_packets ps o ≡ (record o { sent = o.sent ++ encodes ps }, none)
unfolding write_packets encodes
write_packets-encodes [] o s r = rw (append-nil o.sent)
write_packets-encodes (p ∷ ps) o s r = rw (
  write_packet-encode p o s.0.fits r,
  write_packets-encodes ps (record o { sent = o.sent ++ encode p }) s.1 r,
  append_assoc o.sent (encode p) (encodes ps),
)

close_writer-sent : (o : Output) → o.room ≡ none → (close_writer o).0.sent ≡ o.sent ++ goodbye
unfolding close_writer close_underlying close
close_writer-sent o r = rw (write-unlimited goodbye o r) (ground arith)

pub goodbye_read :
    (rest : Bytes) (fin : Err)
    → read_header (input (goodbye ++ rest) fin) ≡ (input rest fin, err (sentinel eof))
unfolding read_header check_header parse_header is_goodbye
goodbye_read rest fin = rw (read_full-append goodbye rest fin)

-- One round on a whole packet.
read_all_loop_more :
    (f : ℕ) (p : Packet) (rest : Bytes) (fin : Err) (acc : List Packet)
    → IsSendable p
    → read_all_loop (suc f) (input (encode p ++ rest) fin) acc
      ≡ read_all_loop f (input rest fin) (acc ++ (p ∷ []))
unfolding read_all_loop round body_round
read_all_loop_more f p rest fin acc s =
    rw (header_read p rest fin s, body_length p s, read_full-append p.body rest fin)

read_all_loop-encodes :
    (ps : List Packet) (f : ℕ) (rest : Bytes) (fin : Err) (acc : List Packet)
    → All IsSendable ps
    → length ps < f
    → read_all_loop f (input (encodes ps ++ (goodbye ++ rest)) fin) acc
      ≡ some (input rest fin, ok (acc ++ ps))
unfolding encodes
read_all_loop-encodes ps zero rest fin acc s h = elim h [ ]
read_all_loop-encodes [] (suc f) rest fin acc s h =
    unfold read_all_loop round errors_is in rw (goodbye_read rest fin, append-nil acc)
read_all_loop-encodes (p ∷ ps) (suc f) rest fin acc s h = rw (
  append_assoc (encode p) (encodes ps) (goodbye ++ rest),
  read_all_loop_more f p (encodes ps ++ (goodbye ++ rest)) fin acc s.0,
  read_all_loop-encodes ps f rest fin (acc ++ (p ∷ [])) s.1 (omega arith),
  append_assoc acc (p ∷ []) ps,
)

pub length-encodes : (ps : List Packet) → length ps ≤ length (encodes ps)
unfolding encodes
length-encodes [] = omega arith
length-encodes (p ∷ ps) = omega (
  arith,
  length-append (encode p) (encodes ps),
  length-append (header_bytes (header_of p)) p.body,
  length-header_bytes (header_of p),
  length-encodes ps,
)

-- Packets that are sent one after the other and followed by Close are all sent without an error, and
-- ReadAllPackets returns just these packets, in order, and leaves on the input what follows the
-- goodbye.
pub read_all-write_packets :
    (ps : List Packet) (o : Output) (rest : Bytes) (fin : Err)
    → All IsSendable ps
    → o.room ≡ none
    → o.sent ≡ []
    → let (o', e) = write_packets ps o in
      (e ≡ none)
      × (read_all (input ((close_writer o').0.sent ++ rest) fin) ≡ some (input rest fin, ok ps))
unfolding read_all
read_all-write_packets ps o rest fin s r c =
    rw
      (
        write_packets-encodes ps o s r,
        close_writer-sent (record o { sent = o.sent ++ encodes ps }) r,
        c,
        append_assoc (encodes ps) goodbye rest,
      )
      (
        refl,
        read_all_loop-encodes ps _ rest fin [] s
            (omega (arith, length-encodes ps, length-append (encodes ps) (goodbye ++ rest))),
      )
