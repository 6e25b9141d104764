-- ===== src/Examples/Codec.antt =====
-- The codec on one packet.
use go_muxrpc.Base.{◌≡◌, ◌≢◌, ◌↔◌, ◌⊎◌, refl, ap, true, false, none, some, [], ◌∷◌, ◌++◌, arith}
use go_muxrpc.Errors.{
  Err, sentinel, eof, wrap, ok, err, already_closed, op_error, syscall_error, errno,
}
use go_muxrpc.Errors.Classes.{WrapsClosed, BrokenPipe, already_closed-wrap}
use go_muxrpc.Codec.Stream.{Input}
use go_muxrpc.Codec.Packet.{IsPacket, encode, header_of, header_bytes, is_goodbye, be32}
use go_muxrpc.Codec.Reader.{read_packet, read_all}
use go_muxrpc.Codec.Writer.{write_packet_max, close_writer}
use go_muxrpc.Codec.RoundTrip.Packets.{input, read_packet-write_packet, read_packet-encode}
use go_muxrpc.Codec.RoundTrip.Sessions.{write_packets, read_all-write_packets}
use go_muxrpc.Codec.RoundTrip.Inversion.{read_packet_sound}
use go_muxrpc.Codec.RoundTrip.Truncation.{read_packet_truncated, cut_error}
use go_muxrpc.Codec.RoundTrip.Ends.{read_all-ne-none}
use go_muxrpc.Examples.Fixtures.{eof_error, fresh_output, small_packet, small-IsSendable}

read_packet-write_packet_example :
    let (o', e) = write_packet_max 100 small_packet fresh_output in
    (e ≡ none)
    × (read_packet (input (o'.sent ++ (9 ∷ [])) eof_error)
        ≡ (input (9 ∷ []) eof_error, ok small_packet))
read_packet-write_packet_example =
    read_packet-write_packet 100 small_packet fresh_output (9 ∷ []) eof_error (omega arith)
      (omega arith) small-IsSendable.packet small-IsSendable.not_goodbye refl refl

read_all-write_packets_example :
    let (o', e) = write_packets (small_packet ∷ small_packet ∷ []) fresh_output in
    (e ≡ none)
    × (read_all (input ((close_writer o').0.sent ++ (9 ∷ [])) eof_error)
        ≡ some (input (9 ∷ []) eof_error, ok (small_packet ∷ small_packet ∷ [])))
read_all-write_packets_example =
    read_all-write_packets (small_packet ∷ small_packet ∷ []) fresh_output (9 ∷ []) eof_error
      (small-IsSendable, (small-IsSendable, tt)) refl refl

abbrev small_input : Input
small_input = input (10 ∷ 0 ∷ 0 ∷ 0 ∷ 2 ∷ 0 ∷ 0 ∷ 0 ∷ 7 ∷ 1 ∷ 2 ∷ []) eof_error

small_encode : encode small_packet ≡ small_input.bytes
unfolding header_bytes be32
small_encode = refl

small_read : (read_packet small_input).1 ≡ ok small_packet
unfolding header_bytes be32
small_read = ap (λ q. q.1) (read_packet-encode small_packet [] eof_error small-IsSendable)

read_packet_sound_example :
    (small_input.bytes ≡ encode small_packet ++ (read_packet small_input).0.bytes)
    × (is_goodbye (header_of small_packet) ≡ false)
    × IsPacket small_packet
read_packet_sound_example = read_packet_sound small_input small_packet small_read (
  omega arith,
  (
    omega arith,
    (
      omega arith,
      (
        omega arith,
        (
          omega arith,
          (
            omega arith,
            (omega arith, (omega arith, (omega arith, (omega arith, (omega arith, tt))))),
          ),
        ),
      ),
    ),
  ),
)

read_packet_truncated_example :
    (read_packet (input (10 ∷ 0 ∷ 0 ∷ []) (sentinel eof))).1 ≡ err (cut_error 3)
read_packet_truncated_example =
    read_packet_truncated small_packet (10 ∷ 0 ∷ 0 ∷ []) 0 (2 ∷ 0 ∷ 0 ∷ 0 ∷ 7 ∷ 1 ∷ 2 ∷ [])
      small-IsSendable small_encode

read_all-ne-none_example : read_all small_input ≢ none
read_all-ne-none_example = read_all-ne-none small_input

-- A broken pipe, as the operating system reports it.
abbrev broken : Err
broken = op_error [] (syscall_error [] (errno 32 []))

already_closed-wrap_example :
    ((already_closed broken ≡ true) ↔ (WrapsClosed broken ⊎ BrokenPipe broken))
    × ((already_closed (wrap [] broken) ≡ true) ↔ WrapsClosed broken)
already_closed-wrap_example = already_closed-wrap [] broken
