-- ===== src/Codec/RoundTrip/Truncation.antt =====
-- ReadPacket on a connection that ends inside a packet.
use go_muxrpc.Base.{
  ℕ, ◌+◌, ◌≤◌, ◌<◌, ◌≡◌, refl, ap, [], ◌∷◌, ◌++◌, ◌||◌, inl, inr, Bool-cases, ltb, ◌==◌,
  if◌then◌else◌, length, length-append, arith, text,
}
use go_muxrpc.Errors.{Err, sentinel, wrap, eof, unexpected_eof, err}
use go_muxrpc.Codec.Stream.{Bytes, read_full, short_read}
use go_muxrpc.Codec.Packet.{
  Packet, Header, encode, header_of, header_bytes, header_size, length-header_bytes,
}
use go_muxrpc.Codec.Reader.{
  read_header, check_header, header_error, body_error, read_packet, read_body, packet_of,
}
use go_muxrpc.Codec.RoundTrip.Steps.{read_header-header_bytes}
use go_muxrpc.Codec.RoundTrip.Packets.{IsSendable, input, body_length}

-- The error on an input that ends after `n` bytes of a packet.
abbrev pub cut_error : ℕ → Err
cut_error n =
    if n == 0 || n == header_size
    then sentinel eof
    else if ltb n header_size
    then wrap (text "pkt-codec: header read failed: ") (sentinel unexpected_eof)
    else wrap (text "pkt-codec: read body failed: ") (sentinel unexpected_eof)

-- Two ways to cut one list.
split_front :
    (a b c d : Bytes)
    → a ++ b ≡ c ++ d
    → length a ≤ length c
    → (m : Bytes) × (c ≡ a ++ m) × (b ≡ m ++ d)
split_front [] b c d e h = (c, refl, e)
split_front (x ∷ a) b [] d e h = elim h [ ]
split_front (x ∷ a) b (y ∷ c) d e h =
    let (m, p, q) = split_front a b c d (cc) (omega arith) in (m, cc, q)

short_header :
    (front : Bytes)
    → length front < header_size
    → (read_packet (input front (sentinel eof))).1 ≡ err (cut_error (length front))
unfolding read_packet read_body read_header check_header header_error read_full short_read
short_header [] h = refl
short_header (b ∷ bs) h = ground arith

short_read_body :
    (h : Header) (m : Bytes) (n : ℕ)
    → length m < n
    → packet_of h (read_full n (input m (sentinel eof))).1
      ≡ err (cut_error (header_size + length m))
unfolding packet_of body_error read_full short_read
short_read_body h [] n lt = ground arith
short_read_body h (b ∷ m) n lt = ground arith

short_body :
    (p : Packet) (m : Bytes)
    → IsSendable p
    → length m < length p.body
    → (read_packet (input (header_bytes (header_of p) ++ m) (sentinel eof))).1
      ≡ err (cut_error (header_size + length m))
unfolding read_packet read_body
short_body p m s h =
    rw
      (
        read_header-header_bytes (header_of p) m (sentinel eof) (omega arith) s.packet.req_word
            s.not_goodbye,
        body_length p s,
      )
      (short_read_body (record { flag = p.flag; len = length p.body; req = p.req }) m
        (length p.body) h)

cut_body :
    (p : Packet) (m : Bytes) (x : ℕ) (back : Bytes)
    → IsSendable p
    → p.body ≡ m ++ (x ∷ back)
    → (read_packet (input (header_bytes (header_of p) ++ m) (sentinel eof))).1
      ≡ err (cut_error (length (header_bytes (header_of p) ++ m)))
cut_body p m x back s b =
    rw (length-append (header_bytes (header_of p)) m, length-header_bytes (header_of p))
      (short_body p m s (omega (arith, ap length b, length-append m (x ∷ back))))

-- On a connection that ends inside a packet, ReadPacket returns io.EOF where it ends before the
-- packet or right behind its header, and otherwise an error that wraps io.ErrUnexpectedEOF: never a
-- packet.
pub read_packet_truncated :
    (p : Packet) (front : Bytes) (x : ℕ) (back : Bytes)
    → IsSendable p
    → encode p ≡ front ++ (x ∷ back)
    → (read_packet (input front (sentinel eof))).1 ≡ err (cut_error (length front))
read_packet_truncated p front x back s e = elim (Bool-cases (ltb (length front) header_size)) [
  | inl short ↦ short_header front (ground arith)
  | inr long ↦
      let (m, f, b) =
        split_front (header_bytes (header_of p)) p.body front (x ∷ back) e
          (ground (arith, length-header_bytes (header_of p))) in
      rw f (cut_body p m x back s b)
]
