-- ===== src/Codec/Reader.antt =====
-- codec/reader.go and codec/utils.go.
use go_muxrpc.Base.{
  ℕ, zero, suc, ◌%◌, ◌^◌, Bool, ◌||◌, List, [], ◌∷◌, ◌++◌, Option, none, some, length, text,
  if◌then◌else◌, ◌==◌,
}
use go_muxrpc.Errors.{
  Err, sentinel, new, wrap, eof, os_closed, closed_pipe, errors_is, Result, ok, err,
}
use go_muxrpc.Codec.Stream.{Bytes, Input, read_full, copy_n}
use go_muxrpc.Codec.Packet.{Packet, Header, header_size, parse_header, is_goodbye}

-- The errors that mean that the connection is closed.
unfoldable pub is_closed : Err → Bool
unfolding errors_is
is_closed e = errors_is e os_closed || errors_is e eof || errors_is e closed_pipe

unfoldable pub header_error : Err → Err
unfolding is_closed
header_error e =
    if is_closed e then sentinel eof else wrap (text "pkt-codec: header read failed: ") e

-- The goodbye header is the end of the input.
unfoldable pub check_header : Result Bytes → Result Header
unfolding header_error is_goodbye
check_header (err e) = err (header_error e)
check_header (ok b) =
    if is_goodbye (parse_header b) then err (sentinel eof) else ok (parse_header b)

unfoldable pub read_header : Input → Input × Result Header
unfolding check_header
read_header i = let (i', r) = read_full header_size i in (i', check_header r)

unfoldable pub body_error : Err → Err
unfolding is_closed
body_error e = if is_closed e then e else wrap (text "pkt-codec: read body failed: ") e

unfoldable pub packet_of : Header → Result Bytes → Result Packet
unfolding body_error
packet_of h (err e) = err (body_error e)
packet_of h (ok b) = ok (record { flag = h.flag; req = h.req; body = b })

unfoldable pub read_body : Input × Result Header → Input × Result Packet
unfolding packet_of
read_body (i, err e) = (i, err e)
read_body (i, ok h) = let (i', r) = read_full h.len i in (i', packet_of h r)

unfoldable pub read_packet : Input → Input × Result Packet
read_packet i = read_body (read_header i)

-- `io.Copy` of the body into a buffer; it copies at most `len` bytes.
unfoldable pub copied_error : Option Err → ℕ → ℕ → Option Err
copied_error (some e) n len = some (wrap (text "pkt-codec: failed to read full body: ") e)
copied_error none n len =
    if n % 2 ^ 32 == len then none else some (new (text "pkt-codec: failed to read full body"))

unfoldable pub read_body_into : ℕ → Input → Input × Bytes × Option Err
unfolding copied_error
read_body_into len i = let (i', b, e) = copy_n len i in (i', b, copied_error e (length b) len)

-- ReadAllPackets, one round of its loop: stop, fail, or go on with the packet that was read.
pub data Round : Type 0 where
  stop : Round
  fail : Err → Round
  more : Packet → Round

-- The body comes through a `LimitReader` of just its length.
unfoldable pub body_round : Header → Result Bytes → Round
body_round h (ok b) = more (record { flag = h.flag; req = h.req; body = b })
body_round h (err e) =
    if errors_is e eof
    then stop
    else fail (new (text "muxrpc: failed to get error body for closing of "))

unfoldable pub round : Input × Result Header → Input × Round
unfolding body_round
round (i, err e) = (i, (if errors_is e eof then stop else fail e))
round (i, ok h) = let (i', r) = read_full h.len i in (i', body_round h r)

-- What is done after a round: return, or go on at the next one.
unfoldable pub after_round :
    Input × Round
    → List Packet
    → (Input → List Packet → Option (Input × Result (List Packet)))
    → Option (Input × Result (List Packet))
after_round (i, stop) pkts next = some (i, ok pkts)
after_round (i, fail e) pkts next = some (i, err e)
after_round (i, more p) pkts next = next i (pkts ++ (p ∷ []))

-- `none` is that the fuel ran out.
unfoldable pub read_all_loop : ℕ → Input → List Packet → Option (Input × Result (List Packet))
unfolding after_round
read_all_loop zero i pkts = none
read_all_loop (suc f) i pkts = after_round (round (read_header i)) pkts (read_all_loop f)

-- Each round but the last takes a header at least, so one round for each byte and one more do.
unfoldable pub read_all : Input → Option (Input × Result (List Packet))
read_all i = read_all_loop (suc (length i.bytes)) i []
