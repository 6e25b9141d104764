-- ===== src/Session/Serve/Fetch.antt =====
-- rpc_server.go: maybeDiscardPacket, fetchRequest and parseNewRequest.
use go_muxrpc.Base.{
  ℕ, ◌^◌, Bool, true, false, not, Option, none, some, List, [], ◌∷◌, Text, text, ltb, length, take,
  drop, min, if◌then◌else◌,
}
use go_muxrpc.Base.Assoc.{member, add}
use go_muxrpc.Errors.{
  Err, new, wrap, no_such_method, CallType, async, source, sink, duplex, other, Result, ok, err,
}
use go_muxrpc.External.{External, Call}
use go_muxrpc.Codec.Stream.{Input, Output, copy_n}
use go_muxrpc.Codec.Packet.{Packet, Header}
use go_muxrpc.Codec.Writer.{write_packet}
use go_muxrpc.Codec.Flag
use go_muxrpc.Packets.{new_end_err_packet}
use go_muxrpc.Source.ByteSource.{new_byte_source}
use go_muxrpc.Sink.{new_byte_sink}
use go_muxrpc.Session.State.{Session, Request, active, set_input, set_output, set_request}

-- `maybeDiscardPacket`: no, yes (`errSkip`), or the error of the connection.
pub data Discard : Type 0 where
  keep skip : Discard
  broken : Err → Discard

abbrev pub discarded : Option Err → Discard
discarded none = skip
discarded (some e) = broken e

unfoldable pub maybe_discard : Header → Session → Session × Discard
unfolding member
maybe_discard h s =
    if member h.req s.reqs_closed
    then (let (i, b, e) = copy_n h.len s.packer.input in (set_input i s, discarded e))
    else (s, keep)

-- The type of a call that is no stream: `async` if it is not given.
abbrev pub default_type : CallType → CallType
default_type (other []) = async
default_type t = t

abbrev pub is_async : CallType → Bool
is_async async = true
is_async _ = false

abbrev pub is_stream_type : CallType → Bool
is_stream_type duplex = true
is_stream_type source = true
is_stream_type sink = true
is_stream_type _ = false

abbrev pub type_error : Err
type_error = new (text "new request: unhandled request type: ")

-- The request of an incoming call, whose context is made from that of the session.
unfoldable pub incoming : Header → Call → CallType → Option Err → Request
unfolding new_byte_source new_byte_sink
incoming h c t ctx = record {
  call_type = t;
  method = c.name;
  raw_args = some c.args;
  id = h.req;
  source = new_byte_source ctx;
  sink = record (new_byte_sink ctx) {
    req = h.req;
    flag = if Flag.get h.flag Flag.stream then Flag.set 0 Flag.stream else 0;
  };
  abortable = true;
  of_session = true;
}

unfoldable pub typed_request : Header → Option Err → Call → Result Request
typed_request h ctx c =
    if Flag.get h.flag Flag.stream
    then if is_stream_type c.type then ok (incoming h c c.type ctx) else err type_error
    else if is_async (default_type c.type)
    then ok (incoming h c async ctx)
    else err type_error

unfoldable pub decoded_request : Header → Option Err → Result Call → Result Request
unfolding typed_request
decoded_request h ctx (err e) = err (wrap (text "new request: error decoding packet: ") e)
decoded_request h ctx (ok c) = typed_request h ctx c

-- The body that the decoder is given: at most `len` bytes of the input.
unfoldable pub decode_body : External → ℕ → Input → Input × Result Call
decode_body x len i =
    let body = take len i.bytes in
    let (k, r) = x.decode_call body in (record i { bytes = drop (min k (length body)) i.bytes }, r)

-- `parseNewRequest`
unfoldable pub parse_new_request : External → Header → Session → Session × Result Request
parse_new_request x h s =
    if ltb h.req (2 ^ 31)
    then (s, err (new (text "new request: expected negative request id")))
    else if not (Flag.get h.flag Flag.json)
    then (s, err (new (text "new request: expected JSON flag for new call")))
    else (let (i, r) = decode_body x h.len s.packer.input in
        (set_input i s, decoded_request h s.serve_err r))

-- What `fetchRequest` gives: a request that was there, nothing more to do, or an error.
pub data Fetched : Type 0 where
  found : Request → Fetched
  fresh : Fetched
  failed : Err → Fetched

unfoldable pub refused : Header → Session → Output × Option Err → Session × Fetched
unfolding add
refused h s (o, some e) = (set_output o s, failed e)
refused h s (o, none) = (record (set_output o s) { reqs_closed = add h.req s.reqs_closed }, fresh)

-- A call of a method that is not handled is answered by an error, and its packets are ignored.
unfoldable pub refuse : Header → Result Packet → Session → Session × Fetched
unfolding refused
refuse h (err e) s = (s, failed e)
refuse h (ok p) s = refused h s (write_packet p s.packer.output)

-- The request is entered into the map, and its handler is started.
unfoldable pub accept : Request → Session → Session
unfolding set_request add
accept r s = record (set_request r s) { reqs = add r.id s.reqs; calls = r.id ∷ s.calls }

unfoldable pub admit :
    External → (List Text → Bool) → Header → Session × Result Request → Session × Fetched
unfolding refuse
admit x handled h (s, err e) = (s, failed e)
admit x handled h (s, ok r) =
    if handled r.method
    then (accept r s, fresh)
    else refuse h
        (new_end_err_packet x h.req (Flag.get h.flag Flag.stream) (no_such_method r.method)) s

-- `fetchRequest`
unfoldable pub fetch_request : External → (List Text → Bool) → Header → Session → Session × Fetched
fetch_request x handled h s = elim (active h.req s) [
  | some r ↦ (s, found r)
  | none ↦ admit x handled h (parse_new_request x h s)
]
