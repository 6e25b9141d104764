-- ===== src/Session/Serve.antt =====
-- rpc_server.go: the loop that takes packets off the connection.
--
-- `x` are the external functions, `handled` is `root.Handled`, `late` whether the last packet of a
-- stream misses its ten seconds, and `ctx_first` the choice of `NextHeader` between two closed
-- channels.
mod Fetch
pub mod Framing
pub mod Ends
pub use Fetch.{Discard, keep, skip, broken, Fetched, found, fresh, failed}
unfoldable pub use Fetch.{
  discarded, maybe_discard, default_type, is_async, is_stream_type, type_error, incoming,
  typed_request, decoded_request, decode_body, parse_new_request, refused, refuse, accept, admit,
  fetch_request,
}
use go_muxrpc.Base.{
  ℕ, zero, suc, ◌+◌, ◌^◌, Bool, true, false, ◌&&◌, not, Option, none, some, List, [], ◌∷◌, Text,
  text, ltb, leb, length, take, drop, min, ◌==◌, if◌then◌else◌,
}
use go_muxrpc.Base.Assoc.{member, add}
use go_muxrpc.Errors.{
  Err, sentinel, new, wrap, no_such_method, call_error, CallError, is_already_closed, CallType,
  async, source, sink, duplex, other, Result, ok, err,
}
use go_muxrpc.External.{External, Call}
use go_muxrpc.Codec.Stream.{Bytes, Input, Output, copy_n}
use go_muxrpc.Codec.Packet.{Packet, Header}
use go_muxrpc.Codec.Reader.{read_body_into}
use go_muxrpc.Codec.Writer.{write_packet}
use go_muxrpc.Codec.Flag
use go_muxrpc.Packets.{new_end_err_packet}
use go_muxrpc.Source.ByteSource.{ByteSource, new_byte_source, consume}
use go_muxrpc.Sink.{ByteSink, new_byte_sink}
use go_muxrpc.Session.Packer.{Packer, next_header}
use go_muxrpc.Session.State.{
  Session, Request, active, close_stream, set_input, set_output, set_request, terminate,
}

-- What a round of the loop does: go on, or return with an error or nil.
pub data Verdict : Type 0 where
  go_on : Verdict
  return : Option Err → Verdict

-- `isTrue`
unfoldable pub is_true : Bytes → Bool
is_true (a ∷ b ∷ c ∷ d ∷ []) = a == b't' && b == b'r' && c == b'u' && d == b'e'
is_true _ = false

-- The error that a packet ends a stream with.
pub data StreamEnd : Type 0 where
  ends : Option Err → StreamEnd
  bad : Err → StreamEnd

unfoldable pub parsed_error : Result CallError → StreamEnd
parsed_error (ok c) = ends (some (call_error c))
parsed_error (err e) = bad (
    wrap (text "error parsing error packet: ")
      (wrap (text "muxrpc: failed to unmarshal error packet: ") e))

unfoldable pub stream_end : External → Bytes → StreamEnd
unfolding parsed_error
stream_end x body = if is_true body then ends none else parsed_error (x.unmarshal_call_error body)

unfoldable pub closed_by : External → Bool → Request → StreamEnd → Session → Session × Verdict
closed_by x late r (bad e) s = (s, return (some e))
closed_by x late r (ends e) s = (close_stream x late r e s, go_on)

unfoldable pub end_body :
    External → Bool → Request → Input × Bytes × Option Err → Session → Session × Verdict
unfolding closed_by
end_body x late r (i, b, some e) s = (
  set_input i s,
  return (some (wrap (text "muxrpc: failed to get error body for closing of req: ") e)),
)
end_body x late r (i, b, none) s = closed_by x late r (stream_end x b) (set_input i s)

-- An end packet for a request that is not active. If it is not one to be ignored, its body is left.
unfoldable pub end_unknown : Session × Discard → Session × Verdict
end_unknown (s, keep) = (s, go_on)
end_unknown (s, skip) = (s, go_on)
end_unknown (s, broken e) = (s, return (some e))

unfoldable pub serve_end : External → Bool → Header → Session → Session × Verdict
unfolding end_body end_unknown
serve_end x late h s = elim (active h.req s) [
  | none ↦ end_unknown (maybe_discard h s)
  | some r ↦ end_body x late r (read_body_into h.len s.packer.input) s
]

unfoldable pub consumed :
    External → Bool → Request → Input × ByteSource × Option Err → Session → Session × Verdict
consumed x late r (i, bs, none) s = (set_request (record r { source = bs }) (set_input i s), go_on)
consumed x late r (i, bs, some e) s =
    let r' : Request = record r { source = bs } in
    (close_stream x late r' (some e) (set_request r' (set_input i s)), go_on)

unfoldable pub fetched : External → Bool → Header → Session × Fetched → Session × Verdict
unfolding consumed
fetched x late h (s, failed e) =
    (s, return (some (wrap (text "muxrpc: error unpacking request: ") e)))
fetched x late h (s, fresh) = (s, go_on)
fetched x late h (s, found r) = consumed x late r (consume h.len h.flag s.packer.input r.source) s

unfoldable pub data_kept :
    External → Bool → (List Text → Bool) → Header → Session × Discard → Session × Verdict
unfolding fetched
data_kept x late handled h (s, skip) = (s, go_on)
data_kept x late handled h (s, broken e) = (s, return (some e))
data_kept x late handled h (s, keep) = fetched x late h (fetch_request x handled h s)

unfoldable pub serve_data :
    External → Bool → (List Text → Bool) → Header → Session → Session × Verdict
unfolding data_kept
serve_data x late handled h s = data_kept x late handled h (maybe_discard h s)

unfoldable pub serve_packet :
    External → Bool → (List Text → Bool) → Header → Session → Session × Verdict
serve_packet x late handled h s =
    if Flag.get h.flag Flag.end_err then serve_end x late h s else serve_data x late handled h s

-- The error of the header.
unfoldable pub header_failed : Err → Session → Option Err
header_failed e s =
    if is_already_closed (some e)
    then none
    else if s.terminated
    then none
    else some (wrap (text "muxrpc: serve failed to read from packer: ") e)

unfoldable pub serve_header :
    External → Bool → (List Text → Bool) → Packer × Result Header → Session → Session × Verdict
serve_header x late handled (p, err e) s = (record s { packer = p }, return (header_failed e s))
serve_header x late handled (p, ok h) s = serve_packet x late handled h (record s { packer = p })

-- One round of `serve`.
unfoldable pub serve_round :
    External → Bool → (List Text → Bool) → Bool → Session → Session × Verdict
unfolding serve_header
serve_round x late handled ctx_first s =
    serve_header x late handled (next_header ctx_first s.serve_err s.packer) s

-- The deferred function: the session is terminated whatever the loop returned.
unfoldable pub serve_return : External → Bool → Option Err → Session → Session × Option Err
serve_return x late e s = ((terminate x late s).0, (if is_already_closed e then none else e))

unfoldable pub after_round :
    External
    → Bool
    → Session × Verdict
    → (Session → Option (Session × Option Err))
    → Option (Session × Option Err)
after_round x late (s, return e) next = some (serve_return x late e s)
after_round x late (s, go_on) next = next s

-- `serve`, for at most so many packets; `none` is that the connection delivers more.
unfoldable pub serve :
    ℕ → External → Bool → (List Text → Bool) → Bool → Session → Option (Session × Option Err)
unfolding after_round
serve zero x late handled ctx_first s = none
serve (suc n) x late handled ctx_first s =
    after_round x late (serve_round x late handled ctx_first s) (serve n x late handled ctx_first)
