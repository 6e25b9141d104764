-- ===== src/Session/Requests.antt =====
-- request.go: what a handler does with the request that it was given.
use go_muxrpc.Base.{
  ℕ, Bool, true, false, ◌||◌, Option, none, some, List, [], ◌∷◌, Text, text, if◌then◌else◌,
}
use go_muxrpc.Errors.{
  Err, sentinel, eof, eos, new, wrap, wrong_stream_type, errors_is, CallType, async, sync, source,
  sink, duplex, Result, ok, err,
}
use go_muxrpc.External.{External}
use go_muxrpc.Codec.Stream.{Bytes, Output}
use go_muxrpc.Source.ByteSource.{ByteSource}
use go_muxrpc.Sink.{ByteSink, set_encoding, type_string, type_json, close_with_error}
use go_muxrpc.Sink
use go_muxrpc.Session.State.{Session, Request, set_output, set_request, cancel_source, close_stream}

abbrev sends : CallType → Bool
sends source = true
sends duplex = true
sends _ = false

abbrev receives : CallType → Bool
receives sink = true
receives duplex = true
receives _ = false

abbrev pub returns : CallType → Bool
returns async = true
returns sync = true
returns _ = false

-- `ResponseSink` and `ResponseSource`
unfoldable pub response_sink : Request → Result ByteSink
response_sink r = if sends r.call_type then ok r.sink else err (wrong_stream_type r.call_type)

unfoldable pub response_source : Request → Result ByteSource
response_source r =
    if receives r.call_type then ok r.source else err (wrong_stream_type r.call_type)

-- `Method.UnmarshalJSON`, where `names` and `name` decode JSON as `[]string` and as `string`: the method that
-- it leaves, and its error.
unfoldable pub unmarshalled : Result (List Text) → Result Text → List Text → List Text × Option Err
unmarshalled (ok m) name old = (m, none)
unmarshalled (err e) (ok t) old = (t ∷ [], none)
unmarshalled (err e) (err f) old =
    (old, some (wrap (text "muxrpc/method: error decoding packet: ") f))

unfoldable pub unmarshal_method :
    (Bytes → Result (List Text))
    → (Bytes → Result Text)
    → Bytes
    → List Text
    → List Text × Option Err
unfolding unmarshalled
unmarshal_method names name d old = unmarshalled (names d) (name d) old

-- The value of `Return`: a string, or the result of `json.Marshal`.
pub data ReturnValue : Type 0 where
  string_value : Text → ReturnValue
  json_value : Result Bytes → ReturnValue

unfoldable pub written : Request → ByteSink × Output × Result ℕ → Session → Session × Option Err
written r (bs, o, ok n) s = (set_request (record r { sink = bs }) (set_output o s), none)
written r (bs, o, err e) s = (
  set_request (record r { sink = bs }) (set_output o s),
  some (wrap (text "muxrpc: error writing return value: ") e),
)

-- The encoding is one of the three, so it is set without a panic.
abbrev pub or_same : ByteSink → Option ByteSink → ByteSink
or_same bs none = bs
or_same bs (some bs') = bs'

abbrev pub set_or_same : ℕ → ByteSink → ByteSink
set_or_same re bs = or_same bs (set_encoding re bs)

abbrev pub return_bytes : ℕ → Bytes → Request → Session → Session × Option Err
return_bytes re b r s = written r (Sink.write b (set_or_same re r.sink) s.packer.output) s

unfoldable pub return_value : ReturnValue → Request → Session → Session × Option Err
unfolding written
return_value (string_value t) r s = return_bytes type_string t r s
return_value (json_value (ok b)) r s = return_bytes type_json b r s
return_value (json_value (err e)) r s = (
  set_request (record r { sink = set_or_same type_json r.sink }) s,
  some (wrap (text "muxrpc: error marshaling return value: ") e),
)

-- `Return`
unfoldable pub return_call : ReturnValue → Request → Session → Session × Option Err
unfolding return_value
return_call v r s =
    if returns r.call_type
    then return_value v r s
    else (s, some (new (text "cannot return value on stream")))

-- `cerr == nil || errors.Is(cerr, io.EOF) || errors.Is(cerr, luigi.EOS{})`
unfoldable pub is_regular_end : Option Err → Bool
unfolding errors_is
is_regular_end none = true
is_regular_end (some e) = errors_is e eof || errors_is e eos

-- `CloseWithError`: the source and the sink are ended, and then `closeStream` ends them again and takes
-- the request out of the map.
unfoldable pub close_request : External → Bool → Option Err → Request → Session → Session
unfolding cancel_source
close_request x late e r s =
    let regular = is_regular_end e in
    let src = cancel_source (if regular then none else e) r.source in
    let (bs, o, _) =
      close_with_error x late (if regular then some (sentinel eof) else e) r.sink s.packer.output in
    close_stream x late (record r { source = src; sink = bs }) e (set_output o s)

-- `Close`
unfoldable pub close_call : External → Bool → Request → Session → Session
close_call x late r s = close_request x late (some (sentinel eof)) r s
