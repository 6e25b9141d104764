-- ===== src/Session/Client.antt =====
-- rpc_client.go: calls of the remote, and the call of rpc_manifest.go that asks for the manifest.
use go_muxrpc.Base.{
  ℕ, ◌+◌, ◌%◌, ◌^◌, length, Bool, true, false, Option, none, some, List, [], ◌∷◌, Text, text, ◌==◌,
  if◌then◌else◌,
}
use go_muxrpc.Base.Assoc.{add}
use go_muxrpc.Errors.{
  Err, new, wrap, no_such_method, CallType, async, source, sink, duplex, Result, ok, err,
}
use go_muxrpc.External.{External, Call}
use go_muxrpc.Codec.Stream.{Bytes, Output}
use go_muxrpc.Codec.Writer.{write_packet, wrapped}
use go_muxrpc.Codec.Flag
use go_muxrpc.Manifest.{handled}
use go_muxrpc.Source.ByteSource.{ByteSource, new_byte_source, source_reader, source_err}
use go_muxrpc.Sink.{new_byte_sink, as_codec_flag, type_binary, type_string, type_json}
use go_muxrpc.Session.State.{Session, Request, set_output, set_request}

-- `CallType.Flags`
unfoldable pub type_flags : CallType → ℕ
type_flags source = Flag.stream
type_flags sink = Flag.stream
type_flags duplex = Flag.stream
type_flags _ = 0

abbrev pub no_args : Bytes
no_args = b'[' ∷ b']' ∷ []

-- `marshalCallArgs`: there are no arguments, or `json.Marshal` gives a result.
unfoldable pub marshal_call_args : Option (Result Bytes) → Result Bytes
marshal_call_args none = ok no_args
marshal_call_args (some (ok b)) = ok b
marshal_call_args (some (err e)) = err (wrap (text "error marshaling request arguments: ") e)

abbrev pub args_or_empty : Option Bytes → Bytes
args_or_empty none = no_args
args_or_empty (some b) = b

-- The next request id: an int32 wraps around.
unfoldable pub next_id : Session → ℕ
next_id s = (s.highest + 1) % 2 ^ 32

unfoldable pub wire_call : Request → Call
wire_call r = record { name = r.method; args = args_or_empty r.raw_args; type = r.call_type }

-- `r.highest++`, and the request enters the map under that id.
unfoldable pub register : Request → Session → Session
unfolding next_id set_request add
register r s =
    let id = next_id s in
    let r' : Request = record r {
      id = id;
      sink = record r.sink { req = id };
      raw_args = some (args_or_empty r.raw_args);
    } in
    record (set_request r' s) { highest = id; reqs = add id s.reqs }

unfoldable pub sent_first : Session → Output × Option Err → Session × Option Err
sent_first s (o, e) = (set_output o s, e)

unfoldable pub send_first : Result Bytes → ℕ → CallType → Session → Session × Option Err
unfolding sent_first type_flags
send_first (err e) id t s = (s, some e)
send_first (ok body) id t s = sent_first s (
    write_packet
      (record { flag = Flag.set (Flag.set 0 Flag.json) (type_flags t); req = id; body = body })
      s.packer.output)

-- `start`: the request is in the map before its packet is encoded and sent, and stays there if that
-- fails. The new id is the new `highest`.
unfoldable pub start : External → Request → Session → Session × Option Err
unfolding send_first
start x r s = send_first (x.marshal_call (wire_call r)) (next_id s) r.call_type (register r s)

-- The request of a call: its sink has the flags that the caller sets.
unfoldable pub new_call : CallType → List Text → Bytes → ℕ → Option Err → Request
unfolding new_byte_source new_byte_sink
new_call t method args flag ctx = record {
  call_type = t;
  method = method;
  raw_args = some args;
  id = 0;
  source = new_byte_source ctx;
  sink = record (new_byte_sink ctx) { flag = flag };
  abortable = true;
  of_session = false;
}

-- The flags of the sink of each kind of call: only sinks and duplexes get the stream flag.
unfoldable pub call_flag : CallType → ℕ → ℕ
call_flag source enc = Flag.set 0 enc
call_flag sink enc = Flag.set (Flag.set 0 enc) Flag.stream
call_flag duplex enc = Flag.set (Flag.set 0 enc) Flag.stream
call_flag _ enc = enc

send_error : CallType → Text
send_error async = text "muxrpc(): error sending request: "
send_error _ = text "error sending request: "

started : CallType → Session × Option Err → Session × Result ℕ
started t (s, none) = (s, ok s.highest)
started t (s, some e) = (s, err (wrap (send_error t) e))

with_flag :
    External → CallType → List Text → Bytes → Option Err → Result ℕ → Session → Session × Result ℕ
unfolding started send_error
with_flag x t method args ctx (err e) s = (s, err e)
with_flag x t method args ctx (ok enc) s =
    started t (start x (new_call t method args (call_flag t enc) ctx) s)

with_args :
    External → CallType → ℕ → List Text → Option Err → Result Bytes → Session → Session × Result ℕ
unfolding with_flag
with_args x t re method ctx (err e) s = (s, err e)
with_args x t re method ctx (ok args) s = with_flag x t method args ctx (as_codec_flag re) s

-- `Source`, `Sink` and `Duplex`, and `Async` up to its wait: the id of the call, or an error. The type
-- tells them apart.
unfoldable pub call :
    External
    → CallType
    → ℕ
    → List Text
    → Option (Result Bytes)
    → Option Err
    → Session
    → Session × Result ℕ
unfolding with_args
call x t re method args ctx s = elim (handled method s.manifest) [
  | none ↦ (s, err (no_such_method method))
  | some _ ↦ with_args x t re method ctx (marshal_call_args args) s
]

-- The type of the value that the caller of `Async` wants, and what the code requires of its encoding.
pub data Ret : Type 0 where
  ret_bytes ret_string : Ret
  ret_json : (Bytes → ℕ × Option Err) → Ret

entry_error : Err
entry_error = new (text "unexpected requst encoding")

-- `processEntry`: how much of the frame is read, and its error.
unfoldable pub process_entry : Ret → ℕ → Bytes → ℕ × Option Err
unfolding entry_error
process_entry ret_bytes re b = if re == type_binary then (length b, none) else (0, some entry_error)
process_entry ret_string re b =
    if re == type_string then (length b, none) else (0, some entry_error)
process_entry (ret_json decode) re b =
    if re == type_json
    then (let (k, e) = decode b in
        (k, wrapped (text "error decoding json from request source: ") e))
    else (0, some entry_error)

no_data : Option Err → Err
no_data none = new (text "muxrpc: did not receive data for request")
no_data (some e) = wrap (text "muxrpc: data source errored: ") e

-- `%w` of a nil error wraps nothing.
unfoldable pub async_failed : Option Err → Option Err → Option Err
async_failed none src = none
async_failed (some e) none = some (new (text "muxrpc(): async call failed: "))
async_failed (some e) (some f) = some (wrap (text "muxrpc(): async call failed: ") f)

-- The end of `Async`, once `Next` has answered.
unfoldable pub async_end : Ret → ℕ → Bool → ByteSource → ByteSource × Option Err
unfolding no_data async_failed
async_end ret re false bs = (bs, some (no_data (source_err bs)))
async_end ret re true bs =
    let (bs', e) = source_reader (process_entry ret re) bs in (bs', async_failed e (source_err bs'))
