-- ===== src/Session/Retrieve.antt =====
-- rpc_manifest.go, `retreiveManifest`: the first request of a session, and what its answer sets.
use go_muxrpc.Base.{ℕ, Bool, true, false, Option, none, some, [], ◌∷◌, text}
use go_muxrpc.Errors.{Err, sync, Result, ok, err}
use go_muxrpc.Codec.Stream.{Bytes}
use go_muxrpc.Codec.Writer.{write_packet}
use go_muxrpc.Codec.Flag
use go_muxrpc.Manifest.{Manifest, unmarshal, Fields}
use go_muxrpc.Source.ByteSource.{new_byte_source, source_reader, source_bytes}
use go_muxrpc.Sink.{new_byte_sink}
use go_muxrpc.Session.State.{Session, Request, end_context, set_output, set_request}
use go_muxrpc.Session.Client.{register, next_id, no_args}

unfoldable pub manifest_request : Option Err → Request
manifest_request ctx = record {
  call_type = sync;
  method = text "manifest" ∷ [];
  raw_args = some no_args;
  id = 0;
  source = new_byte_source ctx;
  sink = new_byte_sink ctx;
  abortable = false;
  of_session = true;
}

abbrev manifest_body : Bytes
manifest_body = text "{\"name\":\"manifest\",\"args\":[],\"type\":\"async\"}"

-- `cancel()` is deferred: when `retreiveManifest` returns, the contexts of the source and of the sink of
-- its request end. The request stays in the map.
unfoldable pub give_up : Request → Session → Session
unfolding end_context
give_up r s = set_request (end_context r) s

-- The request as it stands in the map.
abbrev pub manifest_sent : Session → Request
manifest_sent s =
    let r = manifest_request s.serve_err in
    record r { id = next_id s; sink = record r.sink { req = next_id s } }

unfoldable pub asked : Request → Session × Option Err → Session × Bool
unfolding give_up
asked r (s, none) = (s, true)
asked r (s, some e) = (give_up r s, false)

-- The request is sent; `true` is that the answer is then waited for. If no answer comes, `Next` is false
-- when the context ends, after a minute at the latest, and `give_up` is all that follows.
unfoldable pub ask_manifest : Session → Session × Bool
unfolding asked
ask_manifest s =
    let (o, e) =
      write_packet (record { flag = Flag.set 0 Flag.json; req = next_id s; body = manifest_body })
        s.packer.output in
    asked (manifest_sent s) (set_output o (register (manifest_request s.serve_err) s), e)

-- The result of decoding the answer: an object, or an error of the decoder.
abbrev take_answer : Result Fields → Manifest → Manifest
take_answer (err e) m = m
take_answer (ok fs) m =
    let (methods, e) = unmarshal fs m.methods in
    record { methods = methods; missing = elim e [ none ↦ false | some x ↦ m.missing ] }

abbrev decoded_answer : (Bytes → ℕ × Result Fields) → Result Bytes → Manifest → Manifest
decoded_answer decode (err e) m = m
decoded_answer decode (ok b) m = take_answer (decode b).1 m

-- The answer has come (`Next` is true), and a decoder reads some of its first frame. The frame is what
-- `Bytes` would return.
unfoldable pub answer_manifest : (Bytes → ℕ × Result Fields) → Request → Session → Session
unfolding give_up
answer_manifest decode r s =
    let (src, e) = source_reader (λ b. ((decode b).0, none)) r.source in
    record (give_up (record r { source = src }) s) {
      manifest = decoded_answer decode (source_bytes r.source).1 s.manifest;
    }
