-- ===== src/Examples/SourceCall.antt =====
-- A source call and a sink call between two sessions.
use go_muxrpc.Base.{
  sym, ◌+◌, ◌-◌, ◌^◌, ◌≡◌, refl, ap, true, false, none, some, List, [], ◌∷◌, ◌++◌, Text, length,
  ◌==◌, if◌then◌else◌, arith,
}
use go_muxrpc.Errors.{new, Result, ok, err, CallType, async, sync, source, sink, duplex, other}
use go_muxrpc.External.{External, Call, DecodesCalls}
use go_muxrpc.Codec.Stream.{Bytes}
use go_muxrpc.Sink.{is_end}
use go_muxrpc.Source.ByteSource.{more_frames}
use go_muxrpc.Session.State.{Session, Request, active}
use go_muxrpc.Session.Client.{start, new_call, wire_call}
use go_muxrpc.Session.Serve.{go_on, serve_round}
use go_muxrpc.Session.Invariant.Reach.{opened, new_session}
use go_muxrpc.Session.Wire.Answer.Turns.{hears}
use go_muxrpc.Session.Wire.Streams.{rounds}
use go_muxrpc.Session.Wire.Streams.Delivered.{Delivered, stream_sent}
use go_muxrpc.Session.Wire.Streams.Called.{source_call-Delivered}
use go_muxrpc.Codec.Flag
use go_muxrpc.Session.Wire.Reply.{registered}
use go_muxrpc.Examples.Fixtures.{eof_error, ping, packer_of, no_manifest, words}
use go_muxrpc.Examples.Session.{nothing_active, nothing_closed}

-- An encoding of source and sink calls of a one-word method without arguments: the type, and the word.
unfoldable marshal_stream : List Text → Bytes → CallType → Result Bytes
marshal_stream (n ∷ []) [] source = ok (1 ∷ n)
marshal_stream (n ∷ []) [] sink = ok (2 ∷ n)
marshal_stream _ _ _ = err (new [])

unfoldable stream_call : Bytes → Call
stream_call [] = record { name = []; args = []; type = source }
stream_call (c ∷ b) = record { name = b ∷ []; args = []; type = if c == 1 then source else sink }

abbrev streams : External
streams = record words {
  marshal_call = λ c. marshal_stream c.name c.args c.type;
  decode_call = λ b. (length b, ok (stream_call b));
}

stream-decodes :
    (n : List Text) (a : Bytes) (t : CallType) (b : Bytes)
    → marshal_stream n a t ≡ ok b
    → stream_call b ≡ record { name = n; args = a; type = t }
unfolding marshal_stream stream_call
stream-decodes (n ∷ []) [] source b e =
    let same : 1 ∷ n ≡ b = ground (arith, e) in ap stream_call (sym same)
stream-decodes (n ∷ []) [] sink b e =
    let same : 2 ∷ n ≡ b = ground (arith, e) in ap stream_call (sym same)
stream-decodes (n ∷ []) [] sync b e = absurd (cc e)
stream-decodes (n ∷ []) [] async b e = absurd (cc e)
stream-decodes (n ∷ []) [] duplex b e = absurd (cc e)
stream-decodes (n ∷ []) [] (other m) b e = absurd (cc e)
stream-decodes (n ∷ []) (a ∷ rest) t b e = absurd (cc e)
stream-decodes [] a t b e = absurd (cc e)
stream-decodes (n ∷ m ∷ ns) a t b e = absurd (cc e)

streams-DecodesCalls : DecodesCalls streams
streams-DecodesCalls = record {
  decode-marshal = λ c b e. ap (λ q. (length b, ok q)) (stream-decodes c.name c.args c.type b e);
}

abbrev stream_request : Request
stream_request = new_call source (ping ∷ []) [] 0 none

abbrev fresh_session : Session
fresh_session = new_session (packer_of []) no_manifest

abbrev asked_session : Session
asked_session =
    new_session
      (packer_of ((start streams stream_request fresh_session).0.packer.output.sent ++ (9 ∷ [])))
      no_manifest

stream_marshalled : streams.marshal_call (wire_call stream_request) ≡ ok (1 ∷ ping)
unfolding wire_call marshal_stream new_call
stream_marshalled = refl

nil_ends : is_end none ≡ true
unfolding is_end
nil_ends = refl

abbrev written : List Bytes
written = (1 ∷ 2 ∷ []) ∷ [] ∷ []

source_call-Delivered_example :
    let (t', w) = serve_round streams false (λ m. true) false asked_session in
    (w ≡ go_on)
    × (q : Request) × (active (2 ^ 32 - (0 + 1)) t' ≡ some q)
    × Delivered more_frames written (8 ∷ []) eof_error (0 + 1) (
        rounds
          (2 + 2)
          streams
          false
          (λ m. true)
          false
          (hears
            (stream_sent streams none q written t').packer.output.sent
            (8 ∷ [])
            eof_error
            (start streams stream_request fresh_session).0))
source_call-Delivered_example =
    source_call-Delivered {x = streams} {handled = λ m. true} (opened (packer_of []) no_manifest)
      false false (λ m. true) (ping ∷ []) [] (1 ∷ ping) (9 ∷ []) (8 ∷ []) 0 none eof_error eof_error
      asked_session written none more_frames streams-DecodesCalls (omega arith) refl refl refl
      stream_marshalled (omega arith) refl refl refl refl
      (nothing_active (2 ^ 32 - (0 + 1)) asked_session refl) (nothing_closed (2 ^ 32 - (0 + 1)))
      refl (omega arith) (omega arith) nil_ends

abbrev sink_request : Request
sink_request = new_call sink (ping ∷ []) [] 8 none

abbrev called_sink : Session
called_sink = (start streams sink_request fresh_session).0

abbrev its_request : Request
its_request = registered sink_request fresh_session

abbrev sink_server : Session
sink_server =
    new_session
      (packer_of
        ((stream_sent streams none its_request written called_sink).packer.output.sent ++ (8 ∷ [])))
      no_manifest
