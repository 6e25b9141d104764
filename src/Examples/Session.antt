-- ===== src/Examples/Session.antt =====
-- Sessions.
use go_muxrpc.Base.{
  ℕ, ◌+◌, ◌-◌, ◌^◌, ◌<◌, ◌≡◌, ◌≢◌, refl, true, false, none, some, [], ◌∷◌, ◌++◌, arith,
}
use go_muxrpc.Errors.{ok, sentinel, eof}
use go_muxrpc.Codec.Packet.{Header}
use go_muxrpc.Codec.RoundTrip.Packets.{input}
use go_muxrpc.Codec.Flag
use go_muxrpc.Session.State.{
  terminate, close_stream, set_input, set_output, set_request, Session, Request, active,
}
use go_muxrpc.Session.Client.{register, send_first, sent_first, new_call, start, next_id, wire_call}
use go_muxrpc.Session.Invariant.Ending.{terminate-none}
use go_muxrpc.Session.Invariant.Closing.{first_of, regular, serve_packet-end, serve_packet-closed}
use go_muxrpc.Source.ByteSource.Life.{new-IsSound}
use go_muxrpc.Packets.{true_bytes}
use go_muxrpc.Base.Assoc.{member, add, lookup, insert}
use go_muxrpc.Session.Serve.{go_on, serve, serve_packet, serve_round, serve_end, maybe_discard}
use go_muxrpc.Session.Serve.Framing.{serve_packet-conn}
use go_muxrpc.Session.Serve.Ends.{serve-ne-none}
use go_muxrpc.Session.Wire.Take.{is_call_type}
use go_muxrpc.Session.Wire.{serve_round-start}
use go_muxrpc.Session.Invariant.Reach.{arrives, opened, calls_out, new_session, reach-maps}
use go_muxrpc.Examples.Fixtures.{
  eof_error, words, words-DecodesCalls, marshal_word, ping, ping_request, packer_of, no_manifest,
}

abbrev pub caller : Session
caller = new_session (packer_of []) no_manifest

abbrev pub callee : Session
callee =
    new_session (packer_of ((start words ping_request caller).0.packer.output.sent ++ (9 ∷ [])))
      no_manifest

pub word_marshalled : words.marshal_call (wire_call ping_request) ≡ ok ping
unfolding wire_call marshal_word new_call
word_marshalled = refl

is_call : is_call_type ping_request.call_type ≡ true
unfolding is_call_type new_call
is_call = refl

pub nothing_active : (id : ℕ) (s : Session) → s.reqs ≡ [] → active id s ≡ none
unfolding active member
nothing_active id s e = rw e refl

pub nothing_closed : (id : ℕ) → member id [] ≡ false
unfolding member
nothing_closed id = refl

serve_round-start_example :
    let id = 2 ^ 32 - (0 + 1) in
    let (t', v) = serve_round words false (λ m. true) false callee in
    ((start words ping_request caller).1 ≡ none)
    × (v ≡ go_on)
    × (t'.packer.input ≡ input (9 ∷ []) eof_error)
    × (t'.calls ≡ id ∷ [])
    × (q : Request) × (active id t' ≡ some q)
    × (q.method ≡ ping ∷ [])
    × (q.raw_args ≡ some (wire_call ping_request).args)
    × (q.call_type ≡ ping_request.call_type)
    × (q.sink.req ≡ id)
unfolding new_call
serve_round-start_example =
    serve_round-start words false (λ m. true) false ping_request ping (9 ∷ []) eof_error caller
      callee words-DecodesCalls word_marshalled (omega arith) refl refl (omega arith) is_call refl
      refl (nothing_active (2 ^ 32 - (0 + 1)) callee refl) (nothing_closed (2 ^ 32 - (0 + 1))) refl

abbrev pub after_call : Session
after_call = (start words ping_request caller).0

reach-maps_example :
    (member 1 after_call.reqs ≡ true
      → (member 1 after_call.reqs_closed ≡ false)
        × (r : Request) × (active 1 after_call ≡ some r)
        × (r.id ≡ 1)
        × (r.sink.req ≡ 1))
    × (after_call.highest + 1 < 2 ^ 31
        → (member (next_id after_call) after_call.reqs ≡ false)
          × (member (next_id after_call) after_call.reqs_closed ≡ false))
reach-maps_example =
    reach-maps {x = words} {handled = λ m. true}
      (calls_out (opened (packer_of []) no_manifest) (omega arith) ping_request) 1

-- An end packet for a request that is not known: its body is left.
abbrev unknown_end : Header
unknown_end = record { flag = 14; len = 1; req = 5 }

abbrev receiver : Session
receiver = new_session (packer_of (7 ∷ 8 ∷ [])) no_manifest

receiver_goes_on : (serve_packet words false (λ m. true) unknown_end receiver).1 ≡ go_on
unfolding serve_packet serve_end active member maybe_discard Flag.get
receiver_goes_on = refl

serve_packet-conn_example :
    (serve_packet words false (λ m. true) unknown_end receiver).0.packer.input
    ≡ input (7 ∷ 8 ∷ []) eof_error
unfolding active member Flag.get
serve_packet-conn_example =
    serve_packet-conn words false (λ m. true) unknown_end receiver (7 ∷ []) (8 ∷ []) eof_error refl
      refl (omega arith) (omega arith) receiver_goes_on

serve-ne-none_example : serve 3 words false (λ m. true) false receiver ≢ none
serve-ne-none_example = serve-ne-none 3 words false (λ m. true) false receiver (omega arith)

-- The caller again, once the regular end of its call has come.
abbrev answered : Session
answered = set_input (input (true_bytes ++ (9 ∷ [])) eof_error) after_call

abbrev pub called : Request
called = record ping_request {
  id = 1;
  sink = record ping_request.sink { req = 1 };
  raw_args = some [];
}

abbrev regular_end : Header
regular_end = record { flag = 6; len = 4; req = 1 }

call_is_active : active 1 answered ≡ some called
unfolding active member lookup insert add register next_id start send_first sent_first new_call
    set_input set_output set_request marshal_word wire_call
call_is_active = refl

serve_packet-end_example :
    let (t, v) = serve_packet words false (λ m. true) regular_end answered in
    (v ≡ go_on)
    × (t.packer.input ≡ input (9 ∷ []) eof_error)
    × (active 1 t ≡ none)
    × (member 1 t.reqs_closed ≡ true)
    × (q : Request) × (lookup 1 t.store ≡ some q)
    × (q.source.failed ≡ some (first_of called.source.failed (sentinel eof)))
unfolding Flag.get new_call set_input
serve_packet-end_example =
    serve_packet-end {x = words} {handled = λ m. true} false regular_end answered called true_bytes
      (9 ∷ []) eof_error (sentinel eof)
      (arrives (calls_out (opened (packer_of []) no_manifest) (omega arith) ping_request)
        (input (true_bytes ++ (9 ∷ [])) eof_error))
      refl call_is_active (new-IsSound none) refl refl (omega arith) regular

serve_packet-closed_example :
    let t = close_stream words false called none receiver in
    serve_packet words false (λ m. true) (record { flag = 2; len = 1; req = 1 }) t
    ≡ (set_input (input (8 ∷ []) eof_error) t, go_on)
serve_packet-closed_example =
    serve_packet-closed words false (λ m. true) (record { flag = 2; len = 1; req = 1 }) receiver
      called none (7 ∷ []) (8 ∷ []) eof_error refl refl refl

terminate-none_example :
    let t = (terminate words false after_call).0 in
    (member 1 t.reqs ≡ false)
    × (active 1 t ≡ none)
    × (member 1 after_call.reqs ≡ true → member 1 t.reqs_closed ≡ true)
terminate-none_example =
    terminate-none {x = words} {handled = λ m. true} false
      (calls_out (opened (packer_of []) no_manifest) (omega arith) ping_request) 1
