-- ===== src/Examples/Wire.antt =====
-- Two sessions, there and back.
use go_muxrpc.Base.{◌+◌, ◌-◌, ◌^◌, ◌≡◌, refl, true, false, none, some, [], ◌∷◌, ◌++◌, arith}
use go_muxrpc.Errors.{Result, ok}
use go_muxrpc.Base.Assoc.{lookup, insert}
use go_muxrpc.Codec.Stream.{Bytes}
use go_muxrpc.Codec.RoundTrip.Packets.{input}
use go_muxrpc.Sink.{type_string}
use go_muxrpc.Source.ByteSource.{more_frames}
use go_muxrpc.Session.State.{Session, Request, active, set_input, set_request}
use go_muxrpc.Session.Client.{new_call, ret_string, process_entry}
use go_muxrpc.Session.Serve.{go_on, serve_round}
use go_muxrpc.Session.Requests.{ReturnValue, string_value, return_call, close_request}
use go_muxrpc.Session.Invariant.Reach.{opened, new_session}
use go_muxrpc.Session.Wire.Reply.{value_bytes, replied}
use go_muxrpc.Session.Wire.Answer.{async_call-Answered}
use go_muxrpc.Session.Wire.Answer.Turns.{Answered, hears}
use go_muxrpc.Session.Wire.Streams.Delivered.{stream_sent}
use go_muxrpc.Codec.Flag
use mathlib.Core.List.{List}
use go_muxrpc.Mux.{handle_call}
use go_muxrpc.Mux.Stubs.{register_async}
use go_muxrpc.Mux.Answers.{async_handler_answers}
use go_muxrpc.Examples.Fixtures.{
  eof_error, words, words-DecodesCalls, ping, packer_of, no_manifest, open_sink,
}
use go_muxrpc.Examples.Session.{
  callee, word_marshalled, nothing_active, nothing_closed, after_call, called,
}

abbrev pong : Bytes
pong = b'p' ∷ b'o' ∷ b'n' ∷ b'g' ∷ []

async_call-Answered_example :
    let (t', w) = serve_round words false (λ m. true) false callee in
    (w ≡ go_on)
    × (q : Request) × (active (2 ^ 32 - (0 + 1)) t' ≡ some q)
    × ((return_call (string_value pong) q t').1 ≡ none)
    × Answered ret_string type_string pong (0 + 1) more_frames (
        serve_round words false
          (λ m. true)
          false
          (hears
            (return_call (string_value pong) q t').0.packer.output.sent
            (8 ∷ [])
            eof_error
            after_call))
unfolding value_bytes process_entry new_call
async_call-Answered_example =
    async_call-Answered {x = words} {handled = λ m. true} (opened (packer_of []) no_manifest) false
      false (λ m. true) (ping ∷ []) [] ping (9 ∷ []) (8 ∷ []) 0 none eof_error eof_error callee
      (string_value pong) pong ret_string type_string more_frames words-DecodesCalls (omega arith)
      refl refl refl word_marshalled (omega arith) refl refl refl refl
      (nothing_active (2 ^ 32 - (0 + 1)) callee refl) (nothing_closed (2 ^ 32 - (0 + 1))) refl refl
      (omega arith) refl

-- The remote's request for the call, and its regular end.
abbrev remote_request : Request
remote_request = record called { id = 2 ^ 32 - 1; sink = record open_sink { req = 2 ^ 32 - 1 } }

abbrev remote_session : Session
remote_session = new_session (packer_of []) no_manifest

abbrev hung : Session
hung =
    set_input
      (input
        ((close_request words false none remote_request remote_session).packer.output.sent
          ++ (9 ∷ []))
        eof_error)
      after_call

-- A handler that changes the flags of its request and then gives a value.
abbrev changed_request : Request
changed_request = record remote_request { sink = record remote_request.sink { flag = 0 } }

abbrev changes : Request → Session → Session × Result ReturnValue
changes r s = (set_request changed_request s, ok (string_value pong))

async_handler_answers_example :
    handle_call words false []
      (register_async words false (ping ∷ []) changes [])
      remote_request
      remote_session
    ≡ replied (string_value pong) pong changed_request (set_request changed_request remote_session)
unfolding value_bytes new_call set_request lookup insert
async_handler_answers_example =
    async_handler_answers words false [] ping [] changes [] remote_request changed_request
      remote_session (set_request changed_request remote_session) (string_value pong) pong refl refl
      refl refl refl (record { open_sink = refl; alive = refl; numbered = omega arith })
      (omega arith) refl

-- A handler that writes two bodies and closes.
abbrev two_bodies : List Bytes
two_bodies = (1 ∷ 2 ∷ []) ∷ [] ∷ []

abbrev streamed : Session
streamed =
    set_input
      (input
        ((stream_sent words none remote_request two_bodies remote_session).packer.output.sent
          ++ (9 ∷ []))
        eof_error)
      after_call
