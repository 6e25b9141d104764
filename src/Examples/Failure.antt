-- ===== src/Examples/Failure.antt =====
-- An error between two sessions, and the decoding of a method.
use go_muxrpc.Base.{◌-◌, ◌^◌, ◌≡◌, refl, false, none, some, [], ◌∷◌, ◌++◌, Text, text}
use go_muxrpc.Errors.{Err, new, CallError, Result, ok, err}
use go_muxrpc.External.{External}
use go_muxrpc.Codec.Stream.{Bytes}
use go_muxrpc.Codec.RoundTrip.Packets.{input}
use go_muxrpc.Session.State.{Session, Request, set_input}
use go_muxrpc.Session.Requests.{close_request, unmarshalled, unmarshal_method}
use go_muxrpc.Session.Invariant.Reach.{new_session}
use go_muxrpc.Session.Client.{start}
use go_muxrpc.Session.Wire.Reply.{registered}
use go_muxrpc.Examples.Fixtures.{
  eof_error, words, ping, ping_request, packer_of, no_manifest, open_sink,
}

-- An encoding of errors without a stack, whose names have five letters: the name and the message.
unfoldable marshal_error : Text → Text → Text → Result Bytes
marshal_error (a ∷ b ∷ c ∷ d ∷ f ∷ []) m [] = ok (a ∷ b ∷ c ∷ d ∷ f ∷ m)
marshal_error _ _ _ = err (new [])

unfoldable unmarshal_error : Bytes → Result CallError
unmarshal_error (a ∷ b ∷ c ∷ d ∷ f ∷ m) =
    ok (record { name = a ∷ b ∷ c ∷ d ∷ f ∷ []; message = m; stack = [] })
unmarshal_error _ = err (new [])

abbrev failing : External
failing = record words {
  marshal_call_error = λ c. marshal_error c.name c.message c.stack;
  unmarshal_call_error = unmarshal_error;
}

abbrev denied : Err
denied = new (text "denied")

abbrev denied_bytes : Bytes
denied_bytes = text "Error" ++ text "denied"

abbrev caller : Session
caller = new_session (packer_of []) no_manifest

abbrev called : Request
called = registered ping_request caller

-- The remote's request for the call, which its handler closes with the error.
abbrev refused_request : Request
refused_request = record called { id = 2 ^ 32 - 1; sink = record open_sink { req = 2 ^ 32 - 1 } }

abbrev refused : Bytes
refused = (close_request failing false (some denied) refused_request caller).packer.output.sent

abbrev refused_call : Session
refused_call =
    set_input (input (refused ++ (9 ∷ [])) eof_error) (start failing ping_request caller).0

-- `"manifest"` is read as the method of one name, and a body that is neither leaves the method as it was.
one_name :
    unmarshal_method (λ d. err (new [])) ok (text "manifest") [] ≡ (text "manifest" ∷ [], none)
unfolding unmarshal_method unmarshalled
one_name = refl

no_name : (unmarshal_method (λ d. err (new [])) (λ d. err (new [])) [] (ping ∷ [])).0 ≡ ping ∷ []
unfolding unmarshal_method unmarshalled
no_name = refl
