-- ===== src/Session/Wire/HangUp.antt =====
-- A regular end of a request, at the side that closes it and at the other.
use go_muxrpc.Base.{
  ℕ, ◌-◌, ◌^◌, ◌<◌, ◌≡◌, refl, ap, ◌∙◌, Bool, true, false, Option, none, some, List, ◌++◌,
  append_assoc, Text, if◌then◌else◌, arith,
}
use go_muxrpc.Errors.{Err, sentinel, eof, errors_is, equals, same}
use go_muxrpc.External.{External}
use go_muxrpc.Codec.Stream.{Bytes, Input, Output}
use go_muxrpc.Codec.Packet.{Packet, encode, is_goodbye}
use go_muxrpc.Codec.Flag
use go_muxrpc.Codec.RoundTrip.Packets.{input}
use go_muxrpc.Packets.{new_end_okay_packet, end_flag, true_bytes}
use go_muxrpc.Sink.{close_with_error, is_end, is_stream}
use go_muxrpc.Sink.Closing.{IsReady, close_okay_stays_open}
use go_muxrpc.Session.Packer.{neg32}
use go_muxrpc.Session.State.{
  Session, Request, active, close_stream, set_input, set_output, set_request, retire,
}
use go_muxrpc.Session.Requests.{close_request, is_regular_end}
use go_muxrpc.Session.Serve.{go_on, ends, stream_end, is_true, serve_packet, serve_round}
use go_muxrpc.Session.Invariant.Reach.{Reach}
use go_muxrpc.Session.Invariant.Closing.{serve_end-ends, serve_packet-closed}
use go_muxrpc.Session.Wire.Deliver.{serve_round-packet}

regular : (e : Option Err) → is_end e ≡ true → is_regular_end e ≡ true
unfolding is_end is_regular_end equals errors_is
regular none h = refl
regular (some (sentinel s)) h = ground (arith, h)
regular (some e) h = ground (arith, h)

-- The end packet of a request.
abbrev pub end_packet : Request → Packet
end_packet r = new_end_okay_packet r.sink.req (is_stream r.sink)

abbrev after_end : Request → Output → Output
after_end r o = record o { sent = o.sent ++ encode (end_packet r) }

eof_end : is_end (some (sentinel eof)) ≡ true
unfolding is_end equals same
eof_end = refl

-- Closing a request with nil or io.EOF, on a ready sink over a connection that takes all in time, sends
-- its end packet, twice.
pub close_request_twice :
    (x : External) (e : Option Err) (r : Request) (s : Session)
    → IsReady r.sink
    → is_end e ≡ true
    → s.packer.output.room ≡ none
    → (close_request x false e r s).packer.output.sent
      ≡ s.packer.output.sent ++ (encode (end_packet r) ++ encode (end_packet r))
unfolding close_request close_stream set_output set_request retire
close_request_twice x e r s h fine room =
    let (sink, out, okay) =
      close_okay_stays_open x (some (sentinel eof)) r.sink s.packer.output h eof_end room in
    let first = close_with_error x false (some (sentinel eof)) r.sink s.packer.output in
    ap
      (λ c.
        let (bs, o, _) =
          close_with_error x false (if c then some (sentinel eof) else e) r.sink s.packer.output in
        (close_with_error x false e bs o).1.sent)
      (regular e fine)
    ∙ ap (λ bs. (close_with_error x false e bs first.1).1.sent) sink
    ∙ ap (λ o. (close_with_error x false e r.sink o).1.sent) out
    ∙ ap (λ o. o.sent)
        (close_okay_stays_open x e r.sink (after_end r s.packer.output) h fine room).1
    ∙ append_assoc s.packer.output.sent (encode (end_packet r)) (encode (end_packet r))

-- The end packet of request `id` of the other side, as this side names it.
abbrev pub end_of : ℕ → Bool → Packet
end_of id stream = new_end_okay_packet (2 ^ 32 - id) stream

pub end_flags :
    (len id : ℕ) (stream : Bool)
    → (Flag.get (end_flag stream) Flag.end_err ≡ true)
      × (is_goodbye (record { flag = end_flag stream; len = len; req = id }) ≡ false)
unfolding end_flag is_goodbye Flag.set Flag.get
end_flags len id true = (refl, refl)
end_flags len id false = (refl, refl)

ends_regularly : (x : External) → stream_end x true_bytes ≡ ends none
unfolding stream_end is_true
ends_regularly x = refl

-- One round on an end packet that comes first.
heard_end :
    (x : External) (late : Bool) (handled : List Text → Bool) (ctx_first : Bool) (id : ℕ)
    (stream : Bool) (more : Bytes) (fin : Err) (s : Session)
    → 0 < id
    → id < 2 ^ 32
    → s.packer.input ≡ input (encode (end_of id stream) ++ more) fin
    → s.serve_err ≡ none
    → serve_round x late handled ctx_first s
      ≡ serve_packet x late handled
          (record { flag = end_flag stream; len = 4; req = id })
          (set_input (input (true_bytes ++ more) fin) s)
unfolding set_input new_end_okay_packet
heard_end x late handled ctx_first id stream more fin s pos small here live =
    serve_round-packet x late handled ctx_first (end_of id stream) more fin s (omega arith)
      (omega arith) (end_flags 4 (2 ^ 32 - id) stream).1 here live
    ∙ ap
        (λ k.
          serve_packet x late handled (record { flag = end_flag stream; len = 4; req = k })
            (set_input (input (true_bytes ++ more) fin) s))
        back
  where
    back : neg32 (2 ^ 32 - id) ≡ id
    back = unfold neg32 in omega (arith, pos, small)

-- The session in which request `q` is closed, and the bytes that are still to come.
abbrev pub hung_up : External → Bool → Request → Input → Session → Session
hung_up x late q i s = close_stream x late q none (set_input i s)

pub first_end :
    (x : External) (late : Bool) (handled : List Text → Bool) (ctx_first : Bool) (id : ℕ)
    (stream : Bool) (rest : Bytes) (fin : Err) (s : Session) (q : Request)
    → 0 < id
    → id < 2 ^ 32
    → s.packer.input ≡ input (encode (end_of id stream) ++ rest) fin
    → s.serve_err ≡ none
    → active id s ≡ some q
    → serve_round x late handled ctx_first s ≡ (hung_up x late q (input rest fin) s, go_on)
unfolding set_input serve_packet active
first_end x late handled ctx_first id stream rest fin s q pos small here live a =
    heard_end x late handled ctx_first id stream rest fin s pos small here live
    ∙ rw (end_flags 4 id stream).0 (
        serve_end-ends x late (record { flag = end_flag stream; len = 4; req = id })
          (set_input (input (true_bytes ++ rest) fin) s) q true_bytes rest fin none a refl refl
          (omega arith) (ends_regularly x))

pub second_end :
    (x : External) (late : Bool) (handled : List Text → Bool) (ctx_first : Bool) (id : ℕ)
    (stream : Bool) (rest : Bytes) (fin : Err) (s : Session) (q : Request)
    → 0 < id
    → id < 2 ^ 32
    → s.serve_err ≡ none
    → id ≡ q.id
    → serve_round x late handled ctx_first
        (hung_up x late q (input (encode (end_of id stream) ++ rest) fin) s)
      ≡ (hung_up x late q (input rest fin) s, go_on)
unfolding set_input close_stream retire set_request set_output
second_end x late handled ctx_first id stream rest fin s q pos small live known =
    heard_end x late handled ctx_first id stream rest fin
      (hung_up x late q (input (encode (end_of id stream) ++ rest) fin) s) pos small refl live
    ∙ serve_packet-closed x late handled (record { flag = end_flag stream; len = 4; req = id })
        (set_input (input (true_bytes ++ rest) fin) s) q none true_bytes rest fin known refl refl
