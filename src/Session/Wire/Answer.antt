-- ===== src/Session/Wire/Answer.antt =====
-- An async call there and back: the session of the caller and that of the remote.
pub mod Turns
use go_muxrpc.Base.{
  ℕ, ◌+◌, ◌-◌, ◌%◌, ◌^◌, ◌≤◌, ◌<◌, ◌≡◌, refl, subst, ap, sym, ◌∙◌, Bool, true, false, Bool-cases,
  inl, inr, Option, none, some, List, [], ◌∷◌, ◌++◌, Text, length, ◌==◌, ==_refl, if◌then◌else◌,
  arith,
}
use go_muxrpc.Base.Assoc.{member, lookup-insert}
use go_muxrpc.Errors.{Err, Result, ok, err, CallType, async}
use go_muxrpc.External.{External, DecodesCalls}
use go_muxrpc.Codec.Stream.{Bytes, Input, Output}
use go_muxrpc.Codec.Packet.{Packet, Header, encode, header_of, is_goodbye}
use go_muxrpc.Codec.Writer.{max_buffer_size}
use go_muxrpc.Codec.Flag
use go_muxrpc.Codec.RoundTrip.Packets.{input}
use go_muxrpc.Source.ByteSource.{
  ByteSource, Ready, next, new_byte_source, source_bytes, source_reader, source_err,
}
use go_muxrpc.Source.Frames.Queue.{Holds, reader-Holds, IsFrame, empty-Holds}
use go_muxrpc.Source.Drain.{bytes_taken, next_more}
use go_muxrpc.Sink.Closing.{IsReady}
use go_muxrpc.Session.Packer.{neg32}
use go_muxrpc.Session.State.{Session, Request, active, set_request, set_input, set_output}
use go_muxrpc.Session.Client.{
  start, register, next_id, new_call, wire_call, Ret, process_entry, async_end, async_failed,
  type_flags,
}
use go_muxrpc.Session.Serve.{go_on, Verdict, accept, incoming, serve_round, serve_packet}
use go_muxrpc.Session.Requests.{ReturnValue, string_value, json_value, returns, return_call}
use go_muxrpc.Session.Invariant.Reach.{Reach, reach-maps}
use go_muxrpc.Session.Wire.{call_header, serve_round-call}
use go_muxrpc.Session.Wire.Take.{
  is_call_type, call_packet, accept-active, is_call_type, neg32-remote,
}
use go_muxrpc.Session.Wire.Reply.{
  value_flag, value_bytes, reply_packet, replied, registered, sent_call, sent_call-active,
  start-sent_call, start-first, return_call_sends,
}
use go_muxrpc.Session.Wire.Deliver.{serve_packet-data, serve_round-packet}
use go_muxrpc.Source.Gains.{Gains}
use go_muxrpc.Session.Wire.Answer.Turns.{
  asked, took_call, asked-IsReady, asked-reply, Answered, hears, remote_turn, caller_turn,
}

-- What the caller has, for what the remote's `Return` gave, and what the remote then is to have.
abbrev Returned : (Bytes → Type 0) → Session × Option Err → Type 0
Returned P (t, e) = (e ≡ none) × P t.packer.output.sent

abbrev Taken : (Bytes → Type 0) → ReturnValue → ℕ → Session × Verdict → Type 0
Taken P v id (t, w) =
    (w ≡ go_on) × (q : Request) × (active id t ≡ some q) × Returned P (return_call v q t)

took-Taken :
    (P : Bytes → Type 0) (v : ReturnValue) (b : Bytes) (method : List Text) (args body : Bytes)
    (flag id : ℕ) (ctx : Option Err) (rest : Input) (t : Session)
    → 0 < id
    → id < 2 ^ 31
    → t.serve_err ≡ none
    → t.packer.output.room ≡ none
    → t.packer.output.sent ≡ []
    → value_bytes v ≡ ok b
    → length b ≤ max_buffer_size
    → P (encode (record { flag = Flag.set 0 (value_flag v); req = 2 ^ 32 - id; body = b }))
    → Taken P v
        (2 ^ 32 - id)
        (took_call (new_call async method args flag ctx) id body rest t, go_on)
unfolding incoming accept set_request set_output new_call
took-Taken P v b method args body flag id ctx rest t pos small live out sent value fits h =
    let r = new_call async method args flag ctx in
    let q = asked r id body t in
    let wire_id = (neg32-remote id pos small).0 in
    let t' = took_call r id body rest t in
    let bytes = asked-reply v b method args body flag id ctx t pos small in
    (
      refl,
      q,
      subst (λ k. active k t' ≡ some q) wire_id
          (accept-active q (record t { packer = record t.packer { input = rest } })),
      subst (Returned P)
          (sym (
            return_call_sends v b q t' value refl
              (asked-IsReady method args body flag id ctx t pos small live) fits out))
          (
            refl,
            subst P (ap encode (sym bytes) ∙ ap (λ l. l ++ encode (reply_packet v b q)) (sym sent))
                h,
          ),
    )

-- An async call and its answer, end to end. The caller's session is one that is reached, is alive and
-- has ids left; JSON decodes what it encoded; the call is the first packet that the caller's connection
-- takes, and comes first on that of the remote, which is alive, handles the method, does not know the id,
-- and has sent nothing; and the handler returns a value whose bytes fit. Then one round of the remote's
-- loop enters the request, Return gives nil, and when its bytes come first on the caller's connection, one
-- round of the caller's loop puts them into the source of the call: Next is true, Bytes returns exactly the
-- bytes of the value, and Async returns nil where its type and encoding accept them.
pub async_call-Answered :
    {x : External} {handled : List Text → Bool} {s : Session}
    → Reach x handled s
    → (late ctx_first : Bool) (serves : List Text → Bool) (method : List Text)
      (args body more more' : Bytes) (flag : ℕ) (ctx : Option Err) (fin fin' : Err) (t : Session)
      (v : ReturnValue) (b : Bytes) (ret : Ret) (re : ℕ) (ready : Ready)
    → DecodesCalls x
    → s.highest + 1 < 2 ^ 31
    → s.serve_err ≡ none
    → s.packer.output.room ≡ none
    → s.packer.output.sent ≡ []
    → x.marshal_call (wire_call (new_call async method args flag ctx)) ≡ ok body
    → length body ≤ max_buffer_size
    → t.packer.input
      ≡ input ((start x (new_call async method args flag ctx) s).0.packer.output.sent ++ more) fin
    → t.serve_err ≡ none
    → t.packer.output.room ≡ none
    → t.packer.output.sent ≡ []
    → active (2 ^ 32 - (s.highest + 1)) t ≡ none
    → member (2 ^ 32 - (s.highest + 1)) t.reqs_closed ≡ false
    → serves method ≡ true
    → value_bytes v ≡ ok b
    → length b ≤ max_buffer_size
    → (process_entry ret re b).1 ≡ none
    → let n = s.highest + 1 in
      let called = (start x (new_call async method args flag ctx) s).0 in
      let (t', w) = serve_round x late serves ctx_first t in
      (w ≡ go_on)
      × (q : Request) × (active (2 ^ 32 - n) t' ≡ some q)
      × ((return_call v q t').1 ≡ none)
      × Answered ret re b n ready (
          serve_round x late handled ctx_first
            (hears (return_call v q t').0.packer.output.sent more' fin' called))
unfolding set_output new_call is_call_type
async_call-Answered {x} {handled} {s} reached late ctx_first serves method args body more more' flag
      ctx fin fin' t v b ret re ready d room live out sent m fits here live' out' sent' new_id unmet
      hm value fits' fine =
    let r = new_call async method args flag ctx in
    let n = s.highest + 1 in
    let next_is : next_id s ≡ n = unfold next_id in omega (arith, room) in
    let started = start-sent_call x r s body m fits out in
    let first = start-first x r s body m fits out sent room in
    let P = λ (l : Bytes).
      Answered ret re b n ready
        (serve_round x late handled ctx_first (hears l more' fin' (start x r s).0)) in
    let heard : P
        (encode (record { flag = Flag.set 0 (value_flag v); req = 2 ^ 32 - n; body = b })) =
      subst
        (λ k. Answered ret re b k ready (
          serve_round x late handled ctx_first (
            hears (encode (record { flag = Flag.set 0 (value_flag v); req = 2 ^ 32 - k; body = b }))
              more' fin' (start x r s).0)))
        next_is
        (subst
          (λ c. Answered ret re b (next_id s) ready (
            serve_round x late handled ctx_first (
              hears
                (encode
                  (record { flag = Flag.set 0 (value_flag v); req = 2 ^ 32 - next_id s; body = b }))
                more' fin' c)))
          (sym (ap (λ c. c.0) started))
          (caller_turn reached late ctx_first method args body more' flag ctx fin' v b ret re ready
            room live fits' fine)) in
    let w : Taken P v (2 ^ 32 - n) (serve_round x late serves ctx_first t) =
      subst (Taken P v (2 ^ 32 - n))
        (sym (
          remote_turn x late ctx_first serves r body more n fin t d m fits refl (omega arith) room
            (here ∙ ap (λ l. input (l ++ more) fin) first) live' new_id unmet hm))
        (took-Taken P v b method args body flag n ctx (input more fin) t (omega arith) room live'
          out' sent' value fits' heard) in
    (w.0, w.1, w.2, w.3.0, w.3.1)
