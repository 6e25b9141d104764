-- ===== src/Session/Wire.antt =====
-- A call of one side as the other side takes it.
pub mod Take
pub mod Deliver
pub mod Reply
pub mod Answer
pub mod HangUp
pub mod Failure
pub mod Streams
use go_muxrpc.Base.{
  ℕ, ◌+◌, ◌-◌, ◌*◌, ◌%◌, ◌^◌, ◌≤◌, ◌<◌, ◌≡◌, refl, subst, ap, sym, ◌∙◌, ◌⊎◌, inl, inr, Bool, true,
  false, not, ◌&&◌, Option, none, some, List, [], ◌∷◌, ◌++◌, append_assoc, Text, text, ltb, length,
  length-append, take, drop, take-append, drop-append, min, ltb_of_le, ◌==◌, ==_refl, ◌||◌,
  if◌then◌else◌, arith,
}
use go_muxrpc.Base.Assoc.{member, add, lookup, insert, member-add, lookup-insert}
use go_muxrpc.Errors.{
  Err, Result, ok, err, CallType, async, sync, source, sink, duplex, other, sentinel, eof, wrap,
  new,
}
use go_muxrpc.External.{External, Call, DecodesCalls}
use go_muxrpc.Codec.Stream.{Bytes, Input, Output}
use go_muxrpc.Codec.Packet.{Packet, Header, IsWord, encode, header_of, header_bytes, is_goodbye}
use go_muxrpc.Codec.Reader.{read_header}
use go_muxrpc.Codec.Writer.{write_packet, max_buffer_size}
use go_muxrpc.Codec.RoundTrip.Steps.{read_header-header_bytes}
use go_muxrpc.Codec.RoundTrip.Packets.{input}
use go_muxrpc.Codec.RoundTrip.Sessions.{write_packet-encode}
use go_muxrpc.Codec.Flag
use go_muxrpc.Session.Packer.{Packer, next_header, selected, neg32}
use go_muxrpc.Session.State.{Session, Request, active, set_request, set_input, set_output}
use go_muxrpc.Session.Client.{start, register, next_id, send_first, wire_call, type_flags}
use go_muxrpc.Session.Serve.{
  go_on, maybe_discard, keep, fresh, incoming, typed_request, decoded_request, decode_body,
  parse_new_request, accept, admit, fetch_request, fetched, data_kept, serve_data, serve_packet,
  Verdict, serve_header, serve_round, is_stream_type, is_async, default_type,
}
use go_muxrpc.Session.Wire.Take.{
  HasFlags, IsCall, is_call_type, call_packet, call-HasFlags, serve_packet-call, neg32-remote,
  next_header-call, start-sends, accept-active, call-not_goodbye,
}

-- The header of the call as the other side's `NextHeader` returns it.
abbrev call_header : Request → ℕ → Bytes → Header
call_header r id body = record (header_of (call_packet r id body)) { req = neg32 id }

pub serve_round-call :
    (x : External) (late : Bool) (handled : List Text → Bool) (ctx_first : Bool) (r : Request)
    (id : ℕ) (body more : Bytes) (fin : Err) (t : Session)
    → DecodesCalls x
    → x.marshal_call (wire_call r) ≡ ok body
    → length body ≤ max_buffer_size
    → is_call_type r.call_type ≡ true
    → 0 < id
    → id < 2 ^ 31
    → t.packer.input ≡ input (encode (call_packet r id body) ++ more) fin
    → t.serve_err ≡ none
    → active (neg32 id) t ≡ none
    → member (neg32 id) t.reqs_closed ≡ false
    → handled r.method ≡ true
    → serve_round x late handled ctx_first t ≡ (
      accept
          (incoming (call_header r id body) (wire_call r) r.call_type t.serve_err)
          (record t { packer = record t.packer { input = input more fin } }),
      go_on,
    )
unfolding serve_round serve_header set_input active wire_call
serve_round-call x late handled ctx_first r id body more fin t d m fits ty pos small i live new_id
      unmet hm =
    let h = header_of (call_packet r id body) in
    let p : Packer = record t.packer { input = input (body ++ more) fin } in
    ap (λ e. serve_header x late handled (next_header ctx_first e t.packer) t) live
    ∙ ap (λ q. serve_header x late handled q t)
        (next_header-call h (body ++ more) fin ctx_first t.packer (omega arith) (omega arith)
          (call-not_goodbye r.call_type (length body % 2 ^ 32) id ty)
          (i ∙ ap (λ b. input b fin) (append_assoc (header_bytes h) body more)))
    ∙ serve_packet-call x late handled (call_header r id body) (wire_call r) body more fin
        (record t { packer = p })
        (record {
          call_type = ty;
          flags = call-HasFlags r.call_type ty;
          remote = (neg32-remote id pos small).1;
          size = omega arith;
          decodes = d.decode-marshal (wire_call r) body m;
        })
        refl new_id unmet hm

abbrev Serves : Request → Input → Session → ℕ → Session × Verdict → Type 0
Serves r rest t id (t', v) =
    (v ≡ go_on)
    × (t'.packer.input ≡ rest)
    × (t'.calls ≡ id ∷ t.calls)
    × (q : Request) × (active id t' ≡ some q)
    × (q.method ≡ r.method)
    × (q.raw_args ≡ some (wire_call r).args)
    × (q.call_type ≡ r.call_type)
    × (q.sink.req ≡ id)

accept-Serves :
    (r : Request) (id : ℕ) (body : Bytes) (rest : Input) (ctx : Option Err) (t : Session)
    → let q = incoming (call_header r id body) (wire_call r) r.call_type ctx in
      Serves r rest t
        (neg32 id)
        (accept q (record t { packer = record t.packer { input = rest } }), go_on)
unfolding accept set_request incoming wire_call
accept-Serves r id body rest ctx t =
    let q = incoming (call_header r id body) (wire_call r) r.call_type ctx in
    (
      refl,
      refl,
      refl,
      q,
      accept-active q (record t { packer = record t.packer { input = rest } }),
      refl,
      refl,
      refl,
      refl,
    )

-- What one side starts, the other side serves. Where JSON decodes what it encoded, the call is async,
-- source, sink or duplex, ids are left, and its packet fits and is the first that the connection takes:
-- the call is sent, and when its bytes come first on the connection of a live session that handles the
-- method and does not know the id, one round of its loop takes exactly these bytes and enters a request
-- with the method, arguments and type of the call, which answers under the negated id, and starts its
-- handler once.
pub serve_round-start :
    (x : External) (late : Bool) (handled : List Text → Bool) (ctx_first : Bool) (r : Request)
    (body more : Bytes) (fin : Err) (s t : Session)
    → DecodesCalls x
    → x.marshal_call (wire_call r) ≡ ok body
    → length body ≤ max_buffer_size
    → s.packer.output.room ≡ none
    → s.packer.output.sent ≡ []
    → s.highest + 1 < 2 ^ 31
    → is_call_type r.call_type ≡ true
    → t.packer.input ≡ input ((start x r s).0.packer.output.sent ++ more) fin
    → t.serve_err ≡ none
    → active (2 ^ 32 - (s.highest + 1)) t ≡ none
    → member (2 ^ 32 - (s.highest + 1)) t.reqs_closed ≡ false
    → handled r.method ≡ true
    → let id = 2 ^ 32 - (s.highest + 1) in
      let (t', v) = serve_round x late handled ctx_first t in
      ((start x r s).1 ≡ none)
      × (v ≡ go_on)
      × (t'.packer.input ≡ input more fin)
      × (t'.calls ≡ id ∷ t.calls)
      × (q : Request) × (active id t' ≡ some q)
      × (q.method ≡ r.method)
      × (q.raw_args ≡ some (wire_call r).args)
      × (q.call_type ≡ r.call_type)
      × (q.sink.req ≡ id)
serve_round-start x late handled ctx_first r body more fin s t d m fits room sent left ty i live
      new_id unmet hm =
    let n = s.highest + 1 in
    let (wire_id, remote) = neg32-remote n (omega arith) left in
    let (sends, okay) = start-sends x r s body m fits room in
    let next_is : next_id s ≡ n = unfold next_id in omega (arith, left) in
    let out : (start x r s).0.packer.output.sent ≡ encode (call_packet r n body) =
      sends
      ∙ ap (λ b. b ++ encode (call_packet r (next_id s) body)) sent
      ∙ ap (λ k. encode (call_packet r k body)) next_is in
    let w : Serves r (input more fin) t (2 ^ 32 - n) (serve_round x late handled ctx_first t) =
      subst (λ k. Serves r (input more fin) t k (serve_round x late handled ctx_first t)) wire_id
        (subst (Serves r (input more fin) t (neg32 n))
          (sym (
            serve_round-call x late handled ctx_first r n body more fin t d m fits ty (omega arith)
              left (i ∙ ap (λ b. input (b ++ more) fin) out) live
              (ap (λ k. active k t) wire_id ∙ new_id)
              (ap (λ k. member k t.reqs_closed) wire_id ∙ unmet) hm))
          (accept-Serves r n body (input more fin) t.serve_err t)) in
    (okay, w.0, w.1, w.2, w.3, w.4, w.5, w.6, w.7, w.8)
