-- ===== src/Session/Wire/Answer/Turns.antt =====
-- The turns of an async call: the remote takes it, and the caller takes the answer.
use go_muxrpc.Base.{
  ℕ, ◌+◌, ◌-◌, ◌^◌, ◌≤◌, ◌<◌, ◌≡◌, refl, subst, ap, sym, ◌∙◌, Bool, true, false, Bool-cases, inl,
  inr, Option, none, some, List, [], ◌∷◌, ◌++◌, Text, length, ◌==◌, arith,
}
use go_muxrpc.Base.Assoc.{member, lookup-insert}
use go_muxrpc.Errors.{Err, ok, async}
use go_muxrpc.External.{External, DecodesCalls}
use go_muxrpc.Codec.Stream.{Bytes, Input}
use go_muxrpc.Codec.Packet.{encode}
use go_muxrpc.Codec.Writer.{max_buffer_size}
use go_muxrpc.Codec.Flag
use go_muxrpc.Codec.RoundTrip.Packets.{input}
use go_muxrpc.Source.ByteSource.{
  ByteSource, Ready, next, new_byte_source, source_bytes, source_reader, source_err,
}
use go_muxrpc.Source.Frames.Queue.{Holds, reader-Holds, empty-Holds}
use go_muxrpc.Source.Drain.{bytes_taken, next_more}
use go_muxrpc.Sink.Closing.{IsReady}
use go_muxrpc.Session.Packer.{neg32}
use go_muxrpc.Session.State.{Session, Request, active, set_request, set_input, set_output}
use go_muxrpc.Session.Client.{
  register, next_id, new_call, wire_call, Ret, process_entry, async_end, async_failed, type_flags,
}
use go_muxrpc.Session.Serve.{go_on, Verdict, accept, incoming, serve_round}
use go_muxrpc.Session.Requests.{ReturnValue, string_value, json_value}
use go_muxrpc.Session.Invariant.Reach.{Reach, reach-maps}
use go_muxrpc.Session.Wire.{call_header, serve_round-call}
use go_muxrpc.Session.Wire.Take.{call_packet, is_call_type, neg32-remote}
use go_muxrpc.Session.Wire.Reply.{value_flag, reply_packet, registered, sent_call, sent_call-active}
use go_muxrpc.Session.Wire.Deliver.{serve_round-body}
use go_muxrpc.Source.Gains.{Gains}

-- The flags of an answer to an async call: that of its encoding alone.
reply_flags : (v : ReturnValue) → Flag.get (Flag.set 0 (value_flag v)) Flag.end_err ≡ false
unfolding value_flag Flag.set Flag.get
reply_flags (string_value t) = refl
reply_flags (json_value b) = refl

-- An answer as the caller takes it: a packet under the negated number of an active request.
pub serve_round-reply :
    (x : External) (late : Bool) (handled : List Text → Bool) (ctx_first : Bool) (v : ReturnValue)
    (id : ℕ) (b more : Bytes) (fin : Err) (r : Request) (s : Session)
    → 0 < id
    → id < 2 ^ 32
    → length b ≤ max_buffer_size
    → active id s ≡ some r
    → member id s.reqs_closed ≡ false
    → r.source.failed ≡ none
    → Holds r.source.buf [] []
    → s.serve_err ≡ none
    → s.packer.input
      ≡ input
          (encode (record { flag = Flag.set 0 (value_flag v); req = 2 ^ 32 - id; body = b })
            ++ more)
          fin
    → (g : Gains r.source [] [] b (Flag.set 0 (value_flag v))) × (serve_round x late handled
          ctx_first s
        ≡ (set_request (record r { source = g.after }) (set_input (input more fin) s), go_on))
serve_round-reply x late handled ctx_first v id b more fin r s pos small fits a m f holds live
      here =
    serve_round-body x late handled ctx_first (Flag.set 0 (value_flag v)) id [] [] b more fin r s
      (reply_flags v) pos small fits a m f holds (omega arith) live here

-- The remote's turn: the request that a call makes of it, and its session with the call taken.
abbrev pub asked : Request → ℕ → Bytes → Session → Request
asked r id body t = incoming (call_header r id body) (wire_call r) r.call_type t.serve_err

abbrev pub took_call : Request → ℕ → Bytes → Input → Session → Session
took_call r id body rest t =
    accept (asked r id body t) (record t { packer = record t.packer { input = rest } })

pub asked-IsReady :
    (method : List Text) (args body : Bytes) (flag id : ℕ) (ctx : Option Err) (t : Session)
    → 0 < id
    → id < 2 ^ 31
    → t.serve_err ≡ none
    → IsReady (asked (new_call async method args flag ctx) id body t).sink
unfolding incoming neg32
asked-IsReady method args body flag id ctx t pos small live = record {
  open_sink = refl;
  alive = live;
  numbered = omega arith;
}

-- The packet that the handler's `Return` sends is the one that the caller expects.
pub asked-reply :
    (v : ReturnValue) (b : Bytes) (method : List Text) (args body : Bytes) (flag id : ℕ)
    (ctx : Option Err) (t : Session)
    → 0 < id
    → id < 2 ^ 31
    → reply_packet v b (asked (new_call async method args flag ctx) id body t)
      ≡ record { flag = Flag.set 0 (value_flag v); req = 2 ^ 32 - id; body = b }
unfolding incoming neg32 new_call Flag.set Flag.get type_flags
asked-reply v b method args body flag id ctx t pos small =
    ap (λ k. record { flag = Flag.set 0 (value_flag v); req = k; body = b })
      (neg32-remote id pos small).0

-- The end of `Async` on a source that holds one body.
async_end-Holds :
    (ret : Ret) (re : ℕ) (b : Bytes) (bs : ByteSource)
    → Holds bs.buf [] (b ∷ [])
    → (process_entry ret re b).1 ≡ none
    → (async_end ret re true bs).1 ≡ none
unfolding async_end source_reader async_failed
async_end-Holds ret re b bs h fine =
    ap (λ e. async_failed e (source_err (source_reader (process_entry ret re) bs).0))
      ((reader-Holds bs.buf [] b [] (process_entry ret re) h).0 ∙ fine)

-- A new value of an active request is found under its id.
pub set_request-active :
    (k : ℕ) (r q : Request) (rest : Input) (s : Session)
    → q.id ≡ k
    → active k s ≡ some r
    → active k (set_request q (set_input rest s)) ≡ some q
unfolding active set_request set_input
set_request-active k r q rest s i a = elim (Bool-cases (member k s.reqs)) [
  | inl m ↦
      let hit : (q.id == k) ≡ true = ground (arith, i) in
      rw m (lookup-insert q.id k q s.store ∙ rw hit refl)
  | inr m ↦ absurd (cc (rw m at a))
]

-- What the caller of `Async` has when the answer is in.
abbrev pub Answered : Ret → ℕ → Bytes → ℕ → Ready → Session × Verdict → Type 0
Answered ret re b n ready (s, v) =
    (v ≡ go_on)
    × (c : Request) × (active n s ≡ some c)
    × (next ready c.source ≡ (c.source, true))
    × ((source_bytes c.source).1 ≡ ok b)
    × ((async_end ret re true c.source).1 ≡ none)

gains-Answered :
    (ret : Ret) (re : ℕ) (b : Bytes) (n flag : ℕ) (ready : Ready) (r : Request) (rest : Input)
    (s : Session) (g : Gains r.source [] [] b flag)
    → r.id ≡ n
    → active n s ≡ some r
    → (process_entry ret re b).1 ≡ none
    → Answered ret re b n ready
        (set_request (record r { source = g.after }) (set_input rest s), go_on)
gains-Answered ret re b n flag ready r rest s g i a fine = (
  refl,
  record r { source = g.after },
  set_request-active n r (record r { source = g.after }) rest s i a,
  next_more ready g.after 0 g.holds.counted,
  (bytes_taken g.after [] b [] g.holds).0,
  async_end-Holds ret re b g.after g.holds fine,
)

-- The session of the caller once the bytes of the remote have come.
abbrev pub hears : Bytes → Bytes → Err → Session → Session
hears b more fin s = set_input (input (b ++ more) fin) s

-- The remote's turn, for a call of any type.
pub remote_turn :
    (x : External) (late ctx_first : Bool) (serves : List Text → Bool) (r : Request)
    (body more : Bytes) (id : ℕ) (fin : Err) (t : Session)
    → DecodesCalls x
    → x.marshal_call (wire_call r) ≡ ok body
    → length body ≤ max_buffer_size
    → is_call_type r.call_type ≡ true
    → 0 < id
    → id < 2 ^ 31
    → t.packer.input ≡ input (encode (call_packet r id body) ++ more) fin
    → t.serve_err ≡ none
    → active (2 ^ 32 - id) t ≡ none
    → member (2 ^ 32 - id) t.reqs_closed ≡ false
    → serves r.method ≡ true
    → serve_round x late serves ctx_first t ≡ (took_call r id body (input more fin) t, go_on)
remote_turn x late ctx_first serves r body more id fin t d m fits ty pos small here live new_id
      unmet hm =
    let wire_id = (neg32-remote id pos small).0 in
    serve_round-call x late serves ctx_first r id body more fin t d m fits ty pos small here live
      (ap (λ k. active k t) wire_id ∙ new_id) (ap (λ k. member k t.reqs_closed) wire_id ∙ unmet) hm

-- The caller's turn.
pub caller_turn :
    {x : External} {handled : List Text → Bool} {s : Session}
    → Reach x handled s
    → (late ctx_first : Bool) (method : List Text) (args body more : Bytes) (flag : ℕ)
      (ctx : Option Err) (fin : Err) (v : ReturnValue) (b : Bytes) (ret : Ret) (re : ℕ)
      (ready : Ready)
    → s.highest + 1 < 2 ^ 31
    → s.serve_err ≡ none
    → length b ≤ max_buffer_size
    → (process_entry ret re b).1 ≡ none
    → Answered ret re b (next_id s) ready (
        serve_round x late handled ctx_first (
          hears
            (encode
              (record { flag = Flag.set 0 (value_flag v); req = 2 ^ 32 - next_id s; body = b }))
            more
            fin
            (sent_call (new_call async method args flag ctx) body s)))
unfolding new_call new_byte_source register set_output set_input active
caller_turn {x} {handled} {s} reached late ctx_first method args body more flag ctx fin v b ret re
      ready room live fits fine =
    let r = new_call async method args flag ctx in
    let n : next_id s ≡ s.highest + 1 = unfold next_id in omega (arith, room) in
    let bytes =
      encode (record { flag = Flag.set 0 (value_flag v); req = 2 ^ 32 - next_id s; body = b }) in
    let called = hears bytes more fin (sent_call r body s) in
    let (g, served) =
      serve_round-reply x late handled ctx_first v (next_id s) b more fin (registered r s) called
        (omega (arith, n)) (omega (arith, n, room)) fits (sent_call-active r s body)
        (((reach-maps reached 0).1 room).1) refl empty-Holds live refl in
    subst (Answered ret re b (next_id s) ready) (sym served) (
      gains-Answered ret re b (next_id s) (Flag.set 0 (value_flag v)) ready (registered r s)
        (input more fin) called g refl (sent_call-active r s body) fine)
