-- ===== src/Session/Wire/Streams/Called.antt =====
-- A source call, from the call to the last body of its answer.
use go_muxrpc.Base.{
  ℕ, ◌+◌, ◌-◌, ◌^◌, ◌≤◌, ◌<◌, ◌≡◌, refl, ap, sym, subst, ◌∙◌, Bool, true, false, Option, none, some,
  List, [], ◌++◌, Text, length, All, arith,
}
use go_muxrpc.Base.Assoc.{member}
use go_muxrpc.Errors.{Err, ok, source}
use go_muxrpc.External.{External, DecodesCalls}
use go_muxrpc.Codec.Stream.{Bytes, Input}
use go_muxrpc.Codec.Writer.{max_buffer_size}
use go_muxrpc.Codec.Flag
use go_muxrpc.Codec.RoundTrip.Packets.{input}
use go_muxrpc.Source.ByteSource.{Ready}
use go_muxrpc.Source.ByteSource.Life.{new-IsSound}
use go_muxrpc.Source.Frames.Queue.{empty-Holds}
use go_muxrpc.Sink.{is_end}
use go_muxrpc.Sink.Closing.{IsReady}
use go_muxrpc.Session.Packer.{neg32}
use go_muxrpc.Session.State.{Session, Request, active, set_input, set_output, set_request}
use go_muxrpc.Session.Client.{start, register, next_id, new_call, wire_call, type_flags}
use go_muxrpc.Session.Serve.{go_on, Verdict, accept, incoming, serve_round}
use go_muxrpc.Session.Invariant.Reach.{Reach, arrives, calls_out}
use go_muxrpc.Session.Wire.Take.{accept-active, is_call_type, neg32-remote}
use go_muxrpc.Session.Wire.Reply.{registered, sent_call-active, start-sent_call, start-first}
use go_muxrpc.Session.Wire.Answer.Turns.{hears, asked, took_call, remote_turn}
use go_muxrpc.Session.Wire.Streams.{Fits, rounds}
use go_muxrpc.Session.Wire.Streams.Delivered.{Delivered, stream_sent, stream-Delivered}

-- The request as its handler is given it.
asked-IsReady :
    (method : List Text) (args body : Bytes) (flag id : ℕ) (ctx : Option Err) (t : Session)
    → 0 < id
    → id < 2 ^ 31
    → t.serve_err ≡ none
    → let q = asked (new_call source method args flag ctx) id body t in
      IsReady q.sink × (Flag.get q.sink.flag Flag.end_err ≡ false) × (q.sink.req ≡ neg32 id)
unfolding incoming neg32 new_call type_flags Flag.set Flag.get
asked-IsReady method args body flag id ctx t pos small live =
    (record { open_sink = refl; alive = live; numbered = omega arith }, refl, refl)

-- The caller's session after the call.
called-active :
    (x : External) (r : Request) (s : Session) (body : Bytes) (i : Input)
    → x.marshal_call (wire_call r) ≡ ok body
    → length body ≤ max_buffer_size
    → s.packer.output.room ≡ none
    → s.highest + 1 < 2 ^ 31
    → let t = set_input i (start x r s).0 in
      (active (s.highest + 1) t ≡ some (registered r s)) × (t.serve_err ≡ s.serve_err)
unfolding set_input active register set_output
called-active x r s body i m fits out room =
    let started = start-sent_call x r s body m fits out in
    let next_is : next_id s ≡ s.highest + 1 = unfold next_id in omega (arith, room) in
    (
      ap (λ k. active k (start x r s).0) (sym next_is)
          ∙ ap (λ c. active (next_id s) c.0) started
          ∙ sent_call-active r s body,
      ap (λ c. c.0.serve_err) started,
    )

-- The remote has the request of the call, and `P` of what its handler sends.
abbrev Serving :
    (Bytes → Type 0) → External → Option Err → List Bytes → ℕ → Session × Verdict → Type 0
Serving P x e bodies id (t, w) =
    (w ≡ go_on)
    × (q : Request) × (active id t ≡ some q)
    × P (stream_sent x e q bodies t).packer.output.sent

-- A source call, end to end. The caller's session is one that is reached, is alive, has ids left and has
-- sent nothing, over a connection that takes all; the call is encoded in at most max_buffer_size bytes,
-- which JSON decodes to the call; it is the first packet that the remote's connection takes, in a session
-- that is alive, handles the method, does not know the id, and has sent nothing; and the handler writes
-- fewer than 2 ^ 32 bodies that fit and closes its request with nil or io.EOF, over a connection that
-- takes all in time. Then one round of the remote's loop enters the request; and when what its handler
-- sends comes first on the caller's connection, as many rounds of the caller's loop as there are bodies,
-- and two more, take exactly these bytes, and the loop of a consumer of the call's source is given
-- exactly the bodies, in order, and ends; the request has left the caller's map.
pub source_call-Delivered :
    {x : External} {handled : List Text → Bool} {s : Session}
    → Reach x handled s
    → (late ctx_first : Bool) (serves : List Text → Bool) (method : List Text)
      (args body more more' : Bytes) (flag : ℕ) (ctx : Option Err) (fin fin' : Err) (t : Session)
      (bodies : List Bytes) (e : Option Err) (ready : Ready)
    → DecodesCalls x
    → s.highest + 1 < 2 ^ 31
    → s.serve_err ≡ none
    → s.packer.output.room ≡ none
    → s.packer.output.sent ≡ []
    → x.marshal_call (wire_call (new_call source method args flag ctx)) ≡ ok body
    → length body ≤ max_buffer_size
    → t.packer.input
      ≡ input ((start x (new_call source method args flag ctx) s).0.packer.output.sent ++ more) fin
    → t.serve_err ≡ none
    → t.packer.output.room ≡ none
    → t.packer.output.sent ≡ []
    → active (2 ^ 32 - (s.highest + 1)) t ≡ none
    → member (2 ^ 32 - (s.highest + 1)) t.reqs_closed ≡ false
    → serves method ≡ true
    → All Fits bodies
    → length bodies < 2 ^ 32
    → is_end e ≡ true
    → let n = s.highest + 1 in
      let called = (start x (new_call source method args flag ctx) s).0 in
      let (t', w) = serve_round x late serves ctx_first t in
      (w ≡ go_on)
      × (q : Request) × (active (2 ^ 32 - n) t' ≡ some q)
      × Delivered ready bodies more' fin' n (
          rounds
            (length bodies + 2)
            x
            late
            handled
            ctx_first
            (hears (stream_sent x e q bodies t').packer.output.sent more' fin' called))
unfolding new_call is_call_type set_input accept set_request incoming
source_call-Delivered {x} {handled} {s} reached late ctx_first serves method args body more more'
      flag ctx fin fin' t bodies e ready d room live out sent m fits here live' out' sent' new_id
      unmet hm all_fit few fine =
    let r = new_call source method args flag ctx in
    let n = s.highest + 1 in
    let (wire_id, far) = neg32-remote n (omega arith) room in
    let q = asked r n body t in
    let t' = took_call r n body (input more fin) t in
    let (is_ready, no_end, remote) =
      asked-IsReady method args body flag n ctx t (omega arith) room live' in
    let called = (start x r s).0 in
    let P = λ (l : Bytes).
      Delivered ready bodies more' fin' n
        (rounds (length bodies + 2) x late handled ctx_first (hears l more' fin' called)) in
    let i = input ((stream_sent x e q bodies t').packer.output.sent ++ more') fin' in
    let (open_call, still_live) = called-active x r s body i m fits out room in
    let w : Serving P x e bodies (2 ^ 32 - n) (serve_round x late serves ctx_first t) =
      subst (Serving P x e bodies (2 ^ 32 - n))
        (sym (
          remote_turn x late ctx_first serves r body more n fin t d m fits refl (omega arith) room
            (here ∙ ap (λ l. input (l ++ more) fin) (start-first x r s body m fits out sent room))
            live' new_id unmet hm))
        (
          refl,
          q,
          subst (λ k. active k t' ≡ some q) wire_id
              (accept-active q (record t { packer = record t.packer { input = input more fin } })),
          stream-Delivered (arrives (calls_out reached room r) i) late ctx_first n e q t' bodies
              more' [] fin' (registered r s) ready is_ready no_end fine all_fit few out' sent'
              (remote ∙ wire_id) (omega arith) (omega (arith, room)) refl (still_live ∙ live)
              open_call refl (new-IsSound ctx) empty-Holds,
        ) in
    (w.0, w.1, w.2, w.3)
