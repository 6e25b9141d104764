-- ===== src/Session/Wire/Streams/Delivered.antt =====
-- A stream from its first write to the end of the loop that consumes it.
use go_muxrpc.Base.{
  ℕ, suc, ◌+◌, ◌-◌, ◌^◌, ◌<◌, ◌≡◌, refl, ap, sym, subst, ◌∙◌, Bool, true, false, Option, none, some,
  List, [], ◌++◌, append_assoc, map, Text, length, All, arith,
}
use go_muxrpc.Base.Assoc.{lookup}
use go_muxrpc.Errors.{Err}
use go_muxrpc.External.{External}
use go_muxrpc.Codec.Stream.{Bytes, Output}
use go_muxrpc.Codec.Packet.{encode}
use go_muxrpc.Codec.Flag
use go_muxrpc.Codec.RoundTrip.Packets.{input}
use go_muxrpc.Codec.RoundTrip.Sessions.{encodes}
use go_muxrpc.Packets.{new_end_okay_packet}
use go_muxrpc.Source.ByteSource.{Ready, or_eof}
use go_muxrpc.Source.ByteSource.Life.{IsSound}
use go_muxrpc.Source.Frames.Queue.{Holds}
use go_muxrpc.Source.Drain.{drain, oks, drain_failed}
use go_muxrpc.Sink.{ByteSink, is_end, is_stream}
use go_muxrpc.Sink.Closing.{IsReady}
use go_muxrpc.Session.State.{Session, Request, active, set_input, set_output, set_request}
use go_muxrpc.Session.Requests.{close_request}
use go_muxrpc.Session.Serve.{go_on, Verdict}
use go_muxrpc.Session.Invariant.Reach.{Reach, reach-Inv}
use go_muxrpc.Session.Invariant.Steps.{active-ids}
use go_muxrpc.Session.Invariant.Closing.{close_stream-IsClosed, ended_with}
use go_muxrpc.Session.Wire.Deliver.{body_packet}
use go_muxrpc.Session.Wire.HangUp.{end_of, hung_up, first_end, second_end, close_request_twice}
use go_muxrpc.Session.Wire.Streams.{
  write_all, Fits, packets_of, write_all-encodes, rounds, one_round, bodies_received,
}

-- What the handler does: it writes the bodies on the sink of its request, and closes the request.
abbrev pub wrote : Request → Session → ByteSink × Output × Option Err → Request × Session
wrote r t (bs, o, w) =
    let r' : Request = record r { sink = bs } in (r', set_request r' (set_output o t))

abbrev pub closes_after : External → Option Err → Request × Session → Session
closes_after x e (r, t) = close_request x false e r t

abbrev pub stream_sent : External → Option Err → Request → List Bytes → Session → Session
stream_sent x e r bodies t = closes_after x e (wrote r t (write_all bodies r.sink t.packer.output))

-- The bytes of the bodies and of both end packets, for request `id` of the side that receives them.
abbrev pub stream_of : ℕ → ℕ → Bool → List Bytes → Bytes
stream_of id flag stream bodies =
    encodes (map (body_packet flag id) bodies)
    ++ (encode (end_of id stream) ++ encode (end_of id stream))

pub stream_bytes :
    (x : External) (e : Option Err) (id : ℕ) (r : Request) (bodies : List Bytes) (t : Session)
    (before : Bytes)
    → IsReady r.sink
    → is_end e ≡ true
    → All Fits bodies
    → t.packer.output.room ≡ none
    → t.packer.output.sent ≡ before
    → r.sink.req ≡ 2 ^ 32 - id
    → (stream_sent x e r bodies t).packer.output.sent
      ≡ before ++ stream_of id r.sink.flag (is_stream r.sink) bodies
unfolding set_request set_output
stream_bytes x e id r bodies t before h fine fits room sent remote =
    let (c, written) = write_all-encodes bodies r.sink t.packer.output h fits room in
    let r' : Request = record r { sink = record r.sink { body = c } } in
    let o' : Output = record t.packer.output {
      sent = t.packer.output.sent ++ encodes (packets_of r.sink bodies);
    } in
    let p = new_end_okay_packet r.sink.req (is_stream r.sink) in
    ap (λ w. (closes_after x e (wrote r t w)).packer.output.sent) written
    ∙ close_request_twice x e r' (set_request r' (set_output o' t))
        (record { open_sink = h.open_sink; alive = h.alive; numbered = h.numbered }) fine room
    ∙ append_assoc t.packer.output.sent (encodes (packets_of r.sink bodies)) (encode p ++ encode p)
    ∙ ap (λ l. l ++ (encodes (packets_of r.sink bodies) ++ (encode p ++ encode p))) sent
    ∙ ap
        (λ k.
          before
          ++ (encodes (map (λ b. record { flag = r.sink.flag; req = k; body = b }) bodies)
              ++ (encode (new_end_okay_packet k (is_stream r.sink))
                  ++ encode (new_end_okay_packet k (is_stream r.sink)))))
        remote

-- Both end packets, after the last body.
two_ends :
    (x : External) (late : Bool) (handled : List Text → Bool) (ctx_first : Bool) (id : ℕ)
    (stream : Bool) (more : Bytes) (fin : Err) (s : Session) (q : Request)
    → 0 < id
    → id < 2 ^ 32
    → s.packer.input ≡ input (encode (end_of id stream) ++ (encode (end_of id stream) ++ more)) fin
    → s.serve_err ≡ none
    → active id s ≡ some q
    → id ≡ q.id
    → rounds 2 x late handled ctx_first s ≡ (hung_up x late q (input more fin) s, go_on)
two_ends x late handled ctx_first id stream more fin s q pos small here live a known =
    let p = end_of id stream in
    let one =
      first_end x late handled ctx_first id stream (encode p ++ more) fin s q pos small here live
        a in
    let two = second_end x late handled ctx_first id stream more fin s q pos small live known in
    let s' = hung_up x late q (input (encode p ++ more) fin) s in
    one_round x late handled ctx_first 1 s (ap (λ c. c.1) one)
    ∙ ap (λ c. rounds 1 x late handled ctx_first c.0) one
    ∙ one_round x late handled ctx_first 0 s' (ap (λ c. c.1) two)
    ∙ ap (λ c. rounds 0 x late handled ctx_first c.0) two
    ∙ unfold rounds in refl

-- What a stream of bodies leads to at the side that receives it: as many rounds as there are bodies, and
-- two more.
abbrev pub Delivered : Ready → List Bytes → Bytes → Err → ℕ → Session × Verdict → Type 0
Delivered ready bodies more fin n (s, v) =
    (v ≡ go_on)
    × (s.packer.input ≡ input more fin)
    × (active n s ≡ none)
    × (c : Request) × (lookup n s.store ≡ some c)
    × (drain (suc (length bodies)) ready c.source ≡ (oks bodies, true))

pub stream_of-Delivered :
    {x : External} {handled : List Text → Bool} {s : Session}
    → Reach x handled s
    → (late ctx_first : Bool) (id flag : ℕ) (stream : Bool) (bodies : List Bytes)
      (more left : Bytes) (fin : Err) (q : Request) (ready : Ready)
    → Flag.get flag Flag.end_err ≡ false
    → All Fits bodies
    → length bodies < 2 ^ 32
    → 0 < id
    → id < 2 ^ 32
    → s.packer.input ≡ input (stream_of id flag stream bodies ++ more) fin
    → s.serve_err ≡ none
    → active id s ≡ some q
    → q.source.failed ≡ none
    → IsSound q.source
    → Holds q.source.buf left []
    → Delivered ready bodies more fin id (rounds (length bodies + 2) x late handled ctx_first s)
unfolding set_input
stream_of-Delivered {x} {handled} {s} reached late ctx_first id flag stream bodies more left fin q
      ready no_end fits few pos small here live a unfailed sound holds =
    let p = end_of id stream in
    let pk = encodes (map (body_packet flag id) bodies) in
    let (s1, at, got, go) =
      bodies_received x late handled ctx_first id flag left no_end pos small bodies
        (encode p ++ (encode p ++ more)) fin [] s
        (record {
          reached = reached;
          live = live;
          request = q;
          found = a;
          unfailed = unfailed;
          sound = sound;
          holds = holds;
        })
        fits (omega arith)
        (here
          ∙ ap (λ l. input l fin)
              (append_assoc pk (encode p ++ encode p) more
                ∙ ap (λ l. pk ++ l) (append_assoc (encode p) (encode p) more))) in
    let q1 = got.request in
    let known : q1.id ≡ id = (active-ids id s1 q1 (reach-Inv got.reached) got.found).1 in
    let closed = hung_up x late q1 (input more fin) s1 in
    let final : rounds (length bodies + 2) x late handled ctx_first s ≡ (closed, go_on) =
      go 2
      ∙ two_ends x late handled ctx_first id stream more fin s1 q1 pos small at got.live got.found
          (sym known) in
    let done = close_stream-IsClosed x late q1 none (set_input (input more fin) s1) got.sound in
    (
      ap (λ c. c.1) final,
      ap (λ c. c.0.packer.input) final ∙ done.conn,
      ap (λ c. active id c.0) final ∙ ap (λ k. active k closed) (sym known) ∙ done.inactive,
      done.last.0,
      ap (λ c. lookup id c.0.store) final
          ∙ ap (λ k. lookup k closed.store) (sym known)
          ∙ done.last.1,
      drain_failed ready done.last.0.source (or_eof none) left bodies
          (done.last.2 ∙ ap (λ o. ended_with o none) got.unfailed)
          (subst (λ fb. Holds fb left bodies) (sym done.last.3) got.holds),
    )

pub stream-Delivered :
    {x : External} {handled : List Text → Bool} {s : Session}
    → Reach x handled s
    → (late ctx_first : Bool) (id : ℕ) (e : Option Err) (r : Request) (t : Session)
      (bodies : List Bytes) (more left : Bytes) (fin : Err) (q : Request) (ready : Ready)
    → IsReady r.sink
    → Flag.get r.sink.flag Flag.end_err ≡ false
    → is_end e ≡ true
    → All Fits bodies
    → length bodies < 2 ^ 32
    → t.packer.output.room ≡ none
    → t.packer.output.sent ≡ []
    → r.sink.req ≡ 2 ^ 32 - id
    → 0 < id
    → id < 2 ^ 32
    → s.packer.input ≡ input ((stream_sent x e r bodies t).packer.output.sent ++ more) fin
    → s.serve_err ≡ none
    → active id s ≡ some q
    → q.source.failed ≡ none
    → IsSound q.source
    → Holds q.source.buf left []
    → Delivered ready bodies more fin id (rounds (length bodies + 2) x late handled ctx_first s)
stream-Delivered {x} {handled} {s} reached late ctx_first id e r t bodies more left fin q ready h
      no_end fine fits few room sent remote pos small here live a unfailed sound holds =
    stream_of-Delivered reached late ctx_first id r.sink.flag (is_stream r.sink) bodies more left
      fin q ready no_end fits few pos small
      (here
        ∙ ap (λ l. input (l ++ more) fin)
            (stream_bytes x e id r bodies t [] h fine fits room sent remote))
      live a unfailed sound holds
