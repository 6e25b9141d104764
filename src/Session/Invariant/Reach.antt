-- ===== src/Session/Invariant/Reach.antt =====
-- The sessions that the operations lead to from a new one.
use go_muxrpc.Base.{
  ℕ, ◌+◌, ◌%◌, ◌^◌, ◌<◌, ◌≡◌, refl, sym, ap, subst, ◌∙◌, inl, inr, Bool, true, false, Option, none,
  some, List, [], ◌∷◌, Text, ◌==◌, if◌then◌else◌, arith, Bool-cases, Option-cases,
}
use go_muxrpc.Base.Assoc.{member, lookup}
use go_muxrpc.Errors.{Err, Result, ok, err, sentinel, eof, session_terminated, CallType}
use go_muxrpc.External.{External}
use go_muxrpc.Codec.Stream.{Bytes, Input, Output}
use go_muxrpc.Codec.Packet.{Header}
use go_muxrpc.Codec.Writer.{write_packet}
use go_muxrpc.Codec.Flag
use go_muxrpc.Manifest.{Manifest}
use go_muxrpc.Sink.Fields.{close-req}
use go_muxrpc.Session.Packer.{Packer, next_header}
use go_muxrpc.Session.State.{
  Session, Request, active, end_context, end_contexts, end_request, retire, set_input, set_output,
  set_request, terminate, terminate_all,
}
use go_muxrpc.Session.Serve.{serve_header, serve_round}
use go_muxrpc.Session.Client.{
  args_or_empty, register, next_id, start, send_first, sent_first, type_flags, wire_call,
}
use go_muxrpc.Session.Retrieve.{ask_manifest, asked, give_up, manifest_sent, manifest_request}
use go_muxrpc.Session.Requests.{close_request, is_regular_end}
use go_muxrpc.Session.Invariant.Keys.{Keys, empty-Keys, update-Keys, retire-Keys, register-Keys}
use go_muxrpc.Session.Invariant.Steps.{Inv, active-ids, end_request-ids, close_stream-Inv}
use go_muxrpc.Session.Invariant.Data.{serve_packet-Inv}

abbrev pub new_session : Packer → Manifest → Session
new_session p m = record {
  packer = p;
  highest = 0;
  reqs = [];
  reqs_closed = [];
  store = [];
  calls = [];
  terminated = false;
  serve_err = none;
  manifest = m;
}

-- A session after some operations: bytes arrive, the loop takes a packet, this side calls or asks for
-- the manifest or learns it, those who hold a request use its source and its sink and write to the
-- connection, a handler closes an active request, or the session is terminated.
pub data Reach (x : External) (handled : List Text → Bool) : Session → Type 0 where
  opened : (p : Packer) → (m : Manifest) → Reach x handled (new_session p m)
  arrives : {s : Session} → Reach x handled s → (i : Input) → Reach x handled (set_input i s)
  served :
      {s : Session}
      → Reach x handled s
      → (late : Bool) → (ctx_first : Bool)
      → Reach x handled (serve_round x late handled ctx_first s).0
  calls_out :
      {s : Session}
      → Reach x handled s
      → s.highest + 1 < 2 ^ 31
      → (r : Request) → Reach x handled (start x r s).0
  asks :
      {s : Session}
      → Reach x handled s
      → s.highest + 1 < 2 ^ 31
      → Reach x handled (ask_manifest s).0
  learns :
      {s : Session}
      → Reach x handled s
      → (m : Manifest) → Reach x handled (record s { manifest = m })
  uses :
      {s : Session}
      → Reach x handled s
      → (r : Request) → lookup r.id s.store ≡ some r
      → r.sink.req ≡ r.id
      → (r' : Request) → r'.id ≡ r.id
      → r'.sink.req ≡ r.sink.req
      → (o : Output) → Reach x handled (set_request r' (set_output o s))
  closes :
      {s : Session}
      → Reach x handled s
      → (id : ℕ) → (r : Request) → active id s ≡ some r
      → (late : Bool) → (e : Option Err) → Reach x handled (close_request x late e r s)
  terminates :
      {s : Session} → Reach x handled s → (late : Bool) → Reach x handled (terminate x late s).0

serve_header-Inv :
    (x : External) (late : Bool) (handled : List Text → Bool) (t : Packer × Result Header)
    (s : Session)
    → Inv s
    → Inv (serve_header x late handled t s).0
unfolding serve_header
serve_header-Inv x late handled (p, err e) s k = k
serve_header-Inv x late handled (p, ok h) s k =
    serve_packet-Inv x late handled h (record s { packer = p }) k

serve_round-Inv :
    (x : External) (late : Bool) (handled : List Text → Bool) (ctx_first : Bool) (s : Session)
    → Inv s
    → Inv (serve_round x late handled ctx_first s).0
unfolding serve_round
serve_round-Inv x late handled ctx_first s k =
    serve_header-Inv x late handled (next_header ctx_first s.serve_err s.packer) s k

register-Inv : (r : Request) (s : Session) → Inv s → s.highest + 1 < 2 ^ 31 → Inv (register r s)
unfolding register set_request next_id
register-Inv r s k room =
    let small : (s.highest + 1) % 2 ^ 32 ≡ s.highest + 1 = omega (arith, room) in
    subst
      (λ id.
        Inv (record s { store = (register r s).store; highest = id; reqs = (register r s).reqs }))
      (sym small)
      (register-Keys k
        (record r {
          id = next_id s;
          sink = record r.sink { req = next_id s };
          raw_args = some (args_or_empty r.raw_args);
        })
        small room refl)

send_first-Inv :
    (b : Result Bytes) (id : ℕ) (t : CallType) (s : Session) → Inv s → Inv (send_first b id t s).0
unfolding send_first sent_first set_output
send_first-Inv (err e) id t s k = k
send_first-Inv (ok b) id t s k = sent-Inv (
    write_packet
      (record { flag = Flag.set (Flag.set 0 Flag.json) (type_flags t); req = id; body = b })
      s.packer.output)
  where
    sent-Inv : (o : Output × Option Err) → Inv (sent_first s o).0
    sent-Inv (o, e) = k

start-Inv :
    (x : External) (r : Request) (s : Session)
    → Inv s
    → s.highest + 1 < 2 ^ 31
    → Inv (start x r s).0
unfolding start
start-Inv x r s k room =
    send_first-Inv (x.marshal_call (wire_call r)) (next_id s) r.call_type (register r s)
      (register-Inv r s k room)

asked-Inv :
    (r : Request) (t : Session × Option Err) → Inv t.0 → r.sink.req ≡ r.id → Inv (asked r t).0
unfolding asked give_up end_context set_request
asked-Inv r (s, none) k own = k
asked-Inv r (s, some e) k own = update-Keys k (end_context r) own

ask-Inv : (s : Session) → Inv s → s.highest + 1 < 2 ^ 31 → Inv (ask_manifest s).0
unfolding ask_manifest set_output
ask-Inv s k room =
    asked-Inv (manifest_sent s) _ (register-Inv (manifest_request s.serve_err) s k room) refl

close_request-Inv :
    (x : External) (late : Bool) (e : Option Err) (id : ℕ) (r : Request) (s : Session)
    → Inv s
    → active id s ≡ some r
    → Inv (close_request x late e r s)
unfolding close_request set_output
close_request-Inv x late e id r s k a =
    let (m, i, n) = active-ids id s r k a in
    close_stream-Inv x late _ e _ k
      (close-req x late (if is_regular_end e then some (sentinel eof) else e) r.sink s.packer.output
        ∙ n
        ∙ sym i)
      (λ lt. ground (arith, k.active_local id m))

context-ids :
    (r : Request)
    → let q : Request = (if r.of_session then end_context r else r) in
      (q.id ≡ r.id) × (q.sink.req ≡ r.sink.req)
unfolding end_context
context-ids r = elim (Bool-cases r.of_session) [
  | inl m ↦ rw m (refl, refl)
  | inr m ↦ rw m (refl, refl)
]

lookup-end_contexts :
    (id : ℕ) (m : List (ℕ × Request)) (r : Request)
    → lookup id m ≡ some r
    → lookup id (end_contexts m) ≡ some (if r.of_session then end_context r else r)
unfolding lookup end_contexts
lookup-end_contexts id [] r e = absurd (cc e)
lookup-end_contexts id ((j, q) ∷ m) r e = elim (Bool-cases (j == id)) [
  | inl hit ↦
      let same : some q ≡ some r = rw hit at e in
      let same' : q ≡ r = ground (arith, same) in
      rw hit (ap (λ (t : Request). some (if t.of_session then end_context t else t)) same')
  | inr miss ↦ rw miss (lookup-end_contexts id m r (rw miss at e))
]

pub contexts-Keys :
    {reqs closed : List ℕ} {store : List (ℕ × Request)} {highest : ℕ}
    → Keys reqs closed store highest
    → Keys reqs closed (end_contexts store) highest
contexts-Keys {reqs} {closed} {store} {highest} k = record {
  disjoint = k.disjoint;
  stored = λ id h.
      let (r, l, i, n) = k.stored id h in
      let (a, b) = context-ids r in (_, lookup-end_contexts id store r l, a ∙ i, b ∙ n);
  active_local = k.active_local;
  closed_local = k.closed_local;
  positive = k.positive;
}

-- One round of the loop of `Terminate`.
abbrev pub ended : External → Bool → Request → Session → Session
ended x late r s =
    let (r', o) = end_request x late (some (sentinel session_terminated)) r s.packer.output in
    retire r.id (set_request r' (set_output o s))

pub ended-Inv :
    (x : External) (late : Bool) (id : ℕ) (r : Request) (s : Session)
    → Inv s
    → active id s ≡ some r
    → Inv (ended x late r s)
unfolding retire set_request set_output
ended-Inv x late id r s k a =
    let (m, i, n) = active-ids id s r k a in
    let e = some (sentinel session_terminated) in
    let (p, q) = end_request-ids x late e r s.packer.output in
    retire-Keys (update-Keys k (end_request x late e r s.packer.output).0 (q ∙ n ∙ sym i ∙ sym p))
      r.id (λ lt. ground (arith, k.active_local id m))

terminate_all-Inv :
    (x : External) (late : Bool) (ids : List ℕ) (s : Session)
    → Inv s
    → Inv (terminate_all x late ids s)
unfolding terminate_all
terminate_all-Inv x late [] s k = k
terminate_all-Inv x late (id ∷ ids) s k = elim (Option-cases (active id s)) [
  | inl a ↦ rw (a, terminate_all) (terminate_all-Inv x late ids s k)
  | inr (r, a) ↦
      rw (a, terminate_all)
        (terminate_all-Inv x late ids (ended x late r s) (ended-Inv x late id r s k a))
]

terminate-Inv : (x : External) (late : Bool) (s : Session) → Inv s → Inv (terminate x late s).0
unfolding terminate
terminate-Inv x late s k = terminate_all-Inv x late s.reqs _ (contexts-Keys k)

pub reach-Inv :
    {x : External} {handled : List Text → Bool} {s : Session} → Reach x handled s → Inv s
unfolding set_input set_request set_output
reach-Inv (opened p m) = empty-Keys
reach-Inv (arrives r i) = reach-Inv r
reach-Inv {x} {handled} (served r late ctx_first) =
    serve_round-Inv x late handled ctx_first _ (reach-Inv r)
reach-Inv {x} (calls_out r room q) = start-Inv x q _ (reach-Inv r) room
reach-Inv (asks r room) = ask-Inv _ (reach-Inv r) room
reach-Inv (learns r m) = reach-Inv r
reach-Inv (uses r q found own q' same same_sink o) =
    update-Keys (reach-Inv r) q' (same_sink ∙ own ∙ sym same)
reach-Inv {x} (closes r id q a late e) = close_request-Inv x late e id q _ (reach-Inv r) a
reach-Inv {x} (terminates r late) = terminate-Inv x late _ (reach-Inv r)

-- In every session that is reached from a new one, whatever bytes arrive and in whatever order it
-- takes packets, calls, uses its requests, closes and terminates: an active id is not a closed one, its request is found,
-- has that id and sends under it; and while ids are left the next id is neither active nor closed.
pub reach-maps :
    {x : External} {handled : List Text → Bool} {s : Session}
    → Reach x handled s
    → (id : ℕ)
    → (member id s.reqs ≡ true
        → (member id s.reqs_closed ≡ false)
          × (r : Request) × (active id s ≡ some r)
          × (r.id ≡ id)
          × (r.sink.req ≡ id))
      × (s.highest + 1 < 2 ^ 31
          → (member (next_id s) s.reqs ≡ false) × (member (next_id s) s.reqs_closed ≡ false))
unfolding active next_id
reach-maps {x} {handled} {s} reached id = (
  (λ m. let (r, l, i, n) = k.stored id m in (k.disjoint id m, r, rw m l, i, n)),
  (λ room.
      let small : (s.highest + 1) % 2 ^ 32 ≡ s.highest + 1 = omega (arith, room) in
      rw small (
        unknown (s.highest + 1) s.reqs (λ h. omega (arith, k.active_local (s.highest + 1) h room)),
        unknown (s.highest + 1) s.reqs_closed
            (λ h. omega (arith, k.closed_local (s.highest + 1) h room)),
      )),
)
  where
    k : Inv s
    k = reach-Inv reached

    unknown : (j : ℕ) (m : List ℕ) → ¬ (member j m ≡ true) → member j m ≡ false
    unknown j m n = elim (Bool-cases (member j m)) [ inl t ↦ absurd (n t) | inr f ↦ f ]
