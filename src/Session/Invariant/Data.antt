-- ===== src/Session/Invariant/Data.antt =====
-- The packets that are not end packets keep the maps in order.
use go_muxrpc.Base.{
  ℕ, ◌^◌, ◌≤◌, ◌<◌, ◌≡◌, refl, sym, ap, subst, ◌∙◌, ◌≢◌, inl, inr, Bool, false, Option, none, some,
  List, Text, ltb, arith, Bool-cases, Option-cases,
}
use go_muxrpc.Base.Assoc.{member}
use go_muxrpc.Errors.{Err, Result, ok, err, CallType, async, no_such_method}
use go_muxrpc.External.{External, Call}
use go_muxrpc.Codec.Stream.{Input, Output}
use go_muxrpc.Codec.Packet.{Packet, Header}
use go_muxrpc.Codec.Writer.{write_packet}
use go_muxrpc.Codec.Flag
use go_muxrpc.Packets.{new_end_err_packet}
use go_muxrpc.Source.ByteSource.{ByteSource, consume}
use go_muxrpc.Session.State.{Session, Request, active, set_input, set_output, set_request}
use go_muxrpc.Session.Serve.{
  maybe_discard, Discard, keep, skip, broken, typed_request, decoded_request, incoming, decode_body,
  parse_new_request, Fetched, found, fresh, failed, refused, refuse, accept, admit, fetch_request,
  consumed, fetched, data_kept, serve_data, serve_packet, is_async, is_stream_type, default_type,
}
use go_muxrpc.Session.Invariant.Keys.{Keys, update-Keys, refuse-Keys, accept-Keys}
use go_muxrpc.Session.Invariant.Steps.{
  Inv, active-ids, active-none, close_stream-Inv, discard-Inv, discard_keep, discard_maps,
  serve_end-Inv,
}

consumed-Inv :
    (x : External) (late : Bool) (r : Request) (t : Input × ByteSource × Option Err) (s : Session)
    → Inv s
    → r.sink.req ≡ r.id
    → (r.id < 2 ^ 31 → r.id ≤ s.highest)
    → Inv (consumed x late r t s).0
unfolding consumed set_request set_input
consumed-Inv x late r (i, bs, none) s k same low = update-Keys k (record r { source = bs }) same
consumed-Inv x late r (i, bs, some e) s k same low =
    close_stream-Inv x late (record r { source = bs }) (some e) _
      (update-Keys k (record r { source = bs }) same) same low

-- What a request of an incoming call has.
abbrev IsIncoming : Header → Request → Type 0
IsIncoming h r = (r.id ≡ h.req) × (r.sink.req ≡ h.req)

ok-inj : {A : Type 0} {a b : A} → ok a ≡ ok b → a ≡ b
ok-inj e = ground (arith, e)

incoming-ids :
    (h : Header) (c : Call) (t : CallType) (ctx : Option Err) → IsIncoming h (incoming h c t ctx)
unfolding incoming
incoming-ids h c t ctx = (refl, refl)

made-ids :
    (h : Header) (c : Call) (t : CallType) (ctx : Option Err) (r : Request)
    → ok (incoming h c t ctx) ≡ ok r
    → IsIncoming h r
made-ids h c t ctx r e = subst (IsIncoming h) (ok-inj e) (incoming-ids h c t ctx)

typed-ids :
    (h : Header) (ctx : Option Err) (c : Call) (r : Request)
    → typed_request h ctx c ≡ ok r
    → IsIncoming h r
unfolding typed_request
typed-ids h ctx c r e = elim (Bool-cases (Flag.get h.flag Flag.stream)) [
  | inl m ↦ elim (Bool-cases (is_stream_type c.type)) [
    | inl t ↦ made-ids h c c.type ctx r (rw (m, t) at e)
    | inr t ↦ absurd (cc (rw (m, t) at e))
  ]
  | inr m ↦ elim (Bool-cases (is_async (default_type c.type))) [
    | inl t ↦ made-ids h c async ctx r (rw (m, t) at e)
    | inr t ↦ absurd (cc (rw (m, t) at e))
  ]
]

decoded-ids :
    (h : Header) (ctx : Option Err) (c : Result Call) (r : Request)
    → decoded_request h ctx c ≡ ok r
    → IsIncoming h r
unfolding decoded_request
decoded-ids h ctx (err e) r q = absurd (cc q)
decoded-ids h ctx (ok c) r q = typed-ids h ctx c r q

pub parse-ids :
    (x : External) (h : Header) (s : Session) (r : Request)
    → (parse_new_request x h s).1 ≡ ok r
    → (2 ^ 31 ≤ h.req) × (r.id ≡ h.req) × (r.sink.req ≡ h.req)
unfolding parse_new_request
parse-ids x h s r e = elim (Bool-cases (ltb h.req (2 ^ 31))) [
  | inl m ↦ absurd (cc (rw m at e))
  | inr m ↦ elim (Bool-cases (Flag.get h.flag Flag.json)) [
    | inl j ↦
        let (a, b) =
          decoded-ids h s.serve_err (decode_body x h.len s.packer.input).1 r (rw (m, j) at e) in
        (ground arith, a, b)
    | inr j ↦ absurd (cc (rw (m, j) at e))
  ]
]

-- A new call may read the input, and nothing else changes.
pub parse-maps :
    (x : External) (h : Header) (s : Session)
    → (P : List ℕ → List ℕ → List (ℕ × Request) → ℕ → Type 0)
    → P s.reqs s.reqs_closed s.store s.highest
    → let t = (parse_new_request x h s).0 in P t.reqs t.reqs_closed t.store t.highest
unfolding parse_new_request set_input
parse-maps x h s P p = elim (Bool-cases (ltb h.req (2 ^ 31))) [
  | inl m ↦ rw m p
  | inr m ↦ elim (Bool-cases (Flag.get h.flag Flag.json)) [
    | inl j ↦ rw (m, j) p
    | inr j ↦ rw (m, j) p
  ]
]

refused-Inv :
    (h : Header) (s : Session) (t : Output × Option Err)
    → Inv s
    → 2 ^ 31 ≤ h.req
    → member h.req s.reqs ≡ false
    → Inv (refused h s t).0
unfolding refused set_output
refused-Inv h s (o, some e) k remote fresh_id = k
refused-Inv h s (o, none) k remote fresh_id = refuse-Keys k h.req remote fresh_id

refuse-Inv :
    (h : Header) (p : Result Packet) (s : Session)
    → Inv s
    → 2 ^ 31 ≤ h.req
    → member h.req s.reqs ≡ false
    → Inv (refuse h p s).0
unfolding refuse
refuse-Inv h (err e) s k remote fresh_id = k
refuse-Inv h (ok p) s k remote fresh_id =
    refused-Inv h s (write_packet p s.packer.output) k remote fresh_id

accept-Inv :
    (r : Request) (s : Session)
    → Inv s
    → 2 ^ 31 ≤ r.id
    → member r.id s.reqs_closed ≡ false
    → r.sink.req ≡ r.id
    → Inv (accept r s)
unfolding accept set_request
accept-Inv r s k remote fresh_id same = accept-Keys k r remote fresh_id same

admit-Inv :
    (x : External) (handled : List Text → Bool) (h : Header) (t : Session × Result Request)
    → Inv t.0
    → member h.req t.0.reqs ≡ false
    → member h.req t.0.reqs_closed ≡ false
    → ((r : Request) → t.1 ≡ ok r → (2 ^ 31 ≤ h.req) × (r.id ≡ h.req) × (r.sink.req ≡ h.req))
    → Inv (admit x handled h t).0
unfolding admit
admit-Inv x handled h (s, err e) k fresh_id unmet ids = k
admit-Inv x handled h (s, ok r) k fresh_id unmet ids =
    let (remote, i, n) = ids r refl in
    elim (Bool-cases (handled r.method)) [
      | inl m ↦
          rw m (
            accept-Inv r s k (ground arith) (ap (λ j. member j s.reqs_closed) i ∙ unmet)
              (n ∙ sym i))
      | inr m ↦ rw m (
          refuse-Inv h
            (new_end_err_packet x h.req (Flag.get h.flag Flag.stream) (no_such_method r.method)) s k
            remote fresh_id)
    ]

fetched-Inv :
    (x : External) (late : Bool) (h : Header) (t : Session × Fetched)
    → Inv t.0
    → ((r : Request) → t.1 ≡ found r → (r.sink.req ≡ r.id) × (r.id < 2 ^ 31 → r.id ≤ t.0.highest))
    → Inv (fetched x late h t).0
unfolding fetched
fetched-Inv x late h (s, failed e) k ids = k
fetched-Inv x late h (s, fresh) k ids = k
fetched-Inv x late h (s, found r) k ids =
    let (same, low) = ids r refl in
    consumed-Inv x late r (consume h.len h.flag s.packer.input r.source) s k same low

found-inj : {q r : Request} → found q ≡ found r → q ≡ r
found-inj e = ground (arith, e)

refused-ne :
    (h : Header) (s : Session) (t : Output × Option Err) (r : Request) → (refused h s t).1 ≢ found r
unfolding refused
refused-ne h s (o, some e) r q = cc q
refused-ne h s (o, none) r q = cc q

refuse-ne :
    (h : Header) (p : Result Packet) (s : Session) (r : Request) → (refuse h p s).1 ≢ found r
unfolding refuse
refuse-ne h (err e) s r q = cc q
refuse-ne h (ok p) s r q = refused-ne h s (write_packet p s.packer.output) r q

admit-ne :
    (x : External) (handled : List Text → Bool) (h : Header) (t : Session × Result Request)
    (r : Request)
    → (admit x handled h t).1 ≢ found r
unfolding admit
admit-ne x handled h (s, err e) r q = cc q
admit-ne x handled h (s, ok p) r q = elim (Bool-cases (handled p.method)) [
  | inl m ↦ cc (rw m at q)
  | inr m ↦
      refuse-ne h
        (new_end_err_packet x h.req (Flag.get h.flag Flag.stream) (no_such_method p.method)) s r
        (rw m at q)
]

fetch-Inv :
    (x : External) (late : Bool) (handled : List Text → Bool) (h : Header) (s : Session)
    → Inv s
    → member h.req s.reqs_closed ≡ false
    → Inv (fetched x late h (fetch_request x handled h s)).0
unfolding fetch_request
fetch-Inv x late handled h s k unmet = elim (Option-cases (active h.req s)) [
  | inl a ↦
      rw (a, fetch_request)
        (fetched-Inv x late h (admit x handled h (parse_new_request x h s))
          (admit-Inv x handled h (parse_new_request x h s) (parse-maps x h s Keys k)
            (parse-maps x h s (λ r c m n. member h.req r ≡ false) (active-none h.req s k a))
            (parse-maps x h s (λ r c m n. member h.req c ≡ false) unmet) (parse-ids x h s))
          (λ r q. absurd (admit-ne x handled h (parse_new_request x h s) r q)))
  | inr (r, a) ↦
      let (m, i, n) = active-ids h.req s r k a in
      rw (a, fetch_request)
        (fetched-Inv x late h (s, found r) k
          (λ q e.
            let same : r ≡ q = found-inj e in
            subst (λ (t : Request). (t.sink.req ≡ t.id) × (t.id < 2 ^ 31 → t.id ≤ s.highest)) same
              (n ∙ sym i, λ lt. ground (arith, k.active_local h.req m))))
]

kept-Inv :
    (x : External) (late : Bool) (handled : List Text → Bool) (h : Header) (t : Session × Discard)
    → Inv t.0
    → (t.1 ≡ keep → member h.req t.0.reqs_closed ≡ false)
    → Inv (data_kept x late handled h t).0
unfolding data_kept
kept-Inv x late handled h (s, keep) k unmet = fetch-Inv x late handled h s k (unmet refl)
kept-Inv x late handled h (s, skip) k unmet = k
kept-Inv x late handled h (s, broken e) k unmet = k

serve_data-Inv :
    (x : External) (late : Bool) (handled : List Text → Bool) (h : Header) (s : Session)
    → Inv s
    → Inv (serve_data x late handled h s).0
unfolding serve_data
serve_data-Inv x late handled h s k =
    kept-Inv x late handled h (maybe_discard h s) (discard-Inv h s k)
      (λ e. ap (member h.req) (discard_maps h s).0 ∙ discard_keep h s e)

-- Whatever the packet is.
pub serve_packet-Inv :
    (x : External) (late : Bool) (handled : List Text → Bool) (h : Header) (s : Session)
    → Inv s
    → Inv (serve_packet x late handled h s).0
unfolding serve_packet
serve_packet-Inv x late handled h s k = elim (Bool-cases (Flag.get h.flag Flag.end_err)) [
  | inl m ↦ rw m (serve_end-Inv x late h s k)
  | inr m ↦ rw m (serve_data-Inv x late handled h s k)
]
