-- ===== src/Session/Invariant/Steps.antt =====
-- Every step of a session keeps the maps in order.
use go_muxrpc.Base.{
  ℕ, ◌^◌, ◌≤◌, ◌<◌, ◌≡◌, refl, sym, ap, ◌∙◌, ◌≢◌, inl, inr, Bool, true, false, Option, none, some,
  arith, Bool-cases, Option-cases,
}
use go_muxrpc.Base.Assoc.{member}
use go_muxrpc.Errors.{Err}
use go_muxrpc.External.{External}
use go_muxrpc.Codec.Stream.{Bytes, Input, Output, copy_n}
use go_muxrpc.Codec.Packet.{Header}
use go_muxrpc.Codec.Reader.{read_body_into}
use go_muxrpc.Sink.Fields.{close-req}
use go_muxrpc.Source.ByteSource.{ByteSource}
use go_muxrpc.Session.State.{
  Session, Request, active, close_stream, set_input, set_request, end_request, abort,
}
use go_muxrpc.Session.Serve.{
  maybe_discard, Discard, discarded, keep, skip, broken, serve_end, closed_by, end_body,
  end_unknown, StreamEnd, ends, bad, stream_end,
}
use go_muxrpc.Session.Invariant.Keys.{Keys, update-Keys, retire-Keys}

abbrev pub Inv : Session → Type 0
Inv s = Keys s.reqs s.reqs_closed s.store s.highest

-- A request of an active id, as the map of the session gives it.
pub active-ids :
    (id : ℕ) (s : Session) (r : Request)
    → Inv s
    → active id s ≡ some r
    → (member id s.reqs ≡ true) × (r.id ≡ id) × (r.sink.req ≡ id)
unfolding active
active-ids id s r k e = elim (Bool-cases (member id s.reqs)) [
  | inl m ↦
      let (q, l, i, n) = k.stored id m in
      let same : q ≡ r = ground (arith, rw m at e) in
      (
        m,
        ap (λ (t : Request). t.id) (sym same) ∙ i,
        ap (λ (t : Request). t.sink.req) (sym same) ∙ n,
      )
  | inr m ↦ absurd (cc (rw m at e))
]

pub active-none : (id : ℕ) (s : Session) → Inv s → active id s ≡ none → member id s.reqs ≡ false
unfolding active
active-none id s k e = elim (Bool-cases (member id s.reqs)) [
  | inl m ↦ let (q, l, i, n) = k.stored id m in absurd (cc (sym l ∙ rw m at e))
  | inr m ↦ m
]

pub end_request-ids :
    (x : External) (late : Bool) (e : Option Err) (r : Request) (o : Output)
    → ((end_request x late e r o).0.id ≡ r.id)
      × ((end_request x late e r o).0.sink.req ≡ r.sink.req)
unfolding end_request
end_request-ids x late e r o = (refl, close-req x late e r.sink o)

pub abort-ids : (r : Request) → ((abort r).id ≡ r.id) × ((abort r).sink.req ≡ r.sink.req)
unfolding abort
abort-ids r = ground arith

pub close_stream-Inv :
    (x : External) (late : Bool) (r : Request) (e : Option Err) (s : Session)
    → Inv s
    → r.sink.req ≡ r.id
    → (r.id < 2 ^ 31 → r.id ≤ s.highest)
    → Inv (close_stream x late r e s)
unfolding close_stream
close_stream-Inv x late r e s k same low =
    retire-Keys (update-Keys k (abort (end_request x late e r s.packer.output).0) ids) r.id low
  where
    ids :
        (abort (end_request x late e r s.packer.output).0).sink.req
        ≡ (abort (end_request x late e r s.packer.output).0).id
    ids = omega (
      arith,
      abort-ids (end_request x late e r s.packer.output).0,
      end_request-ids x late e r s.packer.output,
    )

-- The same for a request of an active id.
close_active-Inv :
    (x : External) (late : Bool) (id : ℕ) (r : Request) (e : Option Err) (s : Session)
    → Inv s
    → active id s ≡ some r
    → (bs : ByteSource)
    → Inv (
        close_stream x late (record r { source = bs }) e (set_request (record r { source = bs }) s))
unfolding set_request
close_active-Inv x late id r e s k a bs =
    let (m, i, n) = active-ids id s r k a in
    close_stream-Inv x late (record r { source = bs }) e _
      (update-Keys k (record r { source = bs }) (n ∙ sym i)) (n ∙ sym i)
      (λ lt. ground (arith, k.active_local id m))

pub discard-Inv : (h : Header) (s : Session) → Inv s → Inv (maybe_discard h s).0
unfolding maybe_discard set_input
discard-Inv h s k = elim (Bool-cases (member h.req s.reqs_closed)) [
  | inl m ↦ rw m k
  | inr m ↦ rw m k
]

discarded-ne-keep : (e : Option Err) → discarded e ≢ keep
discarded-ne-keep none e = ground arith
discarded-ne-keep (some f) e = ground arith

-- A packet that is not to be ignored is not for a closed request.
pub discard_keep :
    (h : Header) (s : Session) → (maybe_discard h s).1 ≡ keep → member h.req s.reqs_closed ≡ false
unfolding maybe_discard
discard_keep h s e = elim (Bool-cases (member h.req s.reqs_closed)) [
  | inl m ↦ absurd (discarded-ne-keep (copy_n h.len s.packer.input).2 (rw m at e))
  | inr m ↦ m
]

pub discard_maps :
    (h : Header) (s : Session)
    → ((maybe_discard h s).0.reqs_closed ≡ s.reqs_closed) × ((maybe_discard h s).0.reqs ≡ s.reqs)
unfolding maybe_discard set_input
discard_maps h s = elim (Bool-cases (member h.req s.reqs_closed)) [
  | inl m ↦ rw m (refl, refl)
  | inr m ↦ rw m (refl, refl)
]

closed_by-Inv :
    (x : External) (late : Bool) (r : Request) (e : StreamEnd) (s : Session)
    → Inv s
    → r.sink.req ≡ r.id
    → (r.id < 2 ^ 31 → r.id ≤ s.highest)
    → Inv (closed_by x late r e s).0
unfolding closed_by
closed_by-Inv x late r (ends e) s k same low = close_stream-Inv x late r e s k same low
closed_by-Inv x late r (bad e) s k same low = k

end_body-Inv :
    (x : External) (late : Bool) (r : Request) (t : Input × Bytes × Option Err) (s : Session)
    → Inv s
    → r.sink.req ≡ r.id
    → (r.id < 2 ^ 31 → r.id ≤ s.highest)
    → Inv (end_body x late r t s).0
unfolding end_body set_input
end_body-Inv x late r (i, b, some e) s k same low = k
end_body-Inv x late r (i, b, none) s k same low =
    closed_by-Inv x late r (stream_end x b) (set_input i s) k same low

end_unknown-Inv : (t : Session × Discard) → Inv t.0 → Inv (end_unknown t).0
unfolding end_unknown
end_unknown-Inv (s, keep) k = k
end_unknown-Inv (s, skip) k = k
end_unknown-Inv (s, broken e) k = k

pub serve_end-Inv :
    (x : External) (late : Bool) (h : Header) (s : Session) → Inv s → Inv (serve_end x late h s).0
unfolding serve_end
serve_end-Inv x late h s k = elim (Option-cases (active h.req s)) [
  | inl a ↦ rw (a, serve_end) (end_unknown-Inv (maybe_discard h s) (discard-Inv h s k))
  | inr (r, a) ↦
      let (m, i, n) = active-ids h.req s r k a in
      rw (a, serve_end)
        (end_body-Inv x late r (read_body_into h.len s.packer.input) s k (n ∙ sym i)
          (λ lt. ground (arith, k.active_local h.req m)))
]
