-- ===== src/Session/Wire/Streams.antt =====
-- A stream of bodies, from the side that writes them to the consumer of the source at the other side.
pub mod Delivered
pub mod Called
pub mod Written
use go_muxrpc.Base.{
  ℕ, zero, suc, ◌+◌, ◌-◌, ◌%◌, ◌^◌, ◌≤◌, ◌<◌, ◌≡◌, ◌≢◌, refl, ap, sym, subst, ◌∙◌, Bool, true,
  false, Option, none, some, List, [], ◌∷◌, ◌++◌, append_assoc, append-nil, map, Text, length,
  length-append, All, arith, Bool-cases, inl, inr,
}
use go_muxrpc.Base.Assoc.{member, lookup}
use go_muxrpc.Errors.{Err, sentinel, eof, Result, ok, err}
use go_muxrpc.External.{External}
use go_muxrpc.Codec.Stream.{Bytes, Input, Output}
use go_muxrpc.Codec.Packet.{Packet, encode}
use go_muxrpc.Codec.Writer.{max_buffer_size}
use go_muxrpc.Codec.Flag
use go_muxrpc.Codec.RoundTrip.Packets.{input}
use go_muxrpc.Codec.RoundTrip.Sessions.{encodes}
use go_muxrpc.Source.ByteSource.{ByteSource, is_failed}
use go_muxrpc.Source.ByteSource.Life.{IsSound}
use go_muxrpc.Source.Frames.Queue.{Holds}
use go_muxrpc.Source.Gains.{Gains}
use go_muxrpc.Sink.{ByteSink}
use go_muxrpc.Sink
use go_muxrpc.Sink.Closing.{IsReady, write_ready}
use go_muxrpc.Session.State.{Session, Request, active, set_input, set_request}
use go_muxrpc.Session.Serve.{Verdict, go_on, return, serve_round}
use go_muxrpc.Session.Invariant.Reach.{Reach, served, reach-Inv, reach-maps}
use go_muxrpc.Session.Invariant.Steps.{active-ids}
use go_muxrpc.Session.Wire.Answer.Turns.{set_request-active}
use go_muxrpc.Session.Wire.Deliver.{body_packet, serve_round-body}

-- The writes of a handler on its sink, up to the first error.
unfoldable pub and_write :
    ByteSink × Output × Result ℕ
    → (ByteSink → Output → ByteSink × Output × Option Err)
    → ByteSink × Output × Option Err
and_write (bs, o, err e) next = (bs, o, some e)
and_write (bs, o, ok n) next = next bs o

unfoldable pub write_all : List Bytes → ByteSink → Output → ByteSink × Output × Option Err
unfolding and_write
write_all [] bs o = (bs, o, none)
write_all (b ∷ q) bs o = and_write (Sink.write b bs o) (write_all q)

abbrev pub Fits : Bytes → Type 0
Fits b = length b ≤ max_buffer_size

abbrev pub packets_of : ByteSink → List Bytes → List Packet
packets_of bs q = map (λ b. record { flag = bs.flag; req = bs.req; body = b }) q

pub write_all-encodes :
    (q : List Bytes) (bs : ByteSink) (o : Output)
    → IsReady bs
    → All Fits q
    → o.room ≡ none
    → (c : Bytes) × (write_all q bs o
        ≡ (record bs { body = c }, record o { sent = o.sent ++ encodes (packets_of bs q) }, none))
unfolding write_all and_write encodes
write_all-encodes [] bs o h fits room =
    (bs.body, λ j. (bs, record o { sent = sym (append-nil o.sent) j }, none))
write_all-encodes (b ∷ q) bs o h fits room =
    let p : Packet = record { flag = bs.flag; req = bs.req; body = b } in
    let (c, rest) =
      write_all-encodes q (record bs { body = b }) (record o { sent = o.sent ++ encode p })
        (record { open_sink = h.open_sink; alive = h.alive; numbered = h.numbered }) fits.1 room in
    (
      c,
      ap (λ w. and_write w (write_all q)) (write_ready b bs o h fits.0 room) ∙ rest ∙ (λ j. (
        record bs { body = c },
        record o { sent = append_assoc o.sent (encode p) (encodes (packets_of bs q)) j },
        none,
      )),
    )

-- The loop of `serve` for so many rounds, while it goes on.
unfoldable pub continued : Session × Verdict → (Session → Session × Verdict) → Session × Verdict
continued (s, return e) next = (s, return e)
continued (s, go_on) next = next s

unfoldable pub rounds :
    ℕ → External → Bool → (List Text → Bool) → Bool → Session → Session × Verdict
unfolding continued
rounds zero x late handled ctx_first s = (s, go_on)
rounds (suc n) x late handled ctx_first s =
    continued (serve_round x late handled ctx_first s) (rounds n x late handled ctx_first)

pub one_round :
    (x : External) (late : Bool) (handled : List Text → Bool) (ctx_first : Bool) (n : ℕ)
    (s : Session)
    → (serve_round x late handled ctx_first s).1 ≡ go_on
    → rounds (suc n) x late handled ctx_first s
      ≡ rounds n x late handled ctx_first (serve_round x late handled ctx_first s).0
unfolding rounds continued
one_round x late handled ctx_first n s e =
    ap
      (λ v.
        continued ((serve_round x late handled ctx_first s).0, v)
          (rounds n x late handled ctx_first))
      e

-- A session that receives the bodies of request `id`, and has those of `q`.
pub record Receives (x : External) (handled : List Text → Bool) (id : ℕ) (left : Bytes)
    (q : List Bytes) (s : Session) : Type 0 where
  pub reached : Reach x handled s
  pub live : s.serve_err ≡ none
  pub request : Request
  pub found : active id s ≡ some request
  pub unfailed : request.source.failed ≡ none
  pub sound : IsSound request.source
  pub holds : Holds request.source.buf left q

gains-IsSound :
    (bs : ByteSource) (left b : Bytes) (q : List Bytes) (flag : ℕ) (g : Gains bs left q b flag)
    → bs.failed ≡ none
    → IsSound bs
    → IsSound g.after
unfolding is_failed
gains-IsSound bs left b q flag g f h = record {
  closed_failed = λ c. absurd (cc (unfailed_is (sym f) ∙ h.closed_failed (sym g.same_closed ∙ c)));
}
  where
    unfailed_is : none ≡ bs.failed → false ≡ is_failed bs
    unfailed_is e = ap (λ (o : Option Err). elim o [ none ↦ false | some x ↦ true ]) e

module _ (x : External) (late : Bool) (handled : List Text → Bool) (ctx_first : Bool) (id flag : ℕ)
    (left : Bytes) (no_end : Flag.get flag Flag.end_err ≡ false) (pos : 0 < id)
    (small : id < 2 ^ 32) where
  -- One round takes one body.
  body_received :
      (b more : Bytes) (fin : Err) (q : List Bytes) (s : Session)
      → Receives x handled id left q s
      → Fits b
      → length q + 1 < 2 ^ 32
      → s.packer.input ≡ input (encode (body_packet flag id b) ++ more) fin
      → let (s', v) = serve_round x late handled ctx_first s in
        (v ≡ go_on)
        × (s'.packer.input ≡ input more fin)
        × Receives x handled id left (q ++ (b ∷ [])) s'
  unfolding set_input set_request
  body_received b more fin q s r fits few here =
      let (m, same_id, n) = active-ids id s r.request (reach-Inv r.reached) r.found in
      let (g, served_as) =
        serve_round-body x late handled ctx_first flag id left q b more fin r.request s no_end pos
          small fits r.found (((reach-maps r.reached id).0 m).0) r.unfailed r.holds few r.live
          here in
      let q' : Request = record r.request { source = g.after } in
      let t = set_request q' (set_input (input more fin) s) in
      (
        ap (λ c. c.1) served_as,
        ap (λ c. c.0.packer.input) served_as,
        record {
          reached = served r.reached late ctx_first;
          live = ap (λ c. c.0.serve_err) served_as ∙ r.live;
          request = q';
          found =
              ap (λ c. active id c.0) served_as
              ∙ set_request-active id r.request q' (input more fin) s same_id r.found;
          unfailed = g.unfailed;
          sound = gains-IsSound r.request.source left b q flag g r.unfailed r.sound;
          holds = g.holds;
        },
      )

  -- What so many rounds lead to.
  abbrev Leads : ℕ → Bytes → Err → List Bytes → Session → Type 0
  Leads n more fin q s =
      (s' : Session) × (s'.packer.input ≡ input more fin)
      × Receives x handled id left q s'
      × ((k : ℕ) → rounds (n + k) x late handled ctx_first s ≡ rounds k x late handled ctx_first s')

  pub bodies_received :
      (bs : List Bytes) (more : Bytes) (fin : Err) (q : List Bytes) (s : Session)
      → Receives x handled id left q s
      → All Fits bs
      → length q + length bs < 2 ^ 32
      → s.packer.input ≡ input (encodes (map (body_packet flag id) bs) ++ more) fin
      → Leads (length bs) more fin (q ++ bs) s
  unfolding encodes
  bodies_received [] more fin q s r fits few here = (
    s,
    here,
    subst (λ l. Receives x handled id left l s) (sym (append-nil q)) r,
    λ k. let same : 0 + k ≡ k = omega arith in ap (λ n. rounds n x late handled ctx_first s) same,
  )
  bodies_received (b ∷ bs) more fin q s r fits few here =
      let rest = encodes (map (body_packet flag id) bs) ++ more in
      let (goes, left_over, r') = body_received b rest fin q s r fits.0 (omega arith) (
        here
        ∙ ap (λ l. input l fin)
            (append_assoc (encode (body_packet flag id b)) (encodes (map (body_packet flag id) bs))
              more)) in
      let (s', at, r'', go) =
        bodies_received bs more fin (q ++ (b ∷ [])) (serve_round x late handled ctx_first s).0 r'
          fits.1 (omega (arith, length-append q (b ∷ []))) left_over in
      (
        s',
        at,
        subst (λ l. Receives x handled id left l s') (append_assoc q (b ∷ []) bs) r'',
        λ k.
            let same : suc (length bs) + k ≡ suc (length bs + k) = omega arith in
            ap (λ n. rounds n x late handled ctx_first s) same
            ∙ one_round x late handled ctx_first (length bs + k) s goes
            ∙ go k,
      )
