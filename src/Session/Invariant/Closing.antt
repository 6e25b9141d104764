-- ===== src/Session/Invariant/Closing.antt =====
-- How a request ends, and what becomes of the packets that still come for it.
use go_muxrpc.Base.{
  ℕ, ◌^◌, ◌<◌, ◌≡◌, ◌≢◌, refl, sym, ap, ◌∙◌, inl, inr, Bool, true, Option, none, some, List, [],
  ◌∷◌, ◌++◌, Text, length, ◌==◌, ==_refl, arith, Bool-cases, Option-cases,
}
use go_muxrpc.Base.Assoc.{member, lookup, insert, member-add, member-remove, lookup-insert}
use go_muxrpc.Errors.{Err, CallError, sentinel, eof, call_error, ok}
use go_muxrpc.External.{External}
use go_muxrpc.Codec.Stream.{Bytes, Input, Output}
use go_muxrpc.Codec.Packet.{Header}
use go_muxrpc.Codec.Reader.{read_body_into}
use go_muxrpc.Codec.RoundTrip.Packets.{input}
use go_muxrpc.Codec.Flag
use go_muxrpc.Source.ByteSource.{ByteSource, is_failed, or_eof}
use go_muxrpc.Source.ByteSource.Life.{IsSound, cancel-some}
use go_muxrpc.Session.State.{
  Session, Request, active, abort, end_context, cancel_source, end_request, close_stream, retire,
  set_input, set_output, set_request,
}
use go_muxrpc.Session.Serve.{
  go_on, skip, maybe_discard, ends, is_true, parsed_error, stream_end, closed_by, end_body,
  end_unknown, serve_end, serve_data, data_kept, serve_packet,
}
use go_muxrpc.Session.Serve.Framing.Parts.{discard-conn, read_body_into-append}
use go_muxrpc.Session.Invariant.Steps.{active-ids, abort-ids, end_request-ids}
use go_muxrpc.Session.Invariant.Reach.{Reach, reach-Inv}

-- What `Cancel` leaves as the error of a source: the first one, or the new one, or io.EOF for nil.
abbrev pub ended_with : Option Err → Option Err → Option Err
ended_with (some f) e = some f
ended_with none e = some (or_eof e)

cancel_source-failed :
    (e : Option Err) (bs : ByteSource)
    → IsSound bs
    → (cancel_source e bs).failed ≡ ended_with bs.failed e
unfolding cancel_source is_failed
cancel_source-failed e bs h = elim (Option-cases bs.failed) [
  | inl f ↦ rw (cancel-some e bs h, f, cancel_source) refl
  | inr (g, f) ↦ rw (cancel-some e bs h, f, cancel_source) refl
]

cancel_source-buf :
    (e : Option Err) (bs : ByteSource) → IsSound bs → (cancel_source e bs).buf ≡ bs.buf
unfolding cancel_source is_failed
cancel_source-buf e bs h = elim (Option-cases bs.failed) [
  | inl f ↦ rw (cancel-some e bs h, f, cancel_source) refl
  | inr (g, f) ↦ rw (cancel-some e bs h, f, cancel_source) refl
]

abort-buf : (r : Request) → (abort r).source.buf ≡ r.source.buf
unfolding abort end_context
abort-buf r = elim (Bool-cases r.abortable) [ inl m ↦ rw m refl | inr m ↦ rw m refl ]

ended_buf :
    (x : External) (late : Bool) (r : Request) (e : Option Err) (o : Output)
    → IsSound r.source
    → (end_request x late e r o).0.source.buf ≡ r.source.buf
unfolding end_request
ended_buf x late r e o h = cancel_source-buf e r.source h

abort-source : (r : Request) → (abort r).source.failed ≡ r.source.failed
unfolding abort end_context
abort-source r = elim (Bool-cases r.abortable) [ inl m ↦ rw m refl | inr m ↦ rw m refl ]

pub record IsClosed (r : Request) (e : Option Err) (i : Input) (t : Session) : Type 0 where
  pub conn : t.packer.input ≡ i
  pub inactive : active r.id t ≡ none
  pub ignored : member r.id t.reqs_closed ≡ true
  pub last :
      (q : Request) × (lookup r.id t.store ≡ some q)
      × (q.source.failed ≡ ended_with r.source.failed e)
      × (q.source.buf ≡ r.source.buf)

found_again :
    (k : ℕ) (q : Request) (m : List (ℕ × Request)) → q.id ≡ k → lookup k (insert q.id q m) ≡ some q
found_again k q m same =
    let hit : (q.id == k) ≡ true = ground (arith, same) in lookup-insert q.id k q m ∙ rw hit refl

ended_source :
    (x : External) (late : Bool) (r : Request) (e : Option Err) (o : Output)
    → IsSound r.source
    → (end_request x late e r o).0.source.failed ≡ ended_with r.source.failed e
unfolding end_request
ended_source x late r e o h = cancel_source-failed e r.source h

retired :
    (x : External) (late : Bool) (r : Request) (e : Option Err) (s : Session)
    → let t = close_stream x late r e s in
      (active r.id t ≡ none)
      × (member r.id t.reqs_closed ≡ true)
      × (t.packer.input ≡ s.packer.input)
unfolding close_stream retire set_request set_output active
retired x late r e s = (
  rw (member-remove r.id r.id s.reqs, ==_refl r.id) refl,
  rw (member-add r.id r.id s.reqs_closed, ==_refl r.id) refl,
  refl,
)

pub close_stream-IsClosed :
    (x : External) (late : Bool) (r : Request) (e : Option Err) (s : Session)
    → IsSound r.source
    → IsClosed r e s.packer.input (close_stream x late r e s)
unfolding close_stream retire set_request set_output active
close_stream-IsClosed x late r e s h = record {
  conn = (retired x late r e s).2;
  inactive = (retired x late r e s).0;
  ignored = (retired x late r e s).1;
  last =
      let q = (end_request x late e r s.packer.output).0 in
      (
        abort q,
        found_again r.id (abort q) s.store
            ((abort-ids q).0 ∙ (end_request-ids x late e r s.packer.output).0),
        abort-source q ∙ ended_source x late r e s.packer.output h,
        abort-buf q ∙ ended_buf x late r e s.packer.output h,
      );
}

pub serve_end-ends :
    (x : External) (late : Bool) (h : Header) (s : Session) (r : Request) (b rest : Bytes)
    (fin : Err) (e : Option Err)
    → active h.req s ≡ some r
    → s.packer.input ≡ input (b ++ rest) fin
    → h.len ≡ length b
    → length b < 2 ^ 32
    → stream_end x b ≡ ends e
    → serve_end x late h s ≡ (close_stream x late r e (set_input (input rest fin) s), go_on)
unfolding end_body closed_by serve_end
serve_end-ends x late h s r b rest fin e a here len lt f =
    known
    ∙ ap (λ t. end_body x late r t s)
        (ap (λ n. read_body_into n s.packer.input) len
          ∙ ap (read_body_into (length b)) here
          ∙ read_body_into-append b rest fin lt)
    ∙ ap (λ t. closed_by x late r t (set_input (input rest fin) s)) f
  where
    known : serve_end x late h s ≡ end_body x late r (read_body_into h.len s.packer.input) s
    known = rw (a, serve_end) refl

-- An end packet closes its request with the error that its body is read as.
end_closes :
    {x : External} {handled : List Text → Bool} (late : Bool) (h : Header) (s : Session)
    (r : Request) (b rest : Bytes) (fin : Err) (e : Option Err)
    → Reach x handled s
    → Flag.get h.flag Flag.end_err ≡ true
    → active h.req s ≡ some r
    → IsSound r.source
    → s.packer.input ≡ input (b ++ rest) fin
    → h.len ≡ length b
    → length b < 2 ^ 32
    → stream_end x b ≡ ends e
    → let (t, v) = serve_packet x late handled h s in
      (v ≡ go_on)
      × (t.packer.input ≡ input rest fin)
      × (active h.req t ≡ none)
      × (member h.req t.reqs_closed ≡ true)
      × (q : Request) × (lookup h.req t.store ≡ some q)
      × (q.source.failed ≡ ended_with r.source.failed e)
unfolding serve_packet set_input
end_closes {x} {handled} late h s r b rest fin e reached flag a sound here len lt f =
    let (m, i, n) = active-ids h.req s r (reach-Inv reached) a in
    let done : IsClosed r e (input rest fin)
        (close_stream x late r e (set_input (input rest fin) s)) =
      close_stream-IsClosed x late r e (set_input (input rest fin) s) sound in
    rw (flag, serve_end-ends x late h s r b rest fin e a here len lt f)
      (
        refl,
        done.conn,
        ap (λ k. active k closed) (sym i) ∙ done.inactive,
        ap (λ k. member k closed.reqs_closed) (sym i) ∙ done.ignored,
        done.last.0,
        ap (λ k. lookup k closed.store) (sym i) ∙ done.last.1,
        done.last.2,
      )
  where
    closed : Session
    closed = close_stream x late r e (set_input (input rest fin) s)

-- What the body of an end packet says: `true` is a regular end, which readers see as io.EOF, and anything
-- else is an error in JSON.
pub data EndOf (x : External) : Bytes → Err → Type 0 where
  regular : EndOf x (b't' ∷ b'r' ∷ b'u' ∷ b'e' ∷ []) (sentinel eof)
  failing :
      (b : Bytes) (c : CallError)
      → b ≢ (b't' ∷ b'r' ∷ b'u' ∷ b'e' ∷ [])
      → x.unmarshal_call_error b ≡ ok c
      → EndOf x b (call_error c)

-- The error of a source is its first one.
abbrev pub first_of : Option Err → Err → Err
first_of none f = f
first_of (some g) f = g

is_true_word : (b : Bytes) → is_true b ≡ true → b ≡ (b't' ∷ b'r' ∷ b'u' ∷ b'e' ∷ [])
unfolding is_true
is_true_word (a ∷ b ∷ c ∷ d ∷ []) h = ground (arith, h)
is_true_word [] h = absurd (cc h)
is_true_word (a ∷ []) h = absurd (cc h)
is_true_word (a ∷ b ∷ []) h = absurd (cc h)
is_true_word (a ∷ b ∷ c ∷ []) h = absurd (cc h)
is_true_word (a ∷ b ∷ c ∷ d ∷ e ∷ l) h = absurd (cc h)

end-ends :
    (x : External) (b : Bytes) (f : Err)
    → EndOf x b f
    → (e : Option Err) × (stream_end x b ≡ ends e) × (or_eof e ≡ f)
unfolding stream_end is_true parsed_error
end-ends x _ _ regular = (none, refl, refl)
end-ends x _ _ (failing b c other parsed) = elim (Bool-cases (is_true b)) [
  | inl t ↦ absurd (other (is_true_word b t))
  | inr t ↦ (some (call_error c), rw (t, parsed) refl, refl)
]

pub kept : (o e : Option Err) (f : Err) → or_eof e ≡ f → ended_with o e ≡ some (first_of o f)
kept none e f h = ap (λ g. some g) h
kept (some g) e f h = refl

-- In a session that is reached from a new one, an end packet for an active request whose source is sound
-- takes its own bytes off the connection and closes the request, where its body is `true` or JSON decodes
-- the body as an error: the request leaves the map for that of the closed ones, and its source has failed.
-- The error of the source is io.EOF for `true`, and the decoded CallError for an error, unless it had
-- failed before, whose error it keeps.
pub serve_packet-end :
    {x : External} {handled : List Text → Bool} (late : Bool) (h : Header) (s : Session)
    (r : Request) (b rest : Bytes) (fin f : Err)
    → Reach x handled s
    → Flag.get h.flag Flag.end_err ≡ true
    → active h.req s ≡ some r
    → IsSound r.source
    → s.packer.input ≡ input (b ++ rest) fin
    → h.len ≡ length b
    → length b < 2 ^ 32
    → EndOf x b f
    → let (t, v) = serve_packet x late handled h s in
      (v ≡ go_on)
      × (t.packer.input ≡ input rest fin)
      × (active h.req t ≡ none)
      × (member h.req t.reqs_closed ≡ true)
      × (q : Request) × (lookup h.req t.store ≡ some q)
      × (q.source.failed ≡ some (first_of r.source.failed f))
serve_packet-end {x} {handled} late h s r b rest fin f reached flag a sound here len lt says =
    let (e, as_end, error) = end-ends x b f says in
    let (v, conn, gone, closed, q, stored, failed) =
      end_closes {x = x} {handled = handled} late h s r b rest fin e reached flag a sound here len
        lt as_end in
    (v, conn, gone, closed, q, stored, failed ∙ kept r.source.failed e f error)

ignored_packet :
    (x : External) (late : Bool) (handled : List Text → Bool) (h : Header) (t : Session)
    (b rest : Bytes) (fin : Err)
    → active h.req t ≡ none
    → member h.req t.reqs_closed ≡ true
    → t.packer.input ≡ input (b ++ rest) fin
    → h.len ≡ length b
    → serve_packet x late handled h t ≡ (set_input (input rest fin) t, go_on)
unfolding serve_packet serve_data data_kept end_unknown serve_end
ignored_packet x late handled h t b rest fin a m here len =
    elim (Bool-cases (Flag.get h.flag Flag.end_err)) [
      | inl flag ↦ rw flag (unknown ∙ ap end_unknown skipped)
      | inr flag ↦ rw flag (ap (data_kept x late handled h) skipped)
    ]
  where
    skipped : maybe_discard h t ≡ (set_input (input rest fin) t, skip)
    skipped = discard-conn h t b rest fin here len ∙ rw m refl

    unknown : serve_end x late h t ≡ end_unknown (maybe_discard h t)
    unknown = rw (a, serve_end) refl

-- Whatever comes for a request after it was closed, data or a further end packet, is taken off the
-- connection and changes nothing else, on either side of the call.
pub serve_packet-closed :
    (x : External) (late : Bool) (handled : List Text → Bool) (h : Header) (s : Session)
    (r : Request) (e : Option Err) (b rest : Bytes) (fin : Err)
    → h.req ≡ r.id
    → s.packer.input ≡ input (b ++ rest) fin
    → h.len ≡ length b
    → let t = close_stream x late r e s in
      serve_packet x late handled h t ≡ (set_input (input rest fin) t, go_on)
serve_packet-closed x late handled h s r e b rest fin same here len =
    ignored_packet x late handled h (close_stream x late r e s) b rest fin
      (ap (λ k. active k (close_stream x late r e s)) same ∙ (retired x late r e s).0)
      (ap (λ k. member k (close_stream x late r e s).reqs_closed) same ∙ (retired x late r e s).1)
      ((retired x late r e s).2 ∙ here) len
