-- ===== src/Session/Wire/Take.antt =====
-- The steps that a call takes to the other side, one by one.
use go_muxrpc.Base.{
  ℕ, ◌-◌, ◌^◌, ◌≤◌, ◌<◌, ◌≡◌, refl, ap, ◌∙◌, Bool, true, false, Option, none, some, List, ◌++◌,
  Text, length, drop, take-append, drop-append, min, ltb_of_le, ==_refl, arith,
}
use go_muxrpc.Base.Assoc.{member, member-add}
use go_muxrpc.Errors.{Err, Result, ok, CallType, async, sync, source, sink, duplex, other}
use go_muxrpc.External.{External, Call}
use go_muxrpc.Codec.Stream.{Bytes, Input}
use go_muxrpc.Codec.Packet.{Packet, Header, IsWord, encode, header_bytes, is_goodbye}
use go_muxrpc.Codec.Reader.{read_header}
use go_muxrpc.Codec.Writer.{max_buffer_size}
use go_muxrpc.Codec.RoundTrip.Steps.{read_header-header_bytes}
use go_muxrpc.Codec.RoundTrip.Packets.{input}
use go_muxrpc.Codec.RoundTrip.Sessions.{write_packet-encode}
use go_muxrpc.Codec.Flag
use go_muxrpc.Session.Packer.{Packer, next_header, selected, neg32}
use go_muxrpc.Session.State.{Session, Request, active, set_request, set_input, set_output}
use go_muxrpc.Session.Client.{start, register, next_id, send_first, wire_call, type_flags}
use go_muxrpc.Session.Serve.{
  go_on, maybe_discard, keep, fresh, incoming, typed_request, decoded_request, decode_body,
  parse_new_request, accept, admit, fetch_request, fetched, data_kept, serve_data, serve_packet,
  is_stream_type,
}

-- The types of the calls that the client makes.
unfoldable pub is_call_type : CallType → Bool
is_call_type async = true
is_call_type source = true
is_call_type sink = true
is_call_type duplex = true
is_call_type _ = false

abbrev pub call_packet : Request → ℕ → Bytes → Packet
call_packet r id body = record {
  flag = Flag.set (Flag.set 0 Flag.json) (type_flags r.call_type);
  req = id;
  body = body;
}

pub record HasFlags (f : ℕ) (t : CallType) : Type 0 where
  pub no_end : Flag.get f Flag.end_err ≡ false
  pub is_json : Flag.get f Flag.json ≡ true
  pub on_stream : Flag.get f Flag.stream ≡ is_stream_type t

pub call-HasFlags :
    (t : CallType)
    → is_call_type t ≡ true
    → HasFlags (Flag.set (Flag.set 0 Flag.json) (type_flags t)) t
unfolding Flag.get Flag.set type_flags is_call_type
call-HasFlags async e = record { no_end = refl; is_json = refl; on_stream = refl }
call-HasFlags source e = record { no_end = refl; is_json = refl; on_stream = refl }
call-HasFlags sink e = record { no_end = refl; is_json = refl; on_stream = refl }
call-HasFlags duplex e = record { no_end = refl; is_json = refl; on_stream = refl }
call-HasFlags sync e = absurd (cc e)
call-HasFlags (other n) e = absurd (cc e)

typed-call :
    (h : Header) (ctx : Option Err) (n : List Text) (a : Bytes) (t : CallType)
    → is_call_type t ≡ true
    → Flag.get h.flag Flag.stream ≡ is_stream_type t
    → let c : Call = record { name = n; args = a; type = t } in
      typed_request h ctx c ≡ ok (incoming h c t ctx)
unfolding typed_request is_call_type
typed-call h ctx n a async e s = rw s refl
typed-call h ctx n a source e s = rw s refl
typed-call h ctx n a sink e s = rw s refl
typed-call h ctx n a duplex e s = rw s refl
typed-call h ctx n a sync e s = absurd (cc e)
typed-call h ctx n a (other m) e s = absurd (cc e)

decode_body-call :
    (x : External) (body more : Bytes) (fin : Err) (c : Call)
    → x.decode_call body ≡ (length body, ok c)
    → decode_body x (length body) (input (body ++ more) fin) ≡ (input more fin, ok c)
unfolding decode_body
decode_body-call x body more fin c d =
    ap
      (λ b. let (k, r) = x.decode_call b in (input (drop (min k (length b)) (body ++ more)) fin, r))
      (take-append body more)
    ∙ ap (λ q. (input (drop (min q.0 (length body)) (body ++ more)) fin, q.1)) d
    ∙ ap (λ n. (input (drop n (body ++ more)) fin, ok c)) whole
    ∙ ap (λ b. (input b fin, ok c)) (drop-append body more)
  where
    whole : min (length body) (length body) ≡ length body
    whole = omega arith

-- The first packet of a call, at the other side.
pub record IsCall (x : External) (h : Header) (c : Call) (body : Bytes) : Type 0 where
  pub call_type : is_call_type c.type ≡ true
  pub flags : HasFlags h.flag c.type
  pub remote : 2 ^ 31 ≤ h.req
  pub size : h.len ≡ length body
  pub decodes : x.decode_call body ≡ (length body, ok c)

parse-call :
    (x : External) (h : Header) (c : Call) (body more : Bytes) (fin : Err) (t : Session)
    → IsCall x h c body
    → t.packer.input ≡ input (body ++ more) fin
    → parse_new_request x h t ≡ (set_input (input more fin) t, ok (incoming h c c.type t.serve_err))
unfolding parse_new_request decoded_request
parse-call x h c body more fin t k i =
    rw (ltb_of_le (2 ^ 31) h.req k.remote, k.flags.is_json)
      (ap (λ d. (set_input d.0 t, decoded_request h t.serve_err d.1)) body_read
        ∙ ap (λ q. (set_input (input more fin) t, q))
            (typed-call h t.serve_err c.name c.args c.type k.call_type k.flags.on_stream))
  where
    body_read : decode_body x h.len t.packer.input ≡ (input more fin, ok c)
    body_read =
        ap (λ n. decode_body x n t.packer.input) k.size
        ∙ ap (decode_body x (length body)) i
        ∙ decode_body-call x body more fin c k.decodes

pub keep-unmet :
    (h : Header) (t : Session) → member h.req t.reqs_closed ≡ false → maybe_discard h t ≡ (t, keep)
unfolding maybe_discard
keep-unmet h t m = rw m refl

admit-handled :
    (x : External) (handled : List Text → Bool) (h : Header) (c : Call) (ctx : Option Err)
    (s : Session)
    → handled c.name ≡ true
    → admit x handled h (s, ok (incoming h c c.type ctx))
      ≡ (accept (incoming h c c.type ctx) s, fresh)
unfolding admit incoming
admit-handled x handled h c ctx s m = rw m refl

fetch-unknown :
    (x : External) (handled : List Text → Bool) (h : Header) (t : Session)
    → active h.req t ≡ none
    → fetch_request x handled h t ≡ admit x handled h (parse_new_request x h t)
unfolding fetch_request
fetch-unknown x handled h t a = rw (a, fetch_request) refl

-- The packet becomes a request, whose handler is started.
pub serve_packet-call :
    (x : External) (late : Bool) (handled : List Text → Bool) (h : Header) (c : Call)
    (body more : Bytes) (fin : Err) (t : Session)
    → IsCall x h c body
    → t.packer.input ≡ input (body ++ more) fin
    → active h.req t ≡ none
    → member h.req t.reqs_closed ≡ false
    → handled c.name ≡ true
    → serve_packet x late handled h t
      ≡ (accept (incoming h c c.type t.serve_err) (set_input (input more fin) t), go_on)
unfolding serve_packet serve_data data_kept fetched
serve_packet-call x late handled h c body more fin t k i a n hm = rw k.flags.no_end (
    ap (data_kept x late handled h) (keep-unmet h t n)
    ∙ ap (fetched x late h) (
        fetch-unknown x handled h t a
        ∙ ap (admit x handled h) (parse-call x h c body more fin t k i)
        ∙ admit-handled x handled h c t.serve_err (set_input (input more fin) t) hm))

-- The id of a call, and how the other side names it.
pub neg32-remote : (n : ℕ) → 0 < n → n < 2 ^ 31 → (neg32 n ≡ 2 ^ 32 - n) × (2 ^ 31 ≤ neg32 n)
unfolding neg32
neg32-remote n pos small = (omega arith, omega arith)

selected-ok :
    (ctx_first closing : Bool) (h : Header)
    → selected ctx_first closing none (ok h) ≡ ok (record h { req = neg32 h.req })
unfolding selected
selected-ok ctx_first true h = refl
selected-ok ctx_first false h = refl

pub next_header-call :
    (h : Header) (rest : Bytes) (fin : Err) (ctx_first : Bool) (p : Packer)
    → IsWord h.len
    → IsWord h.req
    → is_goodbye h ≡ false
    → p.input ≡ input (header_bytes h ++ rest) fin
    → next_header ctx_first none p
      ≡ (record p { input = input rest fin }, ok (record h { req = neg32 h.req }))
unfolding next_header
next_header-call h rest fin ctx_first p hl hr g i =
    ap
      (λ (q : Input × Result Header).
        (record p { input = q.0 }, selected ctx_first p.closing none q.1))
      (ap read_header i ∙ read_header-header_bytes h rest fin hl hr g)
    ∙ ap (λ q. (record p { input = input rest fin }, q)) (selected-ok ctx_first p.closing h)

send_first-ok :
    (body : Bytes) (id : ℕ) (ty : CallType) (s : Session) (p : Result Bytes)
    → p ≡ ok body
    → length body ≤ max_buffer_size
    → s.packer.output.room ≡ none
    → let q : Packet = record {
      flag = Flag.set (Flag.set 0 Flag.json) (type_flags ty);
      req = id;
      body = body;
    } in
      let (s', e) = send_first p id ty s in
      (s'.packer.output.sent ≡ s.packer.output.sent ++ encode q) × (e ≡ none)
unfolding send_first set_output
send_first-ok body id ty s p m fits room =
    rw
      (
        m,
        write_packet-encode
            (record {
              flag = Flag.set (Flag.set 0 Flag.json) (type_flags ty);
              req = id;
              body = body;
            })
            s.packer.output fits room,
      )
      (refl, refl)

pub start-sends :
    (x : External) (r : Request) (s : Session) (body : Bytes)
    → x.marshal_call (wire_call r) ≡ ok body
    → length body ≤ max_buffer_size
    → s.packer.output.room ≡ none
    → let (s', e) = start x r s in
      (s'.packer.output.sent ≡ s.packer.output.sent ++ encode (call_packet r (next_id s) body))
      × (e ≡ none)
unfolding start register
start-sends x r s body m fits room =
    send_first-ok body (next_id s) r.call_type (register r s) (x.marshal_call (wire_call r)) m fits
      room

pub accept-active : (r : Request) (s : Session) → active r.id (accept r s) ≡ some r
unfolding active accept set_request
accept-active r s = rw (member-add r.id r.id s.reqs, ==_refl r.id) refl

pub call-not_goodbye :
    (t : CallType) (len id : ℕ)
    → is_call_type t ≡ true
    → is_goodbye
        (record { flag = Flag.set (Flag.set 0 Flag.json) (type_flags t); len = len; req = id })
      ≡ false
unfolding is_goodbye Flag.set type_flags is_call_type
call-not_goodbye async len id e = refl
call-not_goodbye source len id e = refl
call-not_goodbye sink len id e = refl
call-not_goodbye duplex len id e = refl
call-not_goodbye sync len id e = absurd (cc e)
call-not_goodbye (other n) len id e = absurd (cc e)
