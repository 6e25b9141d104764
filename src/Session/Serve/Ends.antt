-- ===== src/Session/Serve/Ends.antt =====
-- The loop of `serve` ends: each round that goes on takes a header off the connection.
use go_muxrpc.Base.{
  ℕ, zero, suc, ◌+◌, ◌≤◌, ◌<◌, ◌≡◌, refl, ◌≢◌, ap, Bool, true, false, Option, none, some, List,
  Text, length, length-drop, take, min, arith, Option-cases, inl, inr,
}
use go_muxrpc.Errors.{Err, Result, ok, err}
use go_muxrpc.External.{External}
use go_muxrpc.Codec.Stream.{Bytes, Input, copy_n, read_full}
use go_muxrpc.Codec.Packet.{Header, header_size}
use go_muxrpc.Codec.Reader.{read_body_into, read_header, check_header}
use go_muxrpc.Source.ByteSource.{ByteSource, consume}
use go_muxrpc.Source.Frames.{copy_body}
use go_muxrpc.Session.Packer.{Packer, next_header, selected}
use go_muxrpc.Session.State.{Session, Request, active, set_input}
use go_muxrpc.Session.Serve.{
  maybe_discard, Discard, keep, skip, broken, decode_body, parse_new_request, admit, fetch_request,
  Verdict, go_on, return, serve_end, serve_data, serve_packet, fetched, data_kept, end_body,
  end_unknown, stream_end, serve_header, serve_round, after_round, serve,
}
use go_muxrpc.Session.Serve.Framing.Parts.{
  conn, closed_by-conn, consumed-conn, admit-conn, admit-ne-found, fetched_fresh-conn,
}

abbrev size : Input → ℕ
size i = length i.bytes

copy_n-size : (n : ℕ) (i : Input) → size (copy_n n i).0 ≤ size i
unfolding copy_n
copy_n-size n i = omega (arith, length-drop n i.bytes)

discard-size : (h : Header) (s : Session) → size (conn (maybe_discard h s).0) ≤ size (conn s)
unfolding maybe_discard set_input
discard-size h s = ground (arith, copy_n-size h.len (conn s))

end_body-size :
    (x : External) (late : Bool) (r : Request) (t : Input × Bytes × Option Err) (s : Session)
    → size (conn (end_body x late r t s).0) ≡ size t.0
unfolding end_body set_input
end_body-size x late r (i, b, some e) s = refl
end_body-size x late r (i, b, none) s =
    ap size (closed_by-conn x late r (stream_end x b) (set_input i s))

end_unknown-size : (t : Session × Discard) → conn (end_unknown t).0 ≡ conn t.0
unfolding end_unknown
end_unknown-size (s, keep) = refl
end_unknown-size (s, skip) = refl
end_unknown-size (s, broken e) = refl

body_into-size : (n : ℕ) (i : Input) → size (read_body_into n i).0 ≤ size i
unfolding read_body_into
body_into-size n i = copy_n-size n i

serve_end-size :
    (x : External) (late : Bool) (h : Header) (s : Session)
    → size (conn (serve_end x late h s).0) ≤ size (conn s)
unfolding serve_end
serve_end-size x late h s = elim (Option-cases (active h.req s)) [
  | inl a ↦
      rw (a, serve_end)
        (omega (arith, ap size (end_unknown-size (maybe_discard h s)), discard-size h s))
  | inr (r, a) ↦
      rw (a, serve_end)
        (omega (
          arith,
          end_body-size x late r (read_body_into h.len (conn s)) s,
          body_into-size h.len (conn s),
        ))
]

consume-size : (n flag : ℕ) (i : Input) (bs : ByteSource) → size (consume n flag i bs).0 ≤ size i
unfolding consume copy_body
consume-size n flag i bs = ground (arith, copy_n-size n i)

decode_body-size : (x : External) (n : ℕ) (i : Input) → size (decode_body x n i).0 ≤ size i
unfolding decode_body
decode_body-size x n i =
    omega (
      arith,
      length-drop (min (x.decode_call (take n i.bytes)).0 (length (take n i.bytes))) i.bytes,
    )

parse-size :
    (x : External) (h : Header) (s : Session)
    → size (conn (parse_new_request x h s).0) ≤ size (conn s)
unfolding parse_new_request set_input
parse-size x h s = ground (arith, decode_body-size x h.len (conn s))

fetched-size :
    (x : External) (late : Bool) (handled : List Text → Bool) (h : Header) (s : Session)
    → size (conn (fetched x late h (fetch_request x handled h s)).0) ≤ size (conn s)
unfolding fetched fetch_request
fetched-size x late handled h s = elim (Option-cases (active h.req s)) [
  | inl a ↦
      rw (a, fetch_request)
        (omega (
          arith,
          ap size (
              fetched_fresh-conn x late h (admit x handled h (parse_new_request x h s))
                (admit-ne-found x handled h _)),
          ap size (admit-conn x handled h (parse_new_request x h s)),
          parse-size x h s,
        ))
  | inr (r, a) ↦
      rw (a, fetch_request)
        (omega (
          arith,
          ap size (consumed-conn x late r (consume h.len h.flag (conn s) r.source) s),
          consume-size h.len h.flag (conn s) r.source,
        ))
]

data_kept-size :
    (x : External) (late : Bool) (handled : List Text → Bool) (h : Header) (t : Session × Discard)
    → size (conn (data_kept x late handled h t).0) ≤ size (conn t.0)
unfolding data_kept
data_kept-size x late handled h (s, keep) = fetched-size x late handled h s
data_kept-size x late handled h (s, skip) = omega arith
data_kept-size x late handled h (s, broken e) = omega arith

serve_packet-size :
    (x : External) (late : Bool) (handled : List Text → Bool) (h : Header) (s : Session)
    → size (conn (serve_packet x late handled h s).0) ≤ size (conn s)
unfolding serve_packet serve_data
serve_packet-size x late handled h s = ground (
  arith,
  serve_end-size x late h s,
  data_kept-size x late handled h (maybe_discard h s),
  discard-size h s,
)

header-size :
    (i : Input) (h : Header)
    → (read_header i).1 ≡ ok h
    → size (read_header i).0 + header_size ≤ size i
unfolding read_header read_full check_header
header-size i h e = ground (arith, length-drop header_size i.bytes)

selected_ok :
    (c closing : Bool) (ctx : Option Err) (r : Result Header) (h : Header)
    → selected c closing ctx r ≡ ok h
    → (h' : Header) × (r ≡ ok h')
unfolding selected
selected_ok c closing ctx (ok h') h e = (h', refl)
selected_ok c true none (err x) h e = cc
selected_ok c false none (err x) h e = ground arith
selected_ok true true (some f) (err x) h e = cc
selected_ok true false (some f) (err x) h e = cc
selected_ok false true (some f) (err x) h e = cc
selected_ok false false (some f) (err x) h e = cc

next_header-size :
    (c : Bool) (ctx : Option Err) (p : Packer) (h : Header)
    → (next_header c ctx p).1 ≡ ok h
    → size (next_header c ctx p).0.input + header_size ≤ size p.input
unfolding next_header
next_header-size c ctx p h e =
    let (h', r) = selected_ok c p.closing ctx (read_header p.input).1 h e in
    header-size p.input h' r

serve_header-size :
    (x : External) (late : Bool) (handled : List Text → Bool) (t : Packer × Result Header)
    (s : Session) (n : ℕ)
    → ((h : Header) → t.1 ≡ ok h → size t.0.input + header_size ≤ n)
    → (serve_header x late handled t s).1 ≡ go_on
    → size (conn (serve_header x late handled t s).0) + header_size ≤ n
unfolding serve_header
serve_header-size x late handled (p, err e) s n h q = cc
serve_header-size x late handled (p, ok h) s n less q =
    omega (arith, serve_packet-size x late handled h (record s { packer = p }), less h refl)

serve_round-size :
    (x : External) (late : Bool) (handled : List Text → Bool) (c : Bool) (s : Session)
    → (serve_round x late handled c s).1 ≡ go_on
    → size (conn (serve_round x late handled c s).0) + header_size ≤ size (conn s)
unfolding serve_round
serve_round-size x late handled c s q =
    serve_header-size x late handled (next_header c s.serve_err s.packer) s (size (conn s))
      (next_header-size c s.serve_err s.packer) q

after_round-ne-none :
    (x : External) (late : Bool) (t : Session × Verdict)
    (next : Session → Option (Session × Option Err))
    → (t.1 ≡ go_on → next t.0 ≢ none)
    → after_round x late t next ≢ none
unfolding after_round
after_round-ne-none x late (s, return e) next h = λ q. cc
after_round-ne-none x late (s, go_on) next h = h refl

-- With a round for each byte of the connection and one more, `serve` returns, whatever the connection
-- delivers.
pub serve-ne-none :
    (n : ℕ) (x : External) (late : Bool) (handled : List Text → Bool) (c : Bool) (s : Session)
    → length s.packer.input.bytes < n
    → serve n x late handled c s ≢ none
unfolding serve
serve-ne-none zero x late handled c s h = elim h [ ]
serve-ne-none (suc n) x late handled c s h =
    after_round-ne-none x late (serve_round x late handled c s) (serve n x late handled c) λ q.
      serve-ne-none n x late handled c (serve_round x late handled c s).0
        (omega (arith, serve_round-size x late handled c s q))
