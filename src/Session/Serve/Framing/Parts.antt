-- ===== src/Session/Serve/Framing/Parts.antt =====
-- Where the parts of a round leave the connection.
use go_muxrpc.Base.{
  ◌^◌, ◌≤◌, ◌<◌, ◌≡◌, refl, ◌≢◌, ◌⊎◌, inl, inr, Bool, true, false, Option, none, some, List, ◌++◌,
  Text, length, take-append, drop-append, min, ltb, arith, if◌then◌else◌, text, Bool-cases,
}
use go_muxrpc.Base.Assoc.{member}
use go_muxrpc.Errors.{Err, Result, ok, err, new, no_such_method}
use go_muxrpc.External.{External}
use go_muxrpc.Codec.Stream.{Bytes, Input, Output}
use go_muxrpc.Codec.Packet.{Packet, Header}
use go_muxrpc.Codec.Reader.{read_body_into}
use go_muxrpc.Codec.Flag
use go_muxrpc.Codec.RoundTrip.Packets.{input}
use go_muxrpc.Source.Frames.Queue.{copy_n-append}
use go_muxrpc.Source.Frames.{FrameBuffer, copy_body}
use go_muxrpc.Codec.Writer.{write_packet}
use go_muxrpc.Packets.{new_end_err_packet}
use go_muxrpc.Source.ByteSource.{ByteSource, consume, is_failed}
use go_muxrpc.Session.State.{
  Session, Request, active, close_stream, set_input, set_output, set_request,
}
use go_muxrpc.Session.Serve.{
  maybe_discard, keep, skip, decode_body, parse_new_request, admit, accept, Fetched, found, fresh,
  failed, go_on, serve_end, fetched, consumed, closed_by, stream_end, StreamEnd, ends, bad, refuse,
  refused,
}

abbrev pub conn : Session → Input
conn s = s.packer.input

-- The parts that do not touch the input.
close_stream-conn :
    (x : External) (late : Bool) (r : Request) (e : Option Err) (s : Session)
    → conn (close_stream x late r e s) ≡ conn s
unfolding close_stream
close_stream-conn x late r e s = refl

refused-conn :
    (h : Header) (s : Session) (t : Output × Option Err) → conn (refused h s t).0 ≡ conn s
unfolding refused set_output
refused-conn h s (o, none) = refl
refused-conn h s (o, some e) = refl

refuse-conn : (h : Header) (r : Result Packet) (s : Session) → conn (refuse h r s).0 ≡ conn s
unfolding refuse
refuse-conn h (err e) s = refl
refuse-conn h (ok p) s = refused-conn h s (write_packet p s.packer.output)

pub discard-conn :
    (h : Header) (s : Session) (b rest : Bytes) (fin : Err)
    → conn s ≡ input (b ++ rest) fin
    → h.len ≡ length b
    → maybe_discard h s
      ≡ (if member h.req s.reqs_closed then (set_input (input rest fin) s, skip) else (s, keep))
unfolding maybe_discard
discard-conn h s b rest fin here len = rw (here, len, copy_n-append b rest fin)

pub read_body_into-append :
    (b rest : Bytes) (fin : Err)
    → length b < 2 ^ 32
    → read_body_into (length b) (input (b ++ rest) fin) ≡ (input rest fin, b, none)
unfolding read_body_into
read_body_into-append b rest fin lt = rw (copy_n-append b rest fin) (ground arith)

pub closed_by-conn :
    (x : External) (late : Bool) (r : Request) (e : StreamEnd) (s : Session)
    → conn (closed_by x late r e s).0 ≡ conn s
unfolding closed_by close_stream
closed_by-conn x late r (ends e) s = refl
closed_by-conn x late r (bad e) s = refl

pub end_active-conn :
    (x : External) (late : Bool) (h : Header) (s : Session) (b rest : Bytes) (fin : Err)
    (r : Request)
    → active h.req s ≡ some r
    → conn s ≡ input (b ++ rest) fin
    → h.len ≡ length b
    → length b < 2 ^ 32
    → conn (serve_end x late h s).0 ≡ input rest fin
unfolding serve_end set_input
end_active-conn x late h s b rest fin r a here len lt =
    rw (a, serve_end, here, len, read_body_into-append b rest fin lt)
      (closed_by-conn x late r (stream_end x b) (set_input (input rest fin) s))

pub end_unknown-conn :
    (x : External) (late : Bool) (h : Header) (s : Session) (b rest : Bytes) (fin : Err)
    → active h.req s ≡ none
    → conn s ≡ input (b ++ rest) fin
    → h.len ≡ length b
    → conn (serve_end x late h s).0
      ≡ (if member h.req s.reqs_closed then input rest fin else input (b ++ rest) fin)
unfolding serve_end set_input
end_unknown-conn x late h s b rest fin a here len =
    rw (a, serve_end, discard-conn h s b rest fin here len) (ground arith)

pub consumed-conn :
    (x : External) (late : Bool) (r : Request) (t : Input × ByteSource × Option Err) (s : Session)
    → conn (consumed x late r t s).0 ≡ t.0
unfolding consumed close_stream set_input set_request
consumed-conn x late r (i, bs, none) s = refl
consumed-conn x late r (i, bs, some e) s = refl

abbrev pub is_none : Option Request → Bool
is_none none = true
is_none (some r) = false

abbrev pub failed_source : Option Request → Bool
failed_source none = false
failed_source (some r) = is_failed r.source

copy_body-conn :
    (b rest : Bytes) (fin : Err) (fb : FrameBuffer)
    → (copy_body (length b) (input (b ++ rest) fin) fb).0 ≡ input rest fin
unfolding copy_body
copy_body-conn b rest fin fb = rw (copy_n-append b rest fin)

pub consume-conn :
    (h : Header) (bs : ByteSource) (b rest : Bytes) (fin : Err)
    → h.len ≡ length b
    → (consume h.len h.flag (input (b ++ rest) fin) bs).0
      ≡ (if is_failed bs then input (b ++ rest) fin else input rest fin)
unfolding consume is_failed
consume-conn h bs b rest fin len = rw len (ground (arith, copy_body-conn b rest fin bs.buf))

pub admit-conn :
    (x : External) (handled : List Text → Bool) (h : Header) (t : Session × Result Request)
    → conn (admit x handled h t).0 ≡ conn t.0
unfolding admit accept set_request set_output
admit-conn x handled h (s, err e) = refl
admit-conn x handled h (s, ok r) = ground (
  arith,
  refuse-conn h (new_end_err_packet x h.req (Flag.get h.flag Flag.stream) (no_such_method r.method))
      s,
)

decode_body-conn :
    (x : External) (b rest : Bytes) (fin : Err)
    → length b ≤ (x.decode_call b).0
    → (decode_body x (length b) (input (b ++ rest) fin)).0 ≡ input rest fin
unfolding decode_body
decode_body-conn x b rest fin all = rw (take-append b rest, reads) (rw (drop-append b rest))
  where
    reads : min (x.decode_call b).0 (length b) ≡ length b
    reads = omega arith

-- A new request is taken whole if it is not an error.
pub parse-conn :
    (x : External) (h : Header) (s : Session) (b rest : Bytes) (fin : Err)
    → conn s ≡ input (b ++ rest) fin
    → h.len ≡ length b
    → length b ≤ (x.decode_call b).0
    → ((e : Err) × ((parse_new_request x h s).1 ≡ err e))
      ⊎ (conn (parse_new_request x h s).0 ≡ input rest fin)
unfolding parse_new_request set_input
parse-conn x h s b rest fin here len all = elim (Bool-cases (ltb h.req (2 ^ 31))) [
  | inl local ↦ inl (new (text "new request: expected negative request id"), rw local)
  | inr remote ↦ elim (Bool-cases (Flag.get h.flag Flag.json)) [
    | inl json ↦ inr (rw (remote, json, here, len, decode_body-conn x b rest fin all))
    | inr other ↦
        inl (new (text "new request: expected JSON flag for new call"), rw (remote, other))
  ]
]

pub admit_err :
    (x : External) (handled : List Text → Bool) (h : Header) (t : Session × Result Request)
    (e : Err)
    → t.1 ≡ err e
    → (admit x handled h t).1 ≡ failed e
unfolding admit
admit_err x handled h (s, err f) e q = cc
admit_err x handled h (s, ok r) e q = cc

pub fetched_failed :
    (x : External) (late : Bool) (h : Header) (t : Session × Fetched) (e : Err)
    → t.1 ≡ failed e
    → (fetched x late h t).1 ≢ go_on
unfolding fetched
fetched_failed x late h (s, failed f) e q = λ p. cc
fetched_failed x late h (s, fresh) e q = λ p. cc
fetched_failed x late h (s, found r) e q = λ p. cc

pub fetched_fresh-conn :
    (x : External) (late : Bool) (h : Header) (t : Session × Fetched)
    → ((r : Request) → t.1 ≢ found r)
    → conn (fetched x late h t).0 ≡ conn t.0
unfolding fetched
fetched_fresh-conn x late h (s, failed f) n = refl
fetched_fresh-conn x late h (s, fresh) n = refl
fetched_fresh-conn x late h (s, found r) n = absurd (n r refl)

pub admit-ne-found :
    (x : External) (handled : List Text → Bool) (h : Header) (t : Session × Result Request)
    (r : Request)
    → (admit x handled h t).1 ≢ found r
unfolding admit refuse refused
admit-ne-found x handled h (s, err f) r = λ p. cc
admit-ne-found x handled h (s, ok q) r = λ p. ground arith
