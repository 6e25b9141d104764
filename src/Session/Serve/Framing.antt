-- ===== src/Session/Serve/Framing.antt =====
-- Where a round of the loop leaves the connection.
pub mod Parts
use go_muxrpc.Base.{
  ◌^◌, ◌≤◌, ◌<◌, ◌≡◌, refl, ap, ◌∙◌, ◌≢◌, ◌⊎◌, inl, inr, Bool, true, false, not, ◌&&◌, Option, none,
  some, List, ◌++◌, Text, length, take-append, drop-append, min, ltb, arith, if◌then◌else◌, text,
  Bool-cases,
}
use go_muxrpc.Base.Assoc.{member}
use go_muxrpc.Errors.{Err, Result, ok, err, new, no_such_method}
use go_muxrpc.External.{External}
use go_muxrpc.Codec.Stream.{Bytes, Input, Output}
use go_muxrpc.Codec.Packet.{Packet, Header}
use go_muxrpc.Codec.Reader.{read_body_into}
use go_muxrpc.Codec.Flag
use go_muxrpc.Codec.RoundTrip.Packets.{input}
use go_muxrpc.Source.Frames.Queue.{copy_n-append}
use go_muxrpc.Source.Frames.{FrameBuffer, copy_body}
use go_muxrpc.Codec.Writer.{write_packet}
use go_muxrpc.Packets.{new_end_err_packet}
use go_muxrpc.Source.ByteSource.{ByteSource, consume, is_failed}
use go_muxrpc.Session.State.{
  Session, Request, active, close_stream, set_input, set_output, set_request,
}
use go_muxrpc.Session.Serve.{
  maybe_discard, keep, skip, decode_body, parse_new_request, admit, accept, fetch_request, Fetched,
  found, fresh, failed, go_on, serve_end, serve_data, serve_packet, fetched, consumed, closed_by,
  stream_end, StreamEnd, ends, bad, refuse, refused,
}
use go_muxrpc.Session.Serve.Framing.Parts.{
  conn, discard-conn, end_active-conn, end_unknown-conn, consumed-conn, is_none, failed_source,
  consume-conn, admit-conn, parse-conn, admit_err, fetched_failed, fetched_fresh-conn,
  admit-ne-found,
}

-- A data packet of a new request that is not refused with an error is taken whole.
new_data-conn :
    (x : External) (late : Bool) (handled : List Text → Bool) (h : Header) (s : Session)
    (b rest : Bytes) (fin : Err)
    → active h.req s ≡ none
    → conn s ≡ input (b ++ rest) fin
    → h.len ≡ length b
    → length b ≤ (x.decode_call b).0
    → (fetched x late h (fetch_request x handled h s)).1 ≡ go_on
    → conn (fetched x late h (fetch_request x handled h s)).0 ≡ input rest fin
unfolding fetch_request
new_data-conn x late handled h s b rest fin a here len all q =
    rw (a, fetch_request)
      (elim (parse-conn x h s b rest fin here len all) [
        | inl (e, refusal) ↦ absurd (
            fetched_failed x late h (admit x handled h (parse_new_request x h s)) e
              (admit_err x handled h _ e refusal) (rw (a, fetch_request) at q))
        | inr fine ↦
            fetched_fresh-conn x late h (admit x handled h (parse_new_request x h s))
              (admit-ne-found x handled h _)
            ∙ admit-conn x handled h (parse_new_request x h s)
            ∙ fine
      ])

found_data-conn :
    (x : External) (late : Bool) (handled : List Text → Bool) (h : Header) (s : Session)
    (b rest : Bytes) (fin : Err) (r : Request)
    → active h.req s ≡ some r
    → conn s ≡ input (b ++ rest) fin
    → h.len ≡ length b
    → conn (fetched x late h (fetch_request x handled h s)).0
      ≡ (if is_failed r.source then input (b ++ rest) fin else input rest fin)
unfolding fetch_request fetched
found_data-conn x late handled h s b rest fin r a here len =
    rw (a, fetch_request)
      (consumed-conn x late r (consume h.len h.flag (conn s) r.source) s
        ∙ ap (λ t. (consume h.len h.flag t r.source).0) here
        ∙ consume-conn h r.source b rest fin len)

data_kept-conn :
    (x : External) (late : Bool) (handled : List Text → Bool) (h : Header) (s : Session)
    (b rest : Bytes) (fin : Err) (o : Option Request)
    → active h.req s ≡ o
    → conn s ≡ input (b ++ rest) fin
    → h.len ≡ length b
    → length b ≤ (x.decode_call b).0
    → (fetched x late h (fetch_request x handled h s)).1 ≡ go_on
    → conn (fetched x late h (fetch_request x handled h s)).0
      ≡ (if failed_source o then input (b ++ rest) fin else input rest fin)
data_kept-conn x late handled h s b rest fin none a here len all q =
    new_data-conn x late handled h s b rest fin a here len all q
data_kept-conn x late handled h s b rest fin (some r) a here len all q =
    found_data-conn x late handled h s b rest fin r a here len

serve_data-conn :
    (x : External) (late : Bool) (handled : List Text → Bool) (h : Header) (s : Session)
    (b rest : Bytes) (fin : Err)
    → conn s ≡ input (b ++ rest) fin
    → h.len ≡ length b
    → length b ≤ (x.decode_call b).0
    → (serve_data x late handled h s).1 ≡ go_on
    → conn (serve_data x late handled h s).0 ≡ (
        if not (member h.req s.reqs_closed) && failed_source (active h.req s)
        then input (b ++ rest) fin
        else input rest fin)
unfolding serve_data set_input
serve_data-conn x late handled h s b rest fin here len all q =
    elim (Bool-cases (member h.req s.reqs_closed)) [
      | inl closed ↦ rw (discard-conn h s b rest fin here len, closed)
      | inr live ↦
          rw (discard-conn h s b rest fin here len, live)
            (data_kept-conn x late handled h s b rest fin (active h.req s) refl here len all
              (rw (discard-conn h s b rest fin here len, live) at q))
    ]

serve_end-conn :
    (x : External) (late : Bool) (h : Header) (s : Session) (b rest : Bytes) (fin : Err)
    (o : Option Request)
    → active h.req s ≡ o
    → conn s ≡ input (b ++ rest) fin
    → h.len ≡ length b
    → length b < 2 ^ 32
    → conn (serve_end x late h s).0 ≡ (
        if not (member h.req s.reqs_closed) && is_none o
        then input (b ++ rest) fin
        else input rest fin)
serve_end-conn x late h s b rest fin none a here len lt =
    end_unknown-conn x late h s b rest fin a here len ∙ ground arith
serve_end-conn x late h s b rest fin (some r) a here len lt =
    end_active-conn x late h s b rest fin r a here len lt ∙ ground arith

-- The packets whose body the loop leaves on the connection: an end packet for a request that is
-- neither active nor to be ignored, and a data packet for an active request whose source has failed.
abbrev pub body_left : Header → Session → Bool
body_left h s =
    not (member h.req s.reqs_closed)
    && (if Flag.get h.flag Flag.end_err
        then is_none (active h.req s)
        else failed_source (active h.req s))

-- A round that goes on takes the body of its packet off the connection, whole and nothing more, but for
-- the packets of `body_left`: the body of these is still there. The JSON decoder is supposed to read all of the body of a call.
pub serve_packet-conn :
    (x : External) (late : Bool) (handled : List Text → Bool) (h : Header) (s : Session)
    (b rest : Bytes) (fin : Err)
    → s.packer.input ≡ input (b ++ rest) fin
    → h.len ≡ length b
    → length b < 2 ^ 32
    → length b ≤ (x.decode_call b).0
    → (serve_packet x late handled h s).1 ≡ go_on
    → (serve_packet x late handled h s).0.packer.input
      ≡ (if body_left h s then input (b ++ rest) fin else input rest fin)
unfolding serve_packet
serve_packet-conn x late handled h s b rest fin here len lt all q =
    elim (Bool-cases (Flag.get h.flag Flag.end_err)) [
      | inl ends_it ↦
          rw ends_it (serve_end-conn x late h s b rest fin (active h.req s) refl here len lt)
      | inr more ↦
          rw more (serve_data-conn x late handled h s b rest fin here len all (rw more at q))
    ]
