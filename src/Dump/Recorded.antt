-- ===== src/Dump/Recorded.antt =====
-- muxdump on a recorded connection, and that it ends on every input.
use go_muxrpc.Base.{
  ℕ, zero, suc, ◌≤◌, ◌<◌, ◌≡◌, ◌≢◌, refl, ap, ◌∙◌, Option, none, some, List, [], ◌∷◌, ◌++◌,
  append_assoc, length, length-append, length-drop, All, arith,
}
use go_muxrpc.Errors.{Err, equals, Result, ok, err}
use go_muxrpc.Codec.Stream.{Bytes, Input, read_full, copy_n}
use go_muxrpc.Codec.Packet.{Packet, Header, encode, header_size}
use go_muxrpc.Codec.Reader.{read_header, check_header, read_body_into}
use go_muxrpc.Codec.Writer.{goodbye}
use go_muxrpc.Codec.RoundTrip.Packets.{IsSendable, input, header_read, body_length}
use go_muxrpc.Codec.RoundTrip.Sessions.{encodes, goodbye_read, length-encodes}
use go_muxrpc.Codec.RoundTrip.Ends.{read_header_shorter}
use go_muxrpc.Session.Serve.Framing.Parts.{read_body_into-append}
use go_muxrpc.Dump.{
  Entry, printed, Step, over, failed, went_on, stopped, dump_body, dump_round, Dumped, then_dump,
  after_step, dump_loop, dump,
}
use go_muxrpc.Dump.Packets.{header, add_entry, entries, entries_more}

dump_round-encode :
    (req max_len : ℕ) (p : Packet) (rest : Bytes) (fin : Err)
    → IsSendable p
    → dump_round req max_len (read_header (input (encode p ++ rest) fin))
      ≡ (input rest fin, went_on (printed req max_len (header p) p.body))
unfolding dump_round dump_body
dump_round-encode req max_len p rest fin s =
    rw
      (
        header_read p rest fin s,
        body_length p s,
        read_body_into-append p.body rest fin (omega (arith, body_length p s, s.fits)),
      )
      refl

then_dump-some :
    (o : Option Entry) (es : List Entry)
    → then_dump o (some (es, none)) ≡ some (add_entry o es, none)
then_dump-some none es = refl
then_dump-some (some e) es = refl

dump_loop-encodes :
    (n req max_len : ℕ) (ps : List Packet) (rest : Bytes) (fin : Err)
    → All IsSendable ps
    → length ps < n
    → dump_loop n req max_len (input (encodes ps ++ (goodbye ++ rest)) fin)
      ≡ some (entries req max_len ps, none)
unfolding encodes dump_loop after_step
dump_loop-encodes zero req max_len ps rest fin s h = elim h [ ]
dump_loop-encodes (suc n) req max_len [] rest fin s h =
    unfold dump_round stopped equals entries in rw (goodbye_read rest fin) refl
dump_loop-encodes (suc n) req max_len (p ∷ ps) rest fin s h =
    ap
      (λ b.
        after_step (dump_round req max_len (read_header (input b fin))) (dump_loop n req max_len))
      (append_assoc (encode p) (encodes ps) (goodbye ++ rest))
    ∙ ap (λ t. after_step t (dump_loop n req max_len))
        (dump_round-encode req max_len p (encodes ps ++ (goodbye ++ rest)) fin s.0)
    ∙ ap (then_dump (printed req max_len (header p) p.body))
        (dump_loop-encodes n req max_len ps rest fin s.1 (omega arith))
    ∙ then_dump-some (printed req max_len (header p) p.body) (entries req max_len ps)
    ∙ ap (λ es. some (es, none)) (entries_more req max_len p ps)

-- On the bytes of packets that were sent and ended by the goodbye, muxdump prints the entries of those
-- that were asked for, in order, and ends without an error, whatever follows.
pub dump-encodes :
    (req max_len : ℕ) (ps : List Packet) (rest : Bytes) (fin : Err)
    → All IsSendable ps
    → dump req max_len (input (encodes ps ++ (goodbye ++ rest)) fin)
      ≡ some (entries req max_len ps, none)
unfolding dump
dump-encodes req max_len ps rest fin s =
    dump_loop-encodes _ req max_len ps rest fin s
      (omega (arith, length-encodes ps, length-append (encodes ps) (goodbye ++ rest)))

-- What a round leaves of the input.
body_shorter :
    (req max_len : ℕ) (t : Input × Result Header)
    → length (dump_round req max_len t).0.bytes ≤ length t.0.bytes
unfolding dump_round dump_body read_body_into copy_n
body_shorter req max_len (i, err e) = omega arith
body_shorter req max_len (i, ok h) = ground (arith, length-drop h.len i.bytes)

on_header :
    (req max_len : ℕ) (i : Input) (o : Option Entry)
    → (dump_round req max_len (read_header i)).1 ≡ went_on o
    → header_size ≤ length i.bytes
unfolding read_header dump_round stopped check_header read_full
on_header req max_len i o h = ground arith

then_dump-none : (o : Option Entry) (d : Option Dumped) → then_dump o d ≡ none → d ≡ none
then_dump-none o none e = refl
then_dump-none none (some d) e = e
then_dump-none (some x) (some d) e = absurd (cc e)

after_step-ne-none :
    (s : Input × Step) (next : Input → Option Dumped)
    → ((o : Option Entry) → s.1 ≡ went_on o → next s.0 ≢ none)
    → after_step s next ≢ none
unfolding after_step
after_step-ne-none (i, over) next h = λ e. cc
after_step-ne-none (i, failed x) next h = λ e. cc
after_step-ne-none (i, went_on o) next h = λ e. h o refl (then_dump-none o (next i) e)

dump_loop-ne-none :
    (n req max_len : ℕ) (i : Input) → length i.bytes < n → dump_loop n req max_len i ≢ none
unfolding dump_loop
dump_loop-ne-none zero req max_len i h = elim h [ ]
dump_loop-ne-none (suc n) req max_len i h =
    after_step-ne-none (dump_round req max_len (read_header i)) (dump_loop n req max_len) λ o e.
      dump_loop-ne-none n req max_len _ (
        omega (
          arith,
          body_shorter req max_len (read_header i),
          read_header_shorter i,
          on_header req max_len i o e,
        ))

-- On every input the loop of muxdump ends: a round for each byte and one more are enough.
pub dump-ne-none : (req max_len : ℕ) (i : Input) → dump req max_len i ≢ none
unfolding dump
dump-ne-none req max_len i = dump_loop-ne-none _ req max_len i (omega arith)
