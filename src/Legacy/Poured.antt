-- ===== src/Legacy/Poured.antt =====
-- What is poured into one end of a stream is what comes out of the other.
use go_muxrpc.Base.{
  ℕ, ◌≤◌, ◌<◌, ◌≡◌, refl, ap, sym, subst, ◌∙◌, ◌+◌, ◌^◌, false, Option, none, List, [], ◌∷◌, ◌++◌,
  length, if◌then◌else◌, arith, Bool-cases, inl, inr,
}
use go_muxrpc.Errors.{Err, Result, ok, err}
use go_muxrpc.Codec.Stream.{Bytes, Input, Output}
use go_muxrpc.Codec.Flag
use go_muxrpc.Codec.Flag.{string_bit, json_bit, get-set-clear}
use go_muxrpc.Codec.Packet.{Packet, encode}
use go_muxrpc.Codec.Writer.{max_buffer_size}
use go_muxrpc.Codec.RoundTrip.Packets.{input}
use go_muxrpc.Source.Frames.{next_frame}
use go_muxrpc.Source.Frames.Queue.{Holds, next_frame-body, reader-Holds}
use go_muxrpc.Source.ByteSource.{ByteSource, Ready, consume, source_reader, source_bytes}
use go_muxrpc.Source.Drain.{bytes_taken, next_more}
use go_muxrpc.Source.Gains.{consume-Gains}
use go_muxrpc.Sink.{ByteSink, set_encoding, as_codec_flag}
use go_muxrpc.Sink
use go_muxrpc.Sink.Closing.{IsReady, write_ready}
use go_muxrpc.Legacy.{
  Element, Value, raw_message, other, json_error, json_element, of_frame, read_json, string_element,
  bytes_element, after_next, next_element, only_error, encoding_set, pour_encoded, pour_failed,
  pour,
}

module _ {ℓ} {V : Type ℓ} (decode : Bytes → ℕ × Result V) where
  -- What a body is with the flags of its packet.
  unfoldable pub element : ℕ → Bytes → Result (Element V)
  element flag b =
      if Flag.get flag Flag.json
      then json_element (decode b)
      else if Flag.get flag Flag.string
      then ok (Element.string b)
      else ok (Element.bytes b)

  frame_element :
      (bs : ByteSource) (left b : Bytes) (q : List Bytes)
      → Holds bs.buf left (b ∷ q)
      → of_frame decode (next_frame bs.buf) ≡ json_element (decode b)
  unfolding of_frame
  frame_element bs left b q h =
      let (size, body) = next_frame-body bs.buf left b q h in
      ap (of_frame decode) size ∙ ap (λ c. json_element (decode c)) body

  next_json :
      (bs : ByteSource) (left b : Bytes) (q : List Bytes)
      → Holds bs.buf left (b ∷ q)
      → ((read_json decode bs).1 ≡ json_element (decode b))
        × (left' : Bytes) × Holds (read_json decode bs).0.buf left' q
  unfolding read_json source_reader
  next_json bs left b q h = (
    frame_element bs left b q h,
    _,
    (reader-Holds bs.buf left b q (λ c. json_error (decode c)) h).1,
  )

  bytes_got :
      (bs : ByteSource) (left b : Bytes) (q : List Bytes)
      → Holds bs.buf left (b ∷ q)
      → source_bytes bs ≡ ((source_bytes bs).0, ok b)
  bytes_got bs left b q h = ap (λ r. ((source_bytes bs).0, r)) (bytes_taken bs left b q h).0

  -- What one call of Next leaves.
  abbrev Leaves : List Bytes → Result (Element V) → ByteSource × Result (Element V) → Type ℓ
  Leaves q e (bs, r) = (r ≡ e) × (left : Bytes) × Holds bs.buf left q

  -- Next gives the oldest body, as the flags that the source keeps say; and the younger bodies stay.
  next_element_kept :
      (ready : Ready) (bs : ByteSource) (left b : Bytes) (q : List Bytes)
      → Holds bs.buf left (b ∷ q)
      → let (bs', r) = next_element decode ready bs in
        (r ≡ element bs.hdr_flag b) × (left' : Bytes) × Holds bs'.buf left' q
  unfolding next_element after_next element string_element bytes_element
  next_element_kept ready bs left b q h =
      subst (λ t. Leaves q (element bs.hdr_flag b) (after_next decode t))
        (sym (next_more ready bs (length q) h.counted))
        (elim (Bool-cases (Flag.get bs.hdr_flag Flag.json)) [
          | inl json ↦ rw json (next_json bs left b q h)
          | inr plain ↦ elim (Bool-cases (Flag.get bs.hdr_flag Flag.string)) [
            | inl str ↦
                rw (plain, str)
                  (subst (λ t. Leaves q (ok (Element.string b)) (string_element t))
                    (sym (bytes_got bs left b q h)) (refl, [], (bytes_taken bs left b q h).1))
            | inr binary ↦
                rw (plain, binary)
                  (subst (λ t. Leaves q (ok (Element.bytes b)) (bytes_element t))
                    (sym (bytes_got bs left b q h)) (refl, [], (bytes_taken bs left b q h).1))
          ]
        ])

-- The flags and the body of the packet for a value.
unfoldable pub poured_flag : Value → ℕ → ℕ
poured_flag (Value.bytes b) f = f
poured_flag (Value.string t) f = Flag.set f Flag.string
poured_flag (raw_message b) f = Flag.set f Flag.json
poured_flag (other r) f = Flag.set f Flag.json

unfoldable pub poured_body : Value → Result Bytes
poured_body (Value.bytes b) = ok b
poured_body (Value.string t) = ok t
poured_body (raw_message b) = ok b
poured_body (other (ok b)) = ok (b ++ (10 ∷ []))
poured_body (other (err e)) = err e

abbrev pub poured_packet : Value → Bytes → ByteSink → Packet
poured_packet v b bs = record { flag = poured_flag v bs.flag; req = bs.req; body = b }

abbrev pub Sends : Value → Bytes → ByteSink → Output → Type 0
Sends v b bs o = pour v bs o ≡ (
  record bs { flag = poured_flag v bs.flag; body = b },
  record o { sent = o.sent ++ encode (poured_packet v b bs) },
  none,
)

write_flagged :
    (b : Bytes) (f : ℕ) (bs : ByteSink) (o : Output)
    → IsReady bs
    → length b ≤ max_buffer_size
    → o.room ≡ none
    → Sink.write b (record bs { flag = f }) o ≡ (
      record bs { flag = f; body = b },
      record o { sent = o.sent ++ encode (record { flag = f; req = bs.req; body = b }) },
      ok (length b),
    )
write_flagged b f bs o h fits room =
    write_ready b (record bs { flag = f }) o
      (record { open_sink = h.open_sink; alive = h.alive; numbered = h.numbered }) fits room

pour-Sends :
    (v : Value) (b : Bytes) (bs : ByteSink) (o : Output)
    → poured_body v ≡ ok b
    → IsReady bs
    → length b ≤ max_buffer_size
    → o.room ≡ none
    → Sends v b bs o
unfolding pour poured_body poured_flag encoding_set set_encoding as_codec_flag pour_encoded
pour-Sends (Value.bytes c) b bs o e h fits room =
    let same : c ≡ b = ground (arith, e) in
    ap (λ d. only_error (Sink.write d bs o)) same ∙ ap only_error (write_ready b bs o h fits room)
pour-Sends (Value.string c) b bs o e h fits room =
    let same : c ≡ b = ground (arith, e) in
    ap (λ d. pour (Value.string d) bs o) same
    ∙ ap only_error (write_flagged b (Flag.set bs.flag Flag.string) bs o h fits room)
pour-Sends (raw_message c) b bs o e h fits room =
    let same : c ≡ b = ground (arith, e) in
    ap (λ d. pour (raw_message d) bs o) same
    ∙ ap only_error (write_flagged b (Flag.set bs.flag Flag.json) bs o h fits room)
pour-Sends (other (ok c)) b bs o e h fits room =
    let same : c ++ (10 ∷ []) ≡ b = ground (arith, e) in
    ap
      (λ d.
        let (bs', o', r) = only_error (Sink.write d (encoding_set Sink.type_json bs) o) in
        (bs', o', pour_failed r))
      same
    ∙ ap (λ w. let (bs', o', r) = only_error w in (bs', o', pour_failed r))
        (write_flagged b (Flag.set bs.flag Flag.json) bs o h fits room)
pour-Sends (other (err m)) b bs o e h fits room = absurd (cc e)

module _ {ℓ} {V : Type ℓ} (decode : Bytes → ℕ × Result V) where
  -- What comes out for a value: one of its own kind.
  unfoldable pub of_value : Value → Bytes → Result (Element V)
  of_value (Value.bytes c) b = ok (Element.bytes b)
  of_value (Value.string t) b = ok (Element.string b)
  of_value (raw_message c) b = json_element (decode b)
  of_value (other r) b = json_element (decode b)

  element_poured :
      (v : Value) (b : Bytes) (f : ℕ)
      → f < 256
      → Flag.get f Flag.json ≡ false
      → Flag.get f Flag.string ≡ false
      → element decode (poured_flag v f) b ≡ of_value v b
  unfolding element poured_flag of_value
  element_poured (Value.bytes c) b f lt no_json no_string = rw (no_json, no_string) refl
  element_poured (Value.string t) b f lt no_json no_string =
      rw
        (
          (get-set-clear f json_bit string_bit lt).0 ∙ no_json,
          (get-set-clear f string_bit string_bit lt).0,
        )
        refl
  element_poured (raw_message c) b f lt no_json no_string =
      rw (get-set-clear f json_bit json_bit lt).0 refl
  element_poured (other r) b f lt no_json no_string =
      rw (get-set-clear f json_bit json_bit lt).0 refl

  -- A value that is poured into a ready sink whose packets carry neither the string nor the JSON flag, over
  -- a connection that takes all, is sent as one packet, with no error; and a source that is open and empty,
  -- and is given just that packet, takes its body off the connection and gives it by Next as bytes if bytes
  -- were poured, as a string if a string was, and else as what JSON decodes from the body.
  pub pour-next_element :
      (v : Value) (b rest left : Bytes) (bs : ByteSink) (o : Output) (src : ByteSource)
      (ready : Ready) (fin : Err)
      → poured_body v ≡ ok b
      → IsReady bs
      → bs.flag < 256
      → Flag.get bs.flag Flag.json ≡ false
      → Flag.get bs.flag Flag.string ≡ false
      → length b ≤ max_buffer_size
      → o.room ≡ none
      → src.failed ≡ none
      → Holds src.buf left []
      → let p = poured_packet v b bs in
        Sends v b bs o
        × (src' : ByteSource) × (consume (length p.body) p.flag (input (p.body ++ rest) fin) src
            ≡ (input rest fin, src', none))
        × ((next_element decode ready src').1 ≡ of_value v b)
  pour-next_element v b rest left bs o src ready fin e h lt no_json no_string fits room open_src
        holds =
      let f = poured_flag v bs.flag in
      let (g, taken) =
        consume-Gains src left [] b rest fin f holds open_src (omega arith) (omega arith) in
      (
        pour-Sends v b bs o e h fits room,
        g.after,
        taken,
        (next_element_kept decode ready g.after left b [] g.holds).0
            ∙ ap (λ k. element decode k b) g.flagged
            ∙ element_poured v b bs.flag lt no_json no_string,
      )

  abbrev GivesOldest :
      Value → Bytes → List Bytes → Bytes → Err → Ready → Input × ByteSource × Option Err → Type ℓ
  GivesOldest v b q rest fin ready (i, src, taken) =
      (i ≡ input rest fin)
      × (taken ≡ none)
      × ((next_element decode ready src).1 ≡ of_value v b)
      × (left : Bytes) × Holds (next_element decode ready src).0.buf left q

  -- A source that is open and holds bodies, of which `b` is the oldest and which with one more are fewer
  -- than 2 ^ 32, is given the packet, with a body that fits, of a value that was poured into a sink whose
  -- packets carry neither the string nor the JSON flag: the source takes it, and Next then gives the oldest
  -- body as the kind of the value that was poured last, whatever `b` was sent as: as bytes if bytes were
  -- poured last, as a string if a string was, and else as what JSON decodes from `b`. The younger bodies
  -- stay, in order, the new one last.
  pub next_element_oldest :
      (v : Value) (c rest left b : Bytes) (q : List Bytes) (bs : ByteSink) (src : ByteSource)
      (ready : Ready) (fin : Err)
      → bs.flag < 256
      → Flag.get bs.flag Flag.json ≡ false
      → Flag.get bs.flag Flag.string ≡ false
      → length c ≤ max_buffer_size
      → src.failed ≡ none
      → Holds src.buf left (b ∷ q)
      → length q + 2 < 2 ^ 32
      → let p = poured_packet v c bs in
        let (i, src', taken) = consume (length p.body) p.flag (input (p.body ++ rest) fin) src in
        let (src'', r) = next_element decode ready src' in
        (i ≡ input rest fin)
        × (taken ≡ none)
        × (r ≡ of_value v b)
        × (left' : Bytes) × Holds src''.buf left' (q ++ (c ∷ []))
  next_element_oldest v c rest left b q bs src ready fin lt no_json no_string fits open_src holds
        room =
      let f = poured_flag v bs.flag in
      let (g, taken) =
        consume-Gains src left (b ∷ q) c rest fin f holds open_src (omega arith) (omega arith) in
      let (as_flagged, left', rest_holds) =
        next_element_kept decode ready g.after left b (q ++ (c ∷ [])) g.holds in
      subst (λ t. GivesOldest v b (q ++ (c ∷ [])) rest fin ready t) (sym taken)
        (
          refl,
          refl,
          as_flagged
              ∙ ap (λ k. element decode k b) g.flagged
              ∙ element_poured v b bs.flag lt no_json no_string,
          left',
          rest_holds,
        )
