-- ===== src/Session/Wire/Reply.antt =====
-- The answer of an async call: what `Return` sends, and what the caller then has.
use go_muxrpc.Base.{
  ◌+◌, ◌^◌, [], ◌<◌, ℕ, ◌≤◌, ◌≡◌, refl, ap, ◌∙◌, true, none, some, ◌++◌, length, ==_refl, arith,
}
use go_muxrpc.Base.Assoc.{member-add}
use go_muxrpc.Errors.{Result, ok, err}
use go_muxrpc.External.{External}
use go_muxrpc.Codec.Stream.{Bytes}
use go_muxrpc.Codec.Packet.{Packet, encode}
use go_muxrpc.Codec.Writer.{max_buffer_size}
use go_muxrpc.Codec.Flag
use go_muxrpc.Codec.RoundTrip.Sessions.{write_packet-encode}
use go_muxrpc.Sink.{ByteSink, set_encoding, as_codec_flag, type_string, type_json}
use go_muxrpc.Sink
use go_muxrpc.Sink.Closing.{IsReady, write_ready}
use go_muxrpc.Session.State.{Session, Request, active, set_request, set_output}
use go_muxrpc.Session.Client.{
  start, register, next_id, send_first, sent_first, wire_call, args_or_empty,
}
use go_muxrpc.Session.Requests.{
  ReturnValue, string_value, json_value, returns, return_call, return_value, written,
}
use go_muxrpc.Session.Wire.Take.{call_packet}

-- The flag and the bytes of a value.
unfoldable pub value_flag : ReturnValue → ℕ
value_flag (string_value t) = Flag.string
value_flag (json_value b) = Flag.json

unfoldable pub value_bytes : ReturnValue → Result Bytes
value_bytes (string_value t) = ok t
value_bytes (json_value b) = b

-- The packet of an answer, and the request and the connection once it is sent.
abbrev pub reply_packet : ReturnValue → Bytes → Request → Packet
reply_packet v b r = record {
  flag = Flag.set r.sink.flag (value_flag v);
  req = r.sink.req;
  body = b;
}

abbrev pub replied : ReturnValue → Bytes → Request → Session → Session
replied v b r s =
    set_request
      (record r { sink = record r.sink { flag = Flag.set r.sink.flag (value_flag v); body = b } })
      (set_output
        (record s.packer.output { sent = s.packer.output.sent ++ encode (reply_packet v b r) }) s)

write_encoded :
    (b : Bytes) (f : ℕ) (r : Request) (s : Session)
    → IsReady r.sink
    → length b ≤ max_buffer_size
    → s.packer.output.room ≡ none
    → written r (Sink.write b (record r.sink { flag = Flag.set r.sink.flag f }) s.packer.output) s
      ≡ (
        set_request
            (record r { sink = record r.sink { flag = Flag.set r.sink.flag f; body = b } })
            (set_output
              (record s.packer.output {
                sent =
                    s.packer.output.sent
                    ++ encode
                        (record { flag = Flag.set r.sink.flag f; req = r.sink.req; body = b });
              })
              s),
        none,
      )
unfolding written
write_encoded b f r s h fits room =
    ap (λ w. written r w s)
      (write_ready b (record r.sink { flag = Flag.set r.sink.flag f }) s.packer.output
        (record { open_sink = h.open_sink; alive = h.alive; numbered = h.numbered }) fits room)

return_value-replied :
    (v : ReturnValue) (b : Bytes) (r : Request) (s : Session)
    → value_bytes v ≡ ok b
    → IsReady r.sink
    → length b ≤ max_buffer_size
    → s.packer.output.room ≡ none
    → return_value v r s ≡ (replied v b r s, none)
unfolding return_value set_encoding as_codec_flag value_flag value_bytes
return_value-replied (string_value t) b r s e h fits room =
    let same : t ≡ b = ground (arith, e) in
    ap (λ c. return_value (string_value c) r s) same ∙ write_encoded b Flag.string r s h fits room
return_value-replied (json_value (ok c)) b r s e h fits room =
    let same : c ≡ b = ground (arith, e) in
    ap (λ d. return_value (json_value (ok d)) r s) same ∙ write_encoded b Flag.json r s h fits room
return_value-replied (json_value (err m)) b r s e h fits room = absurd (cc e)

-- `Return` of a string or of a value that JSON encodes, on an async or sync request whose sink is ready,
-- over a connection that takes all: one packet is sent, under the number of the request, with the flags
-- of the sink and that of the encoding, and Return gives nil.
pub return_call_sends :
    (v : ReturnValue) (b : Bytes) (r : Request) (s : Session)
    → value_bytes v ≡ ok b
    → returns r.call_type ≡ true
    → IsReady r.sink
    → length b ≤ max_buffer_size
    → s.packer.output.room ≡ none
    → return_call v r s ≡ (replied v b r s, none)
unfolding return_call
return_call_sends v b r s e ty h fits room = rw ty (return_value-replied v b r s e h fits room)

-- The request as it stands in the map once its call is sent.
abbrev pub registered : Request → Session → Request
registered r s = record r {
  id = next_id s;
  sink = record r.sink { req = next_id s };
  raw_args = some (args_or_empty r.raw_args);
}

register-active :
    (r : Request) (s : Session) → active (next_id s) (register r s) ≡ some (registered r s)
unfolding active register set_request
register-active r s = rw (member-add (next_id s) (next_id s) s.reqs, ==_refl (next_id s)) refl

-- The session of a caller whose call is sent.
abbrev pub sent_call : Request → Bytes → Session → Session
sent_call r body s =
    set_output
      (record s.packer.output {
        sent = s.packer.output.sent ++ encode (call_packet r (next_id s) body);
      })
      (register r s)

pub start-sent_call :
    (x : External) (r : Request) (s : Session) (body : Bytes)
    → x.marshal_call (wire_call r) ≡ ok body
    → length body ≤ max_buffer_size
    → s.packer.output.room ≡ none
    → start x r s ≡ (sent_call r body s, none)
unfolding start send_first sent_first register
start-sent_call x r s body m fits room =
    ap (λ b. send_first b (next_id s) r.call_type (register r s)) m
    ∙ ap (sent_first (register r s))
        (write_packet-encode (call_packet r (next_id s) body) s.packer.output fits room)

pub sent_call-active :
    (r : Request) (s : Session) (body : Bytes)
    → active (next_id s) (sent_call r body s) ≡ some (registered r s)
unfolding active set_output
sent_call-active r s body = register-active r s

-- The first packet that a connection takes.
pub start-first :
    (x : External) (r : Request) (s : Session) (body : Bytes)
    → x.marshal_call (wire_call r) ≡ ok body
    → length body ≤ max_buffer_size
    → s.packer.output.room ≡ none
    → s.packer.output.sent ≡ []
    → s.highest + 1 < 2 ^ 31
    → (start x r s).0.packer.output.sent ≡ encode (call_packet r (s.highest + 1) body)
unfolding set_output
start-first x r s body m fits room sent small =
    let next_is : next_id s ≡ s.highest + 1 = unfold next_id in omega (arith, small) in
    ap (λ c. c.0.packer.output.sent) (start-sent_call x r s body m fits room)
    ∙ ap (λ l. l ++ encode (call_packet r (next_id s) body)) sent
    ∙ ap (λ k. encode (call_packet r k body)) next_is
