-- ===== src/Packets.antt =====
-- stream.go: the packets that a stream sends.
use go_muxrpc.Base.{ℕ, Bool, [], ◌∷◌, text, if◌then◌else◌}
use go_muxrpc.Errors.{Err, Result, ok, err, wrap}
use go_muxrpc.Errors.Message.{error_text}
use go_muxrpc.Codec.Stream.{Bytes}
use go_muxrpc.Codec.Packet.{Packet}
use go_muxrpc.Codec.Flag
use go_muxrpc.External.{External}

-- `if stream { flag = codec.FlagStream }`
abbrev stream_flag : Bool → ℕ
stream_flag stream = if stream then Flag.stream else 0

unfoldable pub new_raw_packet : Bool → ℕ → Bytes → Packet
new_raw_packet stream req body = record { flag = stream_flag stream; req = req; body = body }

unfoldable pub new_string_packet : Bool → ℕ → Bytes → Packet
unfolding Flag.set
new_string_packet stream req body = record {
  flag = Flag.set (stream_flag stream) Flag.string;
  req = req;
  body = body;
}

-- `marshalled` is the result of `json.Marshal(v)`.
unfoldable pub new_json_packet : Bool → ℕ → Result Bytes → Result Packet
unfolding Flag.set
new_json_packet stream req (err e) = err (wrap (text "error marshaling value: ") e)
new_json_packet stream req (ok body) =
    ok (record { flag = Flag.set (stream_flag stream) Flag.json; req = req; body = body })

abbrev pub true_bytes : Bytes
true_bytes = b't' ∷ b'r' ∷ b'u' ∷ b'e' ∷ []

-- FlagJSON | FlagEndErr, and FlagStream on a stream.
unfoldable pub end_flag : Bool → ℕ
unfolding Flag.set
end_flag stream =
    let flag = Flag.set Flag.json Flag.end_err in if stream then Flag.set flag Flag.stream else flag

unfoldable pub new_end_okay_packet : ℕ → Bool → Packet
new_end_okay_packet req stream = record { flag = end_flag stream; req = req; body = true_bytes }

end_err_packet : ℕ → Bool → Result Bytes → Result Packet
end_err_packet req stream (err e) = err (wrap (text "error marshaling value: ") e)
end_err_packet req stream (ok body) = ok (record { flag = end_flag stream; req = req; body = body })

unfoldable pub new_end_err_packet : External → ℕ → Bool → Err → Result Packet
unfolding end_err_packet
new_end_err_packet x req stream e = end_err_packet req stream (
    x.marshal_call_error
      (record { name = text "Error"; message = error_text x.eos_text e; stack = [] }))
