-- ===== src/Sink/Encoding.antt =====
-- What `SetEncoding` does to the flags of the packets that a sink sends.
use go_muxrpc.Base.{
  ℕ, zero, suc, ◌<◌, ◌≤◌, ◌≡◌, not, ◌&&◌, ◌||◌, none, some, ◌==◌, if◌then◌else◌, arith, ltb, ◌⊎◌,
  inl, inr, Bool-cases,
}
use go_muxrpc.Codec.Flag
use go_muxrpc.Codec.Flag.{
  Bit, string_bit, json_bit, end_err_bit, stream_bit, mask, get-set-clear, clear-lt, set_none,
}
use go_muxrpc.Sink.{ByteSink, set_encoding, as_codec_flag, type_binary, type_string, type_json}

-- The flags that a valid encoding leaves.
abbrev encoding_flag : ℕ → ℕ → ℕ
encoding_flag re f =
    if re == type_binary
    then Flag.set (Flag.clear f Flag.json) 0
    else if re == type_string
    then Flag.set f Flag.string
    else Flag.set f Flag.json

set_encoding-flag :
    (re : ℕ) (bs : ByteSink)
    → re ≤ type_json
    → set_encoding re bs ≡ some (record bs { flag = encoding_flag re bs.flag })
unfolding set_encoding as_codec_flag
set_encoding-flag re bs h = ground arith

set_encoding_panics : (re : ℕ) (bs : ByteSink) → type_json < re → set_encoding re bs ≡ none
unfolding set_encoding as_codec_flag
set_encoding_panics re bs h = ground arith

-- Which flags are set after a valid encoding.
encoding_flag-get :
    (re f : ℕ)
    → f < 256
    → re ≤ type_json
    → (Flag.get (encoding_flag re f) Flag.string ≡ (re == type_string || Flag.get f Flag.string))
      × (Flag.get (encoding_flag re f) Flag.json
          ≡ (re == type_json || not (re == type_binary) && Flag.get f Flag.json))
      × (Flag.get (encoding_flag re f) Flag.end_err ≡ Flag.get f Flag.end_err)
      × (Flag.get (encoding_flag re f) Flag.stream ≡ Flag.get f Flag.stream)
encoding_flag-get zero f lt h = rw (set_none (Flag.clear f Flag.json) (clear-lt f json_bit lt)) (
  (get-set-clear f string_bit json_bit lt).1,
  (get-set-clear f json_bit json_bit lt).1,
  (get-set-clear f end_err_bit json_bit lt).1,
  (get-set-clear f stream_bit json_bit lt).1,
)
encoding_flag-get (suc zero) f lt h = (
  (get-set-clear f string_bit string_bit lt).0,
  (get-set-clear f json_bit string_bit lt).0,
  (get-set-clear f end_err_bit string_bit lt).0,
  (get-set-clear f stream_bit string_bit lt).0,
)
encoding_flag-get (suc (suc zero)) f lt h = (
  (get-set-clear f string_bit json_bit lt).0,
  (get-set-clear f json_bit json_bit lt).0,
  (get-set-clear f end_err_bit json_bit lt).0,
  (get-set-clear f stream_bit json_bit lt).0,
)
encoding_flag-get (suc (suc (suc n))) f lt h = absurd (omega arith)

-- `SetEncoding` panics on an unknown encoding only. Otherwise it sets the flag of the encoding, binary
-- clears the JSON flag, and every other flag stays: strings keep a JSON flag that is set, and JSON and
-- binary keep a string flag.
pub set_encoding_flags :
    (re : ℕ) (bs : ByteSink)
    → bs.flag < 256
    → ((type_json < re) × (set_encoding re bs ≡ none))
      ⊎ ((f : ℕ) × (set_encoding re bs ≡ some (record bs { flag = f }))
          × (Flag.get f Flag.string ≡ (re == type_string || Flag.get bs.flag Flag.string))
          × (Flag.get f Flag.json
              ≡ (re == type_json || not (re == type_binary) && Flag.get bs.flag Flag.json))
          × (Flag.get f Flag.end_err ≡ Flag.get bs.flag Flag.end_err)
          × (Flag.get f Flag.stream ≡ Flag.get bs.flag Flag.stream))
set_encoding_flags re bs lt = elim (Bool-cases (ltb type_json re)) [
  | inl big ↦ inl (ground arith, set_encoding_panics re bs (ground arith))
  | inr small ↦
      let le : re ≤ type_json = ground arith in
      let (s, j, e, t) = encoding_flag-get re bs.flag lt le in
      inr (encoding_flag re bs.flag, set_encoding-flag re bs le, s, j, e, t)
]
