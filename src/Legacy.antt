-- ===== src/Legacy.antt =====
-- stream2_legacy.go: the adapters that give a source and a sink the interface of luigi's streams.
--
-- A value of type `interface{}` is one of the kinds that the code tells apart. `decode` is the JSON
-- decoder at the type that `WithType` has set: how much of a body it reads, and its value.
pub mod Poured
use go_muxrpc.Base.{
  ℕ, Bool, true, false, Option, none, some, List, [], ◌∷◌, ◌++◌, Text, text, if◌then◌else◌,
}
use go_muxrpc.Errors.{Err, sentinel, eos, new, wrap, Result, ok, err}
use go_muxrpc.External.{External}
use go_muxrpc.Codec.Stream.{Bytes, Output}
use go_muxrpc.Codec.Flag
use go_muxrpc.Codec.Writer.{wrapped}
use go_muxrpc.Source.Frames.{FrameBuffer, next_frame, frame_body}
use go_muxrpc.Source.ByteSource.{
  ByteSource, Ready, next, source_err, source_reader, source_bytes, cancel,
}
use go_muxrpc.Sink.{ByteSink, write, close, close_with_error, set_encoding, type_string, type_json}

-- The values that a source gives.
pub data Element {ℓ} (V : Type ℓ) : Type ℓ where
  decoded : V → Element V
  string : Text → Element V
  bytes : Bytes → Element V

-- The values that are poured into a sink: `other` is the result of `json.Marshal`.
pub data Value : Type 0 where
  bytes : Bytes → Value
  string : Text → Value
  raw_message : Bytes → Value
  other : Result Bytes → Value

module _ {ℓ} {V : Type ℓ} where
  unfoldable pub json_error : ℕ × Result V → ℕ × Option Err
  json_error (k, ok v) = (k, none)
  json_error (k, err e) = (k, some (wrap (text "muxrpc: failed to decode json from source: ") e))

  -- What the decoder makes of the frame that it is given.
  unfoldable pub json_element : ℕ × Result V → Result (Element V)
  json_element (k, ok v) = ok (decoded v)
  json_element (k, err e) = err (wrap (text "muxrpc: failed to decode json from source: ") e)

  unfoldable pub string_element : ByteSource × Result Bytes → ByteSource × Result (Element V)
  string_element (bs, ok b) = (bs, ok (string b))
  string_element (bs, err e) = (bs, err e)

  unfoldable pub bytes_element : ByteSource × Result Bytes → ByteSource × Result (Element V)
  bytes_element (bs, ok b) = (bs, ok (bytes b))
  bytes_element (bs, err e) = (bs, err e)

abbrev pub no_more : Option Err → Err
no_more none = sentinel eos
no_more (some e) = wrap (text "muxrpc: no more elemts from source: ") e

module _ {ℓ} {V : Type ℓ} (decode : Bytes → ℕ × Result V) where
  unfoldable pub of_frame : FrameBuffer × Result ℕ → Result (Element V)
  unfolding json_element
  of_frame (fb, err e) = err e
  of_frame (fb, ok len) = json_element (decode (frame_body len fb))

  unfoldable pub read_json : ByteSource → ByteSource × Result (Element V)
  unfolding of_frame json_error
  read_json bs = ((source_reader (λ b. json_error (decode b)) bs).0, of_frame (next_frame bs.buf))

  unfoldable pub after_next : ByteSource × Bool → ByteSource × Result (Element V)
  unfolding read_json string_element bytes_element
  after_next (bs, false) = (bs, err (no_more (source_err bs)))
  after_next (bs, true) =
      if Flag.get bs.hdr_flag Flag.json
      then read_json bs
      else if Flag.get bs.hdr_flag Flag.string
      then string_element (source_bytes bs)
      else bytes_element (source_bytes bs)

  -- `streamSource.Next`
  unfoldable pub next_element : Ready → ByteSource → ByteSource × Result (Element V)
  unfolding after_next
  next_element ready bs = after_next (next ready bs)

-- `streamSource.CloseWithError`, which returns nil; `none` is a panic.
unfoldable pub close_source : Option Err → ByteSource → Option ByteSource
close_source e bs = cancel e bs

abbrev pub only_error : ByteSink × Output × Result ℕ → ByteSink × Output × Option Err
only_error (bs, o, ok n) = (bs, o, none)
only_error (bs, o, err e) = (bs, o, some e)

-- The encoding is one of the three, so it is set without a panic.
unfoldable pub encoding_set : ℕ → ByteSink → ByteSink
encoding_set re bs = elim (set_encoding re bs) [ some bs' ↦ bs' | none ↦ bs ]

abbrev pub pour_failed : Option Err → Option Err
pour_failed e = wrapped (text "muxrpc/legacy: failed pouring to new sink: ") e

-- `json.Encoder` ends each value with a newline.
unfoldable pub pour_encoded : Result Bytes → ByteSink → Output → ByteSink × Output × Option Err
pour_encoded (err e) bs o = (bs, o, pour_failed (some e))
pour_encoded (ok b) bs o =
    let (bs', o', e) = only_error (write (b ++ (10 ∷ [])) bs o) in (bs', o', pour_failed e)

-- `streamSink.Pour`
unfoldable pub pour : Value → ByteSink → Output → ByteSink × Output × Option Err
unfolding encoding_set pour_encoded
pour (bytes b) bs o = only_error (write b bs o)
pour (string t) bs o = only_error (write t (encoding_set type_string bs) o)
pour (raw_message b) bs o = only_error (write b (encoding_set type_json bs) o)
pour (other r) bs o = pour_encoded r (encoding_set type_json bs) o

-- `streamSink.WithReq`
unfoldable pub with_req : ℕ → ByteSink → ByteSink
with_req req bs = record bs { req = req }

-- A duplex is a source and a sink: it reads from the one, and pours into and closes the other.
pub record Duplex : Type 0 where
  pub source : ByteSource
  pub sink : ByteSink

unfoldable pub duplex_next {ℓ} :
    {V : Type ℓ} → (Bytes → ℕ × Result V) → Ready → Duplex → Duplex × Result (Element V)
duplex_next decode ready d =
    let (bs, r) = next_element decode ready d.source in (record d { source = bs }, r)

unfoldable pub duplex_pour : Value → Duplex → Output → Duplex × Output × Option Err
duplex_pour v d o = let (bs, o', e) = pour v d.sink o in (record d { sink = bs }, o', e)

unfoldable pub duplex_close : External → Bool → Duplex → Output → Duplex × Output × Option Err
duplex_close x late d o = let (bs, o', e) = close x late d.sink o in (record d { sink = bs }, o', e)

unfoldable pub duplex_close_with_error :
    External → Bool → Option Err → Duplex → Output → Duplex × Output × Option Err
duplex_close_with_error x late e d o =
    let (bs, o', r) = close_with_error x late e d.sink o in (record d { sink = bs }, o', r)
