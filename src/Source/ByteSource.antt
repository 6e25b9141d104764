-- ===== src/Source/ByteSource.antt =====
-- stream2_source.go, `ByteSource`: the packets that come in for one stream.
--
-- A lock makes each method one step, but `Next` is several: it looks, it waits, and it looks again at
-- the state that it then finds. `none` in a result is a panic: a channel that is closed twice.
use go_muxrpc.Base.{
  ℕ, suc, ◌+◌, ◌≡◌, Bool, true, false, ◌&&◌, ◌||◌, Option, none, some, List, text, ltb, ◌==◌,
  if◌then◌else◌,
}
use go_muxrpc.Errors.{Err, sentinel, eof, canceled, new, wrap, errors_is, Result}
use go_muxrpc.Codec.Stream.{Bytes, Input}
use go_muxrpc.Source.Frames.{FrameBuffer, copy_body, wait_for_more}
use go_muxrpc.Source.Frames
pub mod Life

-- `stream_err` is `streamCtx.Err()`, nil while the context lives. `puts` counts how often the store
-- was handed back to the pool of buffers.
pub record ByteSource : Type 0 where
  pub buf : FrameBuffer
  pub failed : Option Err
  pub is_closed : Bool
  pub hdr_flag : ℕ
  pub stream_err : Option Err
  pub puts : ℕ

unfoldable pub new_byte_source : Option Err → ByteSource
unfolding Frames.empty
new_byte_source ctx = record {
  buf = Frames.empty;
  failed = none;
  is_closed = false;
  hdr_flag = 0;
  stream_err = ctx;
  puts = 0;
}

abbrev pub or_eof : Option Err → Err
or_eof none = sentinel eof
or_eof (some e) = e

unfoldable pub is_failed : ByteSource → Bool
is_failed bs = elim bs.failed [ none ↦ false | some e ↦ true ]

-- `Cancel`
unfoldable pub cancel : Option Err → ByteSource → Option ByteSource
unfolding is_failed
cancel e bs =
    if is_failed bs
    then some bs
    else if bs.is_closed
    then none
    else some (record bs { failed = some (or_eof e); is_closed = true })

abbrev failure : Option Err → Option Err
failure none = none
failure (some e) = if errors_is e eof || errors_is e canceled then none else some e

-- `Err`
unfoldable pub source_err : ByteSource → Option Err
source_err bs = failure bs.failed

-- `consume`: a source that has failed leaves the reader alone.
abbrev pub consume_open : ℕ → ℕ → Input → ByteSource → Input × ByteSource × Option Err
consume_open len flag i bs =
    let (i', fb, e) = copy_body len i bs.buf in (i', record bs { buf = fb; hdr_flag = flag }, e)

unfoldable pub consume : ℕ → ℕ → Input → ByteSource → Input × ByteSource × Option Err
consume len flag i bs = elim bs.failed [
  | some e ↦ (i, bs, some (wrap (text "muxrpc: byte source canceled: ") e))
  | none ↦ consume_open len flag i bs
]

-- What `Next` does under its lock: an answer, or it goes on to wait.
pub data Look : Type 0 where
  answer : Bool → Look
  wait : Look

unfoldable pub next_look : ByteSource → ByteSource × Look
unfolding is_failed
next_look bs =
    if is_failed bs && bs.buf.frames == 0
    then (record bs { puts = suc bs.puts }, answer false)
    else if ltb 0 bs.buf.frames
    then (bs, answer true)
    else (bs, wait)

-- It then asks for a channel, in the state that it finds.
unfoldable pub next_wait : ByteSource → ByteSource × ℕ
next_wait bs = let (fb, ch) = wait_for_more bs.buf in (record bs { buf = fb }, ch)

-- The case of the `select` that fires. Several may be ready at once.
pub data Ready : Type 0 where
  stream_done : Err → Ready
  ctx_done : Err → Ready
  source_closed : Ready
  more_frames : Ready

abbrev fail_if_open : Err → ByteSource → ByteSource
fail_if_open e bs = elim bs.failed [ none ↦ record bs { failed = some e } | some f ↦ bs ]

unfoldable pub next_woken : Ready → ByteSource → ByteSource × Bool
next_woken (stream_done e) bs = (fail_if_open e bs, ltb 0 bs.buf.frames)
next_woken (ctx_done e) bs = (fail_if_open e bs, false)
next_woken source_closed bs = (bs, ltb 0 bs.buf.frames)
next_woken more_frames bs = (bs, true)

unfoldable pub looked : Ready → ByteSource × Look → ByteSource × Bool
unfolding next_woken next_wait
looked r (bs, answer b) = (bs, b)
looked r (bs, wait) = next_woken r (next_wait bs).0

-- `Next` where nothing else happens between its steps.
unfoldable pub next : Ready → ByteSource → ByteSource × Bool
unfolding looked
next r bs = looked r (next_look bs)

-- `Reader` and `Bytes`
unfoldable pub source_reader : (Bytes → ℕ × Option Err) → ByteSource → ByteSource × Option Err
source_reader fn bs = let (fb, e) = Frames.reader fn bs.buf in (record bs { buf = fb }, e)

unfoldable pub source_bytes : ByteSource → ByteSource × Result Bytes
source_bytes bs = let (fb, r) = Frames.bytes bs.buf in (record bs { buf = fb }, r)
