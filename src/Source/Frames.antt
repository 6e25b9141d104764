-- ===== src/Source/Frames.antt =====
-- stream2_source.go, `frameBuffer`: the bodies of packets in one byte buffer, each behind its length.
--
-- `frames` and the two counters of the current frame are uint32. A channel is a number: those that
-- are handed out and not closed stand in `waiting`, in the order of the calls, and `woken` has an entry
-- for each `close` of a channel, so that a second entry of one channel is where Go panics.
use go_muxrpc.Base.{
  ℕ, suc, ◌+◌, ◌-◌, ◌*◌, ◌/◌, ◌%◌, ◌^◌, ◌<◌, ◌≡◌, Bool, true, false, List, [], ◌∷◌, ◌++◌, Option,
  none, some, length, take, drop, text, ltb, min, ◌==◌, if◌then◌else◌, arith,
}
use go_muxrpc.Errors.{Err, sentinel, eof, new, wrap, Result, ok, err}
use go_muxrpc.Codec.Stream.{Bytes, Input, copy_n}
pub mod Queue
pub mod Channels
pub mod Script

pub record FrameBuffer : Type 0 where
  pub store : Bytes
  pub waiting : List ℕ
  pub woken : List ℕ
  pub next_channel : ℕ
  pub current_total : ℕ
  pub current_read : ℕ
  pub frames : ℕ
  pub len_buf : Bytes

unfoldable pub empty : FrameBuffer
empty = record {
  store = [];
  waiting = [];
  woken = [];
  next_channel = 0;
  current_total = 0;
  current_read = 0;
  frames = 0;
  len_buf = 0 ∷ 0 ∷ 0 ∷ 0 ∷ [];
}

-- `binary.LittleEndian.PutUint32` and `Uint32`.
unfoldable pub le32 : ℕ → Bytes
le32 w = (w % 256) ∷ (w / 2 ^ 8 % 256) ∷ (w / 2 ^ 16 % 256) ∷ (w / 2 ^ 24 % 256) ∷ []

unfoldable pub from_le : Bytes → ℕ
from_le [] = 0
from_le (b ∷ bs) = b + 256 * from_le bs

-- All waiting channels are closed.
unfoldable pub wake : FrameBuffer → FrameBuffer
wake fb = record fb { waiting = []; woken = fb.woken ++ fb.waiting }

unfoldable pub copied : FrameBuffer → ℕ → ℕ → Option Err → FrameBuffer × Option Err
unfolding wake
copied fb n len (some e) = (fb, some e)
copied fb n len none =
    if n % 2 ^ 32 == len
    then (wake (record fb { frames = (fb.frames + 1) % 2 ^ 32 }), none)
    else (fb, some (new (text "frameBuffer: failed to consume whole body")))

-- `copyBody(pktLen, rd)`, where `rd` delivers at most `pktLen` bytes of the input.
unfoldable pub copy_body : ℕ → Input → FrameBuffer → Input × FrameBuffer × Option Err
unfolding copied
copy_body len i fb =
    let (i', b, e) = copy_n len i in
    let (fb', r) =
      copied (record fb { store = fb.store ++ (le32 len ++ b); len_buf = le32 len }) (length b) len
        e in
    (i', fb', r)

-- `waitForMore`: a new channel, which is closed already if there are frames.
unfoldable pub wait_for_more : FrameBuffer → FrameBuffer × ℕ
wait_for_more fb =
    let ch = fb.next_channel in
    if ltb 0 fb.frames
    then (record fb { next_channel = suc ch; woken = fb.woken ++ (ch ∷ []) }, ch)
    else (record fb { next_channel = suc ch; waiting = fb.waiting ++ (ch ∷ []) }, ch)

-- What is left of the current frame is skipped.
unfoldable pub skip_rest : FrameBuffer → Bytes
skip_rest fb =
    if fb.current_total == 0
    then fb.store
    else drop ((fb.current_total + 2 ^ 32 - fb.current_read) % 2 ^ 32) fb.store

-- `bytes.Buffer.Read` into the four bytes of `lenBuf`, which keep what is not overwritten.
unfoldable pub read_len : Bytes → FrameBuffer → FrameBuffer × Result ℕ
unfolding from_le
read_len [] fb = (
  record fb { store = [] },
  err (wrap (text "muxrpc: didnt get length of next body: ") (sentinel eof)),
)
read_len (b ∷ bs) fb =
    let s = b ∷ bs in
    let buf = take 4 s ++ drop (length (take 4 s)) fb.len_buf in
    let len = from_le buf in
    (
      record fb {
        store = drop 4 s;
        len_buf = buf;
        current_read = 0;
        current_total = len;
        frames = (fb.frames + (2 ^ 32 - 1)) % 2 ^ 32;
      },
      ok len,
    )

unfoldable pub next_frame : FrameBuffer → FrameBuffer × Result ℕ
unfolding read_len skip_rest
next_frame fb = read_len (skip_rest fb) fb

-- `k` bytes are read through the counting reader of the current frame.
unfoldable pub count_read : ℕ → FrameBuffer → FrameBuffer
count_read k fb = record fb {
  store = drop k fb.store;
  current_read = (fb.current_read + k) % 2 ^ 32;
}

-- What the limited reader of a frame delivers in all.
abbrev pub frame_body : ℕ → FrameBuffer → Bytes
frame_body len fb = take len fb.store

-- `ByteSource.Reader`: `fn` is given the frame, and says how much of it it has read.
unfoldable pub read_with :
    (Bytes → ℕ × Option Err) → FrameBuffer × Result ℕ → FrameBuffer × Option Err
unfolding count_read
read_with fn (fb, err e) = (fb, some e)
read_with fn (fb, ok len) =
    let (k, e) = fn (frame_body len fb) in (count_read (min k (length (frame_body len fb))) fb, e)

unfoldable pub reader : (Bytes → ℕ × Option Err) → FrameBuffer → FrameBuffer × Option Err
unfolding read_with
reader fn fb = read_with fn (next_frame fb)

-- `ByteSource.Bytes`: `ioutil.ReadAll` of the frame.
unfoldable pub read_all_of : FrameBuffer × Result ℕ → FrameBuffer × Result Bytes
unfolding count_read
read_all_of (fb, err e) = (fb, err e)
read_all_of (fb, ok len) = (count_read (length (frame_body len fb)) fb, ok (frame_body len fb))

unfoldable pub bytes : FrameBuffer → FrameBuffer × Result Bytes
unfolding read_all_of
bytes fb = read_all_of (next_frame fb)
