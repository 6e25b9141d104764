-- ===== src/Source/Frames/Channels.antt =====
-- The channels that `frameBuffer` hands out and closes.
use go_muxrpc.Base.{
  ℕ, suc, ◌+◌, ◌≤◌, ◌≡◌, Option, none, some, List, [], ◌∷◌, ◌++◌, ◌==◌, ltb, ◌%◌, ◌^◌,
  if◌then◌else◌, arith, Bool-cases, inl, inr,
}
use go_muxrpc.Errors.{Err, Result, ok, err}
use go_muxrpc.Codec.Stream.{Bytes, Input, copy_n}
use go_muxrpc.Source.Frames.{
  FrameBuffer, empty, wake, copied, copy_body, wait_for_more, skip_rest, read_len, next_frame,
  count_read, read_with, reader, read_all_of, bytes,
}

-- How often a channel stands in a list.
unfoldable pub times : ℕ → List ℕ → ℕ
times c [] = 0
times c (x ∷ xs) = let rest = times c xs in if x == c then suc rest else rest

times-append : (c : ℕ) (xs ys : List ℕ) → times c (xs ++ ys) ≡ times c xs + times c ys
unfolding times
times-append c [] ys = omega arith
times-append c (x ∷ xs) ys = ground (arith, times-append c xs ys)

-- Every channel was closed at most once, one that waits was not closed and waits once, and the numbers
-- from the next one on are those of no channel.
pub record ClosedOnce (fb : FrameBuffer) : Type 0 where
  pub once : (c : ℕ) → times c fb.woken + times c fb.waiting ≤ 1
  pub unmade : (c : ℕ) → fb.next_channel ≤ c → times c fb.woken + times c fb.waiting ≡ 0

pub empty-ClosedOnce : ClosedOnce empty
unfolding empty times
empty-ClosedOnce = record { once = λ c. omega arith; unmade = λ c h. omega arith }

wake-ClosedOnce : (fb : FrameBuffer) → ClosedOnce fb → ClosedOnce (wake fb)
unfolding wake times
wake-ClosedOnce fb k = record {
  once = λ c. omega (arith, k.once c, times-append c fb.woken fb.waiting);
  unmade = λ c h. omega (arith, k.unmade c h, times-append c fb.woken fb.waiting);
}

copied-ClosedOnce :
    (fb : FrameBuffer) (n len : ℕ) (e : Option Err)
    → ClosedOnce fb
    → ClosedOnce (copied fb n len e).0
unfolding copied
copied-ClosedOnce fb n len (some e) k = k
copied-ClosedOnce fb n len none k = elim (Bool-cases (n % 2 ^ 32 == len)) [
  | inl m ↦ rw m (
      wake-ClosedOnce (record fb { frames = (fb.frames + 1) % 2 ^ 32 })
        (record { once = k.once; unmade = k.unmade }))
  | inr m ↦ rw m k
]

pub copy_body-ClosedOnce :
    (len : ℕ) (i : Input) (fb : FrameBuffer) → ClosedOnce fb → ClosedOnce (copy_body len i fb).1
unfolding copy_body
copy_body-ClosedOnce len i fb k =
    copied-ClosedOnce _ _ len (copy_n len i).2 (record { once = k.once; unmade = k.unmade })

-- The list of one new channel, behind another list.
times_new :
    (c ch : ℕ) (xs : List ℕ) → times c (xs ++ (ch ∷ [])) ≡ times c xs + (if ch == c then 1 else 0)
unfolding times
times_new c ch xs = ground (arith, times-append c xs (ch ∷ []))

pub wait-ClosedOnce : (fb : FrameBuffer) → ClosedOnce fb → ClosedOnce (wait_for_more fb).0
unfolding wait_for_more
wait-ClosedOnce fb k = elim (Bool-cases (ltb 0 fb.frames)) [
  | inl m ↦ rw m (record {
    once = λ c. ground (arith, k.once c, k.unmade c, times_new c fb.next_channel fb.woken);
    unmade = λ c h. ground (arith, k.unmade c, times_new c fb.next_channel fb.woken);
  })
  | inr m ↦ rw m (record {
    once = λ c. ground (arith, k.once c, k.unmade c, times_new c fb.next_channel fb.waiting);
    unmade = λ c h. ground (arith, k.unmade c, times_new c fb.next_channel fb.waiting);
  })
]

-- Reading does not touch the channels.
read_len-ClosedOnce : (l : Bytes) (fb : FrameBuffer) → ClosedOnce fb → ClosedOnce (read_len l fb).0
unfolding read_len
read_len-ClosedOnce [] fb k = record { once = k.once; unmade = k.unmade }
read_len-ClosedOnce (b ∷ bs) fb k = record { once = k.once; unmade = k.unmade }

next_frame-ClosedOnce : (fb : FrameBuffer) → ClosedOnce fb → ClosedOnce (next_frame fb).0
unfolding next_frame
next_frame-ClosedOnce fb k = read_len-ClosedOnce (skip_rest fb) fb k

read_with-ClosedOnce :
    (fn : Bytes → ℕ × Option Err) (t : FrameBuffer × Result ℕ)
    → ClosedOnce t.0
    → ClosedOnce (read_with fn t).0
unfolding read_with count_read
read_with-ClosedOnce fn (fb, err e) k = k
read_with-ClosedOnce fn (fb, ok len) k = record { once = k.once; unmade = k.unmade }

read_all_of-ClosedOnce :
    (t : FrameBuffer × Result ℕ) → ClosedOnce t.0 → ClosedOnce (read_all_of t).0
unfolding read_all_of count_read
read_all_of-ClosedOnce (fb, err e) k = k
read_all_of-ClosedOnce (fb, ok len) k = record { once = k.once; unmade = k.unmade }

pub reader-ClosedOnce :
    (fn : Bytes → ℕ × Option Err) (fb : FrameBuffer) → ClosedOnce fb → ClosedOnce (reader fn fb).0
unfolding reader
reader-ClosedOnce fn fb k = read_with-ClosedOnce fn (next_frame fb) (next_frame-ClosedOnce fb k)

pub bytes-ClosedOnce : (fb : FrameBuffer) → ClosedOnce fb → ClosedOnce (bytes fb).0
unfolding bytes
bytes-ClosedOnce fb k = read_all_of-ClosedOnce (next_frame fb) (next_frame-ClosedOnce fb k)
