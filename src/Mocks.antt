-- ===== src/Mocks.antt =====
-- stream2_mock.go: a sink and a source for tests.
use go_muxrpc.Base.{
  ◌+◌, ◌%◌, ◌^◌, ◌<◌, ◌≡◌, refl, ap, sym, subst, ◌∙◌, false, Option, none, some, List, [], ◌∷◌,
  ◌++◌, append_assoc, append-nil, length, length-append, All, arith,
}
use go_muxrpc.Errors.{Err, sentinel, eof}
use go_muxrpc.Codec.Stream.{Bytes, Input}
use go_muxrpc.Codec.RoundTrip.Packets.{input}
use go_muxrpc.Source.Frames.{FrameBuffer, empty, copy_body}
use go_muxrpc.Source.Frames.Queue.{Holds, IsFrame, empty-Holds, copy_body-Holds}
use go_muxrpc.Source.ByteSource.{ByteSource, new_byte_source, Ready, next, source_bytes}
use go_muxrpc.Source.Drain.{drain, drain_next, given, oks, bytes_taken, next_more}
use go_muxrpc.Sink.{ByteSink, new_byte_sink}

-- `NewTestSink`: its context never ends.
unfoldable pub new_test_sink : ByteSink
unfolding new_byte_sink
new_test_sink = record (new_byte_sink none) { req = 666 }

unfoldable pub and_copy :
    Input × FrameBuffer × Option Err → (FrameBuffer → Option FrameBuffer) → Option FrameBuffer
and_copy (i, fb, none) next = next fb
and_copy (i, fb, some e) next = none

-- Each body is copied from a reader of its bytes; `none` is a panic.
unfoldable pub copy_bodies : List Bytes → FrameBuffer → Option FrameBuffer
unfolding and_copy
copy_bodies [] fb = some fb
copy_bodies (b ∷ bs) fb =
    and_copy (copy_body (length b % 2 ^ 32) (input b (sentinel eof)) fb) (copy_bodies bs)

abbrev with_buffer : Option FrameBuffer → Option ByteSource
with_buffer none = none
with_buffer (some fb) = some (record (new_byte_source none) { buf = fb })

-- `NewTestSource`
unfoldable pub new_test_source : List Bytes → Option ByteSource
unfolding copy_bodies new_byte_source
new_test_source bodies = with_buffer (copy_bodies bodies empty)

copy_bodies-Holds :
    (bs : List Bytes) (fb : FrameBuffer) (q : List Bytes)
    → Holds fb [] q
    → All IsFrame bs
    → length q + length bs < 2 ^ 32
    → (fb' : FrameBuffer) × (copy_bodies bs fb ≡ some fb') × Holds fb' [] (q ++ bs)
unfolding copy_bodies
copy_bodies-Holds [] fb q h fits few = (fb, refl, subst (Holds fb []) (sym (append-nil q)) h)
copy_bodies-Holds (b ∷ bs) fb q h fits few =
    let small : length b % 2 ^ 32 ≡ length b = omega (arith, fits.0) in
    let (e, i, h') = copy_body-Holds fb [] q b [] (sentinel eof) h fits.0 (omega arith) in
    let step = copy_body (length b) (input (b ++ []) (sentinel eof)) fb in
    let (fb', rest, h'') =
      copy_bodies-Holds bs step.1 (q ++ (b ∷ [])) h' fits.1
        (omega (arith, length-append q (b ∷ []))) in
    (
      fb',
      ap (λ n. and_copy (copy_body n (input b (sentinel eof)) fb) (copy_bodies bs)) small
          ∙ ap (λ c. and_copy (copy_body (length b) (input c (sentinel eof)) fb) (copy_bodies bs))
              (sym (append-nil b))
          ∙ ap (λ r. and_copy (step.0, step.1, r) (copy_bodies bs)) e
          ∙ rest,
      subst (Holds fb' []) (append_assoc q (b ∷ []) bs) h'',
    )

-- As many rounds of a consumer as there are bodies.
drain-Holds :
    (r : Ready) (bs : ByteSource) (rest : Bytes) (q : List Bytes)
    → Holds bs.buf rest q
    → drain (length q) r bs ≡ (oks q, false)
unfolding drain drain_next given oks
drain-Holds r bs rest [] h = refl
drain-Holds r bs rest (b ∷ q) h =
    let (got, h', same) = bytes_taken bs rest b q h in
    rw (next_more r bs (length q) h.counted, got, drain-Holds r (source_bytes bs).0 [] q h') refl

-- A test source is made without a panic of any bodies that are shorter than 2 ^ 32 bytes and fewer than
-- 2 ^ 32, and the loop of a consumer is given exactly these, in order.
pub test_source_gives :
    (r : Ready) (bodies : List Bytes)
    → All IsFrame bodies
    → length bodies < 2 ^ 32
    → (bs : ByteSource) × (new_test_source bodies ≡ some bs)
      × (drain (length bodies) r bs ≡ (oks bodies, false))
unfolding new_test_source
test_source_gives r bodies fits few =
    let (fb, made, h) = copy_bodies-Holds bodies empty [] empty-Holds fits (omega arith) in
    (
      record (new_byte_source none) { buf = fb },
      ap with_buffer made,
      drain-Holds r (record (new_byte_source none) { buf = fb }) [] bodies h,
    )
