-- ===== src/Source/Frames/Script.antt =====
-- Whole runs of a frame buffer against a plain list of bodies.
use go_muxrpc.Base.{
  ℕ, ◌+◌, ◌^◌, ◌<◌, ◌≡◌, refl, List, [], ◌∷◌, ◌++◌, Option, none, length, drop, min,
}
use go_muxrpc.Errors.{Err, sentinel, eof, Result, ok}
use go_muxrpc.Codec.Stream.{Bytes}
use go_muxrpc.Source.Frames.{FrameBuffer, empty, copy_body, reader, bytes}
use go_muxrpc.Source.Frames.Queue.{
  IsFrame, Holds, empty-Holds, copy_body-Holds, reader-Holds, bytes-Holds,
}

-- A packet body comes in, before more bytes on the connection, a consumer reads some of the next body, or all of it is taken.
pub data Op : Type 0 where
  receive : Bytes → Bytes → Op
  read_some : (Bytes → ℕ × Option Err) → Op
  read_whole : Op

pub data Reply : Type 0 where
  received : Bytes → Option Err → Reply
  consumed : Option Err → Reply
  whole : Result Bytes → Reply

pub step : Op → FrameBuffer → FrameBuffer × Reply
step (receive b more) fb =
    let (i, fb', e) = copy_body (length b) (record { bytes = b ++ more; fin = sentinel eof }) fb in
    (fb', received i.bytes e)
step (read_some fn) fb = let (fb', e) = reader fn fb in (fb', consumed e)
step read_whole fb = let (fb', r) = bytes fb in (fb', whole r)

pub run : List Op → FrameBuffer → List Reply
unfolding step
run [] fb = []
run (o ∷ os) fb = (step o fb).1 ∷ run os (step o fb).0

-- The same over a list of bodies, oldest first. A read of the empty list has no reply.
pub replies : List Op → List Bytes → List Reply
replies [] q = []
replies (receive b more ∷ os) q = received more none ∷ replies os (q ++ (b ∷ []))
replies (read_some fn ∷ os) [] = []
replies (read_some fn ∷ os) (b ∷ q) = consumed (fn b).1 ∷ replies os q
replies (read_whole ∷ os) [] = []
replies (read_whole ∷ os) (b ∷ q) = whole (ok b) ∷ replies os q

-- Each read comes when there is a frame, as `Next` says, and bodies and queue fit their counters.
abbrev pub IsTimely : List Op → List Bytes → Type 0
IsTimely [] q = Unit {0}
IsTimely (receive b more ∷ os) q = IsFrame b × (length q + 1 < 2 ^ 32) × IsTimely os (q ++ (b ∷ []))
IsTimely (read_some fn ∷ os) [] = ⊥
IsTimely (read_some fn ∷ os) (b ∷ q) = IsTimely os q
IsTimely (read_whole ∷ os) [] = ⊥
IsTimely (read_whole ∷ os) (b ∷ q) = IsTimely os q

receive-Holds :
    (fb : FrameBuffer) (rest : Bytes) (q : List Bytes) (b more : Bytes)
    → Holds fb rest q
    → IsFrame b
    → length q + 1 < 2 ^ 32
    → ((step (receive b more) fb).1 ≡ received more none)
      × Holds (step (receive b more) fb).0 rest (q ++ (b ∷ []))
unfolding step
receive-Holds fb rest q b more h fits room =
    let (e, i, k) = copy_body-Holds fb rest q b more (sentinel eof) h fits room in
    (λ j. received (i j).bytes (e j), k)

-- From any buffer that holds a queue, a run of the buffer gives the replies of the queue.
run-replies :
    (os : List Op) (fb : FrameBuffer) (rest : Bytes) (q : List Bytes)
    → Holds fb rest q
    → IsTimely os q
    → run os fb ≡ replies os q
unfolding run replies
run-replies [] fb rest q h t = refl
run-replies (receive b more ∷ os) fb rest q h t =
    let (e, k) = receive-Holds fb rest q b more h t.0 t.1 in
    λ j. e j ∷ run-replies os (step (receive b more) fb).0 rest (q ++ (b ∷ [])) k t.2 j
run-replies (read_some fn ∷ os) fb rest [] h t = absurd t
run-replies (read_some fn ∷ os) fb rest (b ∷ q) h t =
    let (e, k) = reader-Holds fb rest b q fn h in
    λ j. consumed (e j) ∷ run-replies os (reader fn fb).0 (drop (min (fn b).0 (length b)) b) q k t j
run-replies (read_whole ∷ os) fb rest [] h t = absurd t
run-replies (read_whole ∷ os) fb rest (b ∷ q) h t =
    let (e, k) = bytes-Holds fb rest b q h in
    λ j. whole (e j) ∷ run-replies os (bytes fb).0 [] q k t j

-- From the empty buffer, whatever comes in and is read, wholly or in part, at moments when there is a
-- frame: every body is taken off the connection, which is
-- left at what follows it, and is delivered once, whole and unmixed, in the order of arrival.
pub run-empty : (os : List Op) → IsTimely os [] → run os empty ≡ replies os []
run-empty os t = run-replies os empty [] [] empty-Holds t
