-- ===== src/Source/ByteSource/Life.antt =====
-- The life of a source under any sequence of steps of its users and of the session.
use go_muxrpc.Base.{
  ℕ, ◌≡◌, refl, subst, true, ◌&&◌, ltb, ◌==◌, Option, none, some, List, [], ◌∷◌, if◌then◌else◌,
  arith, Bool-cases, Option-cases, inl, inr,
}
use go_muxrpc.Errors.{Err}
use go_muxrpc.Codec.Stream.{Bytes, Input}
use go_muxrpc.Source.Frames.Channels.{
  ClosedOnce, empty-ClosedOnce, copy_body-ClosedOnce, wait-ClosedOnce, reader-ClosedOnce,
  bytes-ClosedOnce,
}
use go_muxrpc.Source.ByteSource.{
  or_eof, ByteSource, new_byte_source, cancel, consume, next_look, next_wait, next_woken, Ready,
  stream_done, ctx_done, source_closed, more_frames, is_failed, source_reader, source_bytes,
}

pub data Step : Type 0 where
  cancels : Option Err → Step
  consumes : ℕ → ℕ → Input → Step
  looks : Step
  waits : Step
  wakes : Ready → Step
  reads : (Bytes → ℕ × Option Err) → Step
  takes : Step

unfoldable pub step : Step → ByteSource → Option ByteSource
step (cancels e) bs = cancel e bs
step (consumes len flag i) bs = some (consume len flag i bs).1
step looks bs = some (next_look bs).0
step waits bs = some (next_wait bs).0
step (wakes r) bs = some (next_woken r bs).0
step (reads fn) bs = some (source_reader fn bs).0
step takes bs = some (source_bytes bs).0

bind : Option ByteSource → (ByteSource → Option ByteSource) → Option ByteSource
bind none f = none
bind (some bs) f = f bs

unfoldable pub run : List Step → ByteSource → Option ByteSource
unfolding bind
run [] bs = some bs
run (s ∷ ss) bs = bind (step s bs) (run ss)

-- The channel is closed only by the step that sets the error.
pub record IsSound (bs : ByteSource) : Type 0 where
  pub closed_failed : bs.is_closed ≡ true → is_failed bs ≡ true

-- After the step, the source is sound, and an error that was there still is.
pub record Keeps (bs bs' : ByteSource) : Type 0 where
  pub sound : IsSound bs'
  pub first_error : (e : Err) → bs.failed ≡ some e → bs'.failed ≡ some e

abbrev pub cancelled : Option Err → ByteSource → ByteSource
cancelled e bs =
    if is_failed bs then bs else record bs { failed = some (or_eof e); is_closed = true }

pub cancel-some :
    (e : Option Err) (bs : ByteSource) → IsSound bs → cancel e bs ≡ some (cancelled e bs)
unfolding cancel
cancel-some e bs h = ground (arith, h.closed_failed)

cancelled-Keeps : (e : Option Err) (bs : ByteSource) → IsSound bs → Keeps bs (cancelled e bs)
unfolding is_failed
cancelled-Keeps e bs h = ground arith

consume-Keeps :
    (len flag : ℕ) (i : Input) (bs : ByteSource) → IsSound bs → Keeps bs (consume len flag i bs).1
unfolding consume is_failed
consume-Keeps len flag i bs h = ground arith

look-Keeps : (bs : ByteSource) → IsSound bs → Keeps bs (next_look bs).0
unfolding next_look
look-Keeps bs h = ground arith

wait-Keeps : (bs : ByteSource) → IsSound bs → Keeps bs (next_wait bs).0
unfolding next_wait is_failed
wait-Keeps bs h = ground arith

woken-Keeps : (r : Ready) (bs : ByteSource) → IsSound bs → Keeps bs (next_woken r bs).0
unfolding next_woken is_failed
woken-Keeps (stream_done e) bs h = ground arith
woken-Keeps (ctx_done e) bs h = ground arith
woken-Keeps source_closed bs h = ground arith
woken-Keeps more_frames bs h = ground arith

reader-Keeps :
    (fn : Bytes → ℕ × Option Err) (bs : ByteSource) → IsSound bs → Keeps bs (source_reader fn bs).0
unfolding source_reader is_failed
reader-Keeps fn bs h = ground arith

bytes-Keeps : (bs : ByteSource) → IsSound bs → Keeps bs (source_bytes bs).0
unfolding source_bytes is_failed
bytes-Keeps bs h = ground arith

pub step-Keeps :
    (s : Step) (bs : ByteSource)
    → IsSound bs
    → (bs' : ByteSource) × (step s bs ≡ some bs') × Keeps bs bs'
unfolding step
step-Keeps (cancels e) bs h = (cancelled e bs, cancel-some e bs h, cancelled-Keeps e bs h)
step-Keeps (consumes len flag i) bs h = (_, refl, consume-Keeps len flag i bs h)
step-Keeps looks bs h = (_, refl, look-Keeps bs h)
step-Keeps waits bs h = (_, refl, wait-Keeps bs h)
step-Keeps (wakes r) bs h = (_, refl, woken-Keeps r bs h)
step-Keeps (reads fn) bs h = (_, refl, reader-Keeps fn bs h)
step-Keeps takes bs h = (_, refl, bytes-Keeps bs h)

becomes :
    {bs : ByteSource} (bs' : ByteSource)
    → some bs ≡ some bs'
    → ClosedOnce bs.buf
    → ClosedOnce bs'.buf
becomes {bs} bs' h k =
    let same : bs ≡ bs' = ground (arith, h) in subst (λ (b : ByteSource). ClosedOnce b.buf) same k

cancel-ClosedOnce :
    (e : Option Err) (bs bs' : ByteSource)
    → cancel e bs ≡ some bs'
    → ClosedOnce bs.buf
    → ClosedOnce bs'.buf
unfolding cancel
cancel-ClosedOnce e bs bs' h k = elim (Bool-cases (is_failed bs)) [
  | inl f ↦ becomes bs' (rw f at h) k
  | inr f ↦ elim (Bool-cases bs.is_closed) [
    | inl c ↦ absurd (cc (rw (f, c) at h))
    | inr c ↦
        becomes {bs = record bs { failed = some (or_eof e); is_closed = true }} bs' (rw (f, c) at h)
          k
  ]
]

consume-ClosedOnce :
    (len flag : ℕ) (i : Input) (bs : ByteSource)
    → ClosedOnce bs.buf
    → ClosedOnce (consume len flag i bs).1.buf
unfolding consume
consume-ClosedOnce len flag i bs k = elim (Option-cases bs.failed) [
  | inl f ↦ rw f (copy_body-ClosedOnce len i bs.buf k)
  | inr (e, f) ↦ rw f k
]

look-ClosedOnce : (bs : ByteSource) → ClosedOnce bs.buf → ClosedOnce (next_look bs).0.buf
unfolding next_look
look-ClosedOnce bs k = elim (Bool-cases (is_failed bs && bs.buf.frames == 0)) [
  | inl m ↦ rw m k
  | inr m ↦ elim (Bool-cases (ltb 0 bs.buf.frames)) [ inl l ↦ rw (m, l) k | inr l ↦ rw (m, l) k ]
]

source_wait-ClosedOnce : (bs : ByteSource) → ClosedOnce bs.buf → ClosedOnce (next_wait bs).0.buf
unfolding next_wait
source_wait-ClosedOnce bs k = wait-ClosedOnce bs.buf k

woken-ClosedOnce :
    (r : Ready) (bs : ByteSource) → ClosedOnce bs.buf → ClosedOnce (next_woken r bs).0.buf
unfolding next_woken
woken-ClosedOnce (stream_done e) bs k = elim (Option-cases bs.failed) [
  | inl f ↦ rw f k
  | inr (g, f) ↦ rw f k
]
woken-ClosedOnce (ctx_done e) bs k = elim (Option-cases bs.failed) [
  | inl f ↦ rw f k
  | inr (g, f) ↦ rw f k
]
woken-ClosedOnce source_closed bs k = k
woken-ClosedOnce more_frames bs k = k

source_reader-ClosedOnce :
    (fn : Bytes → ℕ × Option Err) (bs : ByteSource)
    → ClosedOnce bs.buf
    → ClosedOnce (source_reader fn bs).0.buf
unfolding source_reader
source_reader-ClosedOnce fn bs k = reader-ClosedOnce fn bs.buf k

source_bytes-ClosedOnce : (bs : ByteSource) → ClosedOnce bs.buf → ClosedOnce (source_bytes bs).0.buf
unfolding source_bytes
source_bytes-ClosedOnce bs k = bytes-ClosedOnce bs.buf k

-- No step closes a channel of the frame buffer twice.
step-ClosedOnce :
    (s : Step) (bs bs' : ByteSource) → step s bs ≡ some bs' → ClosedOnce bs.buf → ClosedOnce bs'.buf
unfolding step
step-ClosedOnce (cancels e) bs bs' h k = cancel-ClosedOnce e bs bs' h k
step-ClosedOnce (consumes len flag i) bs bs' h k =
    becomes bs' h (consume-ClosedOnce len flag i bs k)
step-ClosedOnce looks bs bs' h k = becomes bs' h (look-ClosedOnce bs k)
step-ClosedOnce waits bs bs' h k = becomes bs' h (source_wait-ClosedOnce bs k)
step-ClosedOnce (wakes r) bs bs' h k = becomes bs' h (woken-ClosedOnce r bs k)
step-ClosedOnce (reads fn) bs bs' h k = becomes bs' h (source_reader-ClosedOnce fn bs k)
step-ClosedOnce takes bs bs' h k = becomes bs' h (source_bytes-ClosedOnce bs k)

-- In any order of steps from a sound source whose frame buffer has closed no channel twice: the channel
-- of the source is not closed twice, which would be a panic, nor is a channel of the frame buffer; the
-- source stays sound, and the first error that it was given stays.
pub run-Keeps :
    (ss : List Step) (bs : ByteSource)
    → IsSound bs
    → ClosedOnce bs.buf
    → (bs' : ByteSource) × (run ss bs ≡ some bs') × Keeps bs bs' × ClosedOnce bs'.buf
unfolding run
run-Keeps [] bs h k = (bs, refl, record { sound = h; first_error = λ e p. p }, k)
run-Keeps (s ∷ ss) bs h k =
    let (b, e, m) = step-Keeps s bs h in
    let (b', e', m', k') = run-Keeps ss b m.sound (step-ClosedOnce s bs b e k) in
    (
      b',
      rw e e',
      record { sound = m'.sound; first_error = λ x p. m'.first_error x (m.first_error x p) },
      k',
    )

pub new-IsSound : (ctx : Option Err) → IsSound (new_byte_source ctx)
unfolding new_byte_source
new-IsSound ctx = ground arith

pub new-ClosedOnce : (ctx : Option Err) → ClosedOnce (new_byte_source ctx).buf
unfolding new_byte_source
new-ClosedOnce ctx = empty-ClosedOnce
