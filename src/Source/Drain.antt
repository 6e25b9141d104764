-- ===== src/Source/Drain.antt =====
-- The loop of a consumer, `for src.Next(ctx) { b, err := src.Bytes() }`, as request.go, rwc.go and
-- the callers of the library write it.
use go_muxrpc.Base.{
  ℕ, zero, suc, ◌≡◌, refl, ◌∙◌, Bool, true, false, some, List, [], ◌∷◌, length, ltb, ◌==◌, arith,
  Bool-cases, ==_ne, inl, inr,
}
use go_muxrpc.Errors.{Err, Result, ok}
use go_muxrpc.Codec.Stream.{Bytes}
use go_muxrpc.Source.Frames.Queue.{Holds, bytes-Holds}
use go_muxrpc.Source.ByteSource.{
  ByteSource, answer, Ready, next, next_look, is_failed, source_bytes,
}

-- What the consumer has been given, and whether the loop came to its end.
unfoldable pub given :
    (ByteSource → List (Result Bytes) × Bool)
    → ByteSource × Result Bytes
    → List (Result Bytes) × Bool
given rest (bs, r) = let (rs, ended) = rest bs in (r ∷ rs, ended)

unfoldable pub drain_next :
    (ByteSource → List (Result Bytes) × Bool) → ByteSource × Bool → List (Result Bytes) × Bool
unfolding given
drain_next rest (bs, false) = ([], true)
drain_next rest (bs, true) = given rest (source_bytes bs)

-- The loop, for at most so many rounds. `r` is the case by which a `Next` that waits is woken.
unfoldable pub drain : ℕ → Ready → ByteSource → List (Result Bytes) × Bool
unfolding drain_next
drain zero r bs = ([], false)
drain (suc n) r bs = drain_next (drain n r) (next r bs)

unfoldable pub oks : List Bytes → List (Result Bytes)
oks [] = []
oks (b ∷ q) = ok b ∷ oks q

pub bytes_taken :
    (bs : ByteSource) (rest b : Bytes) (q : List Bytes)
    → Holds bs.buf rest (b ∷ q)
    → ((source_bytes bs).1 ≡ ok b)
      × Holds (source_bytes bs).0.buf [] q
      × ((source_bytes bs).0.failed ≡ bs.failed)
unfolding source_bytes
bytes_taken bs rest b q h = let (got, h') = bytes-Holds bs.buf rest b q h in (got, h', refl)

pub next_ended :
    (r : Ready) (bs : ByteSource) (e : Err)
    → bs.failed ≡ some e
    → bs.buf.frames ≡ 0
    → next r bs ≡ (record bs { puts = suc bs.puts }, false)
unfolding next next_look is_failed
next_ended r bs e f z = rw (f, z) refl

look_more : (bs : ByteSource) (n : ℕ) → bs.buf.frames ≡ suc n → next_look bs ≡ (bs, answer true)
unfolding next_look
look_more bs n z =
    let nonzero : (bs.buf.frames == 0) ≡ false = ==_ne bs.buf.frames 0 (omega arith) in
    let positive : ltb 0 bs.buf.frames ≡ true = ground arith in
    elim (Bool-cases (is_failed bs)) [
      | inl f ↦ rw (f, nonzero, positive) refl
      | inr f ↦ rw (f, positive) refl
    ]

pub next_more :
    (r : Ready) (bs : ByteSource) (n : ℕ) → bs.buf.frames ≡ suc n → next r bs ≡ (bs, true)
unfolding next
next_more r bs n z = rw (look_more bs n z) refl

-- After a source has failed or was cancelled, a consumer is still given every body that had arrived, in
-- the order of arrival, and the loop then ends.
pub drain_failed :
    (r : Ready) (bs : ByteSource) (e : Err) (rest : Bytes) (q : List Bytes)
    → bs.failed ≡ some e
    → Holds bs.buf rest q
    → drain (suc (length q)) r bs ≡ (oks q, true)
unfolding drain drain_next given oks
drain_failed r bs e rest [] f h = rw (next_ended r bs e f h.counted) refl
drain_failed r bs e rest (b ∷ q) f h =
    let (got, h', same) = bytes_taken bs rest b q h in
    rw
      (
        next_more r bs (length q) h.counted,
        got,
        drain_failed r (source_bytes bs).0 e [] q (same ∙ f) h',
      )
      refl
