-- ===== src/Source/Reader.antt =====
-- rwc.go, `srcReader`: the bodies of a source as one stream of bytes.
use go_muxrpc.Base.{
  joined, ℕ, zero, suc, ◌+◌, ◌≤◌, ◌<◌, ◌≡◌, refl, ap, sym, ◌∙◌, Bool, true, false, Option, none,
  some, List, [], ◌∷◌, ◌++◌, append_assoc, text, take, drop, length, length-append, ◌⊎◌, inl, inr,
  length-drop, take-append-drop, if◌then◌else◌, arith,
}
use go_muxrpc.Errors.{Err, sentinel, eof, wrap, errors_is, Result, ok, err}
use go_muxrpc.Codec.Stream.{Bytes}
use go_muxrpc.Source.Frames.Queue.{Holds}
use go_muxrpc.Source.ByteSource.{ByteSource, Ready, next, source_bytes, source_err}
use go_muxrpc.Source.Drain.{bytes_taken, next_ended, next_more}

-- The error of `Read` after the last body.
unfoldable pub reader_error : Option Err → Err
unfolding errors_is
reader_error none = sentinel eof
reader_error (some e) =
    if errors_is e eof then sentinel eof else wrap (text "muxrpc: error getting next block: ") e

-- What a read leaves, `src` and `buf`, and what it has copied.
abbrev pub Copied : Type 0
Copied = ByteSource × Bytes × Result Bytes

unfoldable pub with_body :
    (Bytes → ByteSource → Option Copied) → ByteSource × Result Bytes → Option Copied
with_body again (src, err e) = some (src, [], err e)
with_body again (src, ok b) = again b src

unfoldable pub with_next : (Bytes → ByteSource → Option Copied) → ByteSource × Bool → Option Copied
unfolding with_body reader_error
with_next again (src, false) = some (src, [], err (reader_error (source_err src)))
with_next again (src, true) = with_body again (source_bytes src)

-- `srcReader.Read` into `n` bytes. Each call of `Next` takes one of the cases that wake it; `none` is
-- that there are too few of them.
unfoldable pub read_source : List Ready → ℕ → Bytes → ByteSource → Option Copied
unfolding with_next
read_source rs n (b ∷ buf) src = some (src, drop n (b ∷ buf), ok (take n (b ∷ buf)))
read_source [] n [] src = none
read_source (r ∷ rs) n [] src = with_next (read_source rs n) (next r src)

-- `io.ReadAll` over such reads of `n` bytes, at most so many, each with the cases `rs`: the bytes and the
-- error that ended it.
unfoldable pub more_copied :
    (Bytes → ByteSource → Option (Bytes × Err)) → Option Copied → Option (Bytes × Err)
more_copied again none = none
more_copied again (some (src, buf, err e)) = some ([], e)
more_copied again (some (src, buf, ok b)) = elim (again buf src) [
  | none ↦ none
  | some (rest, e) ↦ some (b ++ rest, e)
]

unfoldable pub read_source_all : ℕ → List Ready → ℕ → Bytes → ByteSource → Option (Bytes × Err)
unfolding more_copied
read_source_all zero rs n buf src = none
read_source_all (suc k) rs n buf src =
    more_copied (read_source_all k rs n) (read_source rs n buf src)

-- One read where bodies are left, or none: how the source goes on.
record Reads (rest : Bytes) (q : List Bytes) (e : Err) (n : ℕ) (buf : Bytes) (src : ByteSource)
    (rs : List Ready) : Type 0 where
  src' : ByteSource
  buf' : Bytes
  rest' : Bytes
  q' : List Bytes
  chunk : Bytes
  got : read_source rs n buf src ≡ some (src', buf', ok chunk)
  holds : Holds src'.buf rest' q'
  failed : src'.failed ≡ some e
  same : chunk ++ (buf' ++ joined q') ≡ buf ++ joined q
  fewer : length q' ≤ length q
  shorter : suc (length buf' + length (joined q')) ≤ length buf + length (joined q)

-- One read where nothing is left.
record Ends (q : List Bytes) (n : ℕ) (buf : Bytes) (src : ByteSource) (rs : List Ready)
    : Type 0 where
  nothing : [] ≡ buf ++ joined q
  src' : ByteSource
  ended : read_source rs n buf src ≡ some (src', [], err (reader_error (source_err src)))

copy-Reads :
    (rest : Bytes) (q : List Bytes) (e : Err) (k b : ℕ) (buf : Bytes) (src : ByteSource)
    (rs : List Ready)
    → Holds src.buf rest q
    → src.failed ≡ some e
    → Reads rest q e (suc k) (b ∷ buf) src rs
unfolding read_source
copy-Reads rest q e k b buf src rs h f = record {
  src' = src;
  buf' = drop (suc k) (b ∷ buf);
  rest' = rest;
  q' = q;
  chunk = take (suc k) (b ∷ buf);
  got = refl;
  holds = h;
  failed = f;
  same =
      sym (append_assoc (take (suc k) (b ∷ buf)) (drop (suc k) (b ∷ buf)) (joined q))
      ∙ ap (λ t. t ++ joined q) (take-append-drop (suc k) (b ∷ buf));
  fewer = omega arith;
  shorter = omega (arith, length-drop k buf);
}

source_err_same : (bs cs : ByteSource) → bs.failed ≡ cs.failed → source_err bs ≡ source_err cs
unfolding source_err
source_err_same bs cs f = rw f refl

read_last :
    (r : Ready) (rs : List Ready) (n : ℕ) (src : ByteSource) (e : Err)
    → src.failed ≡ some e
    → src.buf.frames ≡ 0
    → read_source (r ∷ rs) n [] src
      ≡ some (record src { puts = suc src.puts }, [], err (reader_error (source_err src)))
unfolding read_source source_err
read_last r rs n src e f z = ap (with_next (read_source rs n)) (next_ended r src e f z)

read_body_next :
    (r : Ready) (rs : List Ready) (n : ℕ) (src : ByteSource) (b : Bytes) (m : ℕ)
    → src.buf.frames ≡ suc m
    → (source_bytes src).1 ≡ ok b
    → read_source (r ∷ rs) n [] src ≡ read_source rs n b (source_bytes src).0
unfolding read_source
read_body_next r rs n src b m z got =
    ap (with_next (read_source rs n)) (next_more r src m z)
    ∙ ap (λ t. with_body (read_source rs n) ((source_bytes src).0, t)) got

Outcome : Bytes → List Bytes → Err → ℕ → Bytes → ByteSource → List Ready → Type 0
Outcome rest q e n buf src rs = Reads rest q e n buf src rs ⊎ Ends q n buf src rs

one_read :
    (k : ℕ) (q : List Bytes) (rs : List Ready) (rest : Bytes) (e : Err) (buf : Bytes)
    (src : ByteSource)
    → Holds src.buf rest q
    → src.failed ≡ some e
    → length q < length rs
    → Outcome rest q e (suc k) buf src rs
unfolding Outcome
one_read k q rs rest e (b ∷ buf) src h f lt = inl (copy-Reads rest q e k b buf src rs h f)
one_read k q [] rest e [] src h f lt = absurd (omega arith)
one_read k [] (r ∷ rs) rest e [] src h f lt =
    inr (record { nothing = refl; src' = _; ended = read_last r rs (suc k) src e f h.counted })
one_read k (b ∷ q) (r ∷ rs) rest e [] src h f lt =
    let (got, h', same) = bytes_taken src rest b q h in
    let through = read_body_next r rs (suc k) src b (length q) h.counted got in
    elim (one_read k q rs [] e b (source_bytes src).0 h' (same ∙ f) (omega arith)) [
      | inl o ↦ inl (record {
        src' = o.src';
        buf' = o.buf';
        rest' = o.rest';
        q' = o.q';
        chunk = o.chunk;
        got = through ∙ o.got;
        holds = o.holds;
        failed = o.failed;
        same = o.same;
        fewer = omega (arith, o.fewer);
        shorter = omega (arith, o.shorter, length-append b (joined q));
      })
      | inr o ↦ inr (record {
        nothing = o.nothing;
        src' = o.src';
        ended =
            through
            ∙ o.ended
            ∙ ap (λ t. some (o.src', [], err (reader_error t)))
                (source_err_same (source_bytes src).0 src same);
      })
    ]

continued :
    (again : Bytes → ByteSource → Option (Bytes × Err)) (src : ByteSource) (buf chunk rest : Bytes)
    (e : Err)
    → again buf src ≡ some (rest, e)
    → more_copied again (some (src, buf, ok chunk)) ≡ some (chunk ++ rest, e)
unfolding more_copied
continued again src buf chunk rest e q = rw (q, more_copied) refl

-- From a source that has failed or was cancelled, reads of at least one byte each give first
-- what is left in the buffer and then the bytes of all bodies that had arrived, in order and
-- joined, and then the error that Read makes of that of the source: enough reads are one for
-- each byte and one more, if each can wait as often as there are bodies and once more.
pub read_source_all_lem :
    (m k : ℕ) (q : List Bytes) (rs : List Ready) (rest : Bytes) (e : Err) (buf : Bytes)
    (src : ByteSource)
    → Holds src.buf rest q
    → src.failed ≡ some e
    → length q < length rs
    → length buf + length (joined q) < m
    → read_source_all m rs (suc k) buf src ≡ some (buf ++ joined q, reader_error (source_err src))
unfolding read_source_all Outcome
read_source_all_lem zero k q rs rest e buf src h f lt fuel = absurd (omega arith)
read_source_all_lem (suc m) k q rs rest e buf src h f lt fuel =
    elim (one_read k q rs rest e buf src h f lt) [
      | inl o ↦
          ap (more_copied (read_source_all m rs (suc k))) o.got
          ∙ continued (read_source_all m rs (suc k)) o.src' o.buf' o.chunk _ _ (
              read_source_all_lem m k o.q' rs o.rest' e o.buf' o.src' o.holds o.failed
                (omega (arith, o.fewer)) (omega (arith, o.shorter)))
          ∙ ap (λ t. some (t, reader_error (source_err o.src'))) o.same
          ∙ ap (λ t. some (buf ++ joined q, reader_error t))
              (source_err_same o.src' src (o.failed ∙ sym f))
      | inr o ↦
          ap (more_copied (read_source_all m rs (suc k))) o.ended
          ∙ ap (λ t. some (t, reader_error (source_err src))) o.nothing
    ]
