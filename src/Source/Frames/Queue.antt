-- ===== src/Source/Frames/Queue.antt =====
-- The frame buffer is a queue of bodies, behind what is left of the frame that is being read.
use go_muxrpc.Base.{
  ℕ, zero, suc, ◌+◌, ◌-◌, ◌%◌, ◌^◌, ◌≤◌, ◌<◌, ◌≡◌, refl, ap, sym, ◌∙◌, true, List, [], ◌∷◌, ◌++◌,
  append_assoc, append-nil, Option, none, length, length-append, length-drop, drop, take-append,
  drop-append, drop_all, subst, min, All, All-append, arith, ◌==◌, ==_ne, leb_of_le,
}
use go_muxrpc.Errors.{Err, ok}
use go_muxrpc.Codec.Stream.{Bytes, copy_n, copy_error}
use go_muxrpc.Source.Frames.{
  FrameBuffer, empty, le32, from_le, copy_body, skip_rest, read_len, next_frame, count_read,
  frame_body, reader, bytes, wake,
}

abbrev pub IsFrame : Bytes → Type 0
IsFrame b = length b < 2 ^ 32

unfoldable pub stored : List Bytes → Bytes
stored [] = []
stored (b ∷ q) = le32 (length b) ++ (b ++ stored q)

-- `rest` is what is left of the current frame, and `q` are the frames behind it.
pub record Holds (fb : FrameBuffer) (rest : Bytes) (q : List Bytes) : Type 0 where
  pub contents : fb.store ≡ rest ++ stored q
  pub left : fb.current_read + length rest ≡ fb.current_total
  pub word : fb.current_total < 2 ^ 32
  pub counted : fb.frames ≡ length q
  pub bounded : All IsFrame q
  pub buf : drop 4 fb.len_buf ≡ []
  pub few : length q < 2 ^ 32

from_le-le32 : (w : ℕ) → w < 2 ^ 32 → from_le (le32 w) ≡ w
unfolding from_le le32
from_le-le32 w h = omega arith

stored-append :
    (q : List Bytes) (b : Bytes) → stored (q ++ (b ∷ [])) ≡ stored q ++ (le32 (length b) ++ b)
unfolding stored
stored-append [] b = rw (append-nil b)
stored-append (c ∷ q) b =
    rw
      (stored-append q b, append_assoc (le32 (length c)) (c ++ stored q), append_assoc c (stored q))

pub empty-Holds : Holds empty [] []
unfolding empty stored
empty-Holds = record {
  contents = refl;
  left = refl;
  word = omega arith;
  counted = refl;
  bounded = tt;
  buf = refl;
  few = omega arith;
}

pub copy_n-append :
    (b more : Bytes) (fin : Err)
    → copy_n (length b) (record { bytes = b ++ more; fin = fin })
      ≡ (record { bytes = more; fin = fin }, b, none)
unfolding copy_n copy_error
copy_n-append b more fin = rw (
  leb_of_le (length b) (length (b ++ more)) (omega (arith, length-append b more)),
  take-append b more,
  drop-append b more,
)

fits_eq : (n : ℕ) → n < 2 ^ 32 → (n % 2 ^ 32 == n) ≡ true
fits_eq n h = ground arith

-- A whole body is taken off the input and joins the queue at its end.
pub copy_body-Holds :
    (fb : FrameBuffer) (rest : Bytes) (q : List Bytes) (b more : Bytes) (fin : Err)
    → Holds fb rest q
    → IsFrame b
    → length q + 1 < 2 ^ 32
    → let (i', fb', e) = copy_body (length b) (record { bytes = b ++ more; fin = fin }) fb in
      (e ≡ none) × (i' ≡ record { bytes = more; fin = fin }) × Holds fb' rest (q ++ (b ∷ []))
unfolding copy_body wake
copy_body-Holds fb rest q b more fin h fits room =
    rw (copy_n-append b more fin, fits_eq (length b) fits)
      (
        refl,
        refl,
        record {
          contents =
              ap (λ t. t ++ (le32 (length b) ++ b)) h.contents
              ∙ append_assoc rest (stored q) (le32 (length b) ++ b)
              ∙ ap (λ t. rest ++ t) (sym (stored-append q b));
          left = h.left;
          word = h.word;
          counted = omega (arith, h.counted, length-append q (b ∷ []));
          bounded = All-append IsFrame q (b ∷ []) h.bounded (fits, tt);
          buf = unfold le32 in refl;
          few = omega (arith, length-append q (b ∷ []));
        },
      )

-- The skip goes to the next frame.
skip_rest-Holds :
    (fb : FrameBuffer) (rest : Bytes) (q : List Bytes) → Holds fb rest q → skip_rest fb ≡ stored q
unfolding skip_rest
skip_rest-Holds fb [] q h = ground (arith, h.contents)
skip_rest-Holds fb (x ∷ rest) q h =
    rw (==_ne fb.current_total 0 (omega (arith, h.left)), n, h.contents)
      (drop-append (x ∷ rest) (stored q))
  where
    n : (fb.current_total + 2 ^ 32 - fb.current_read) % 2 ^ 32 ≡ length (x ∷ rest)
    n = omega (arith, h.left, h.word)

-- The buffer once the length of a frame has been read.
opened : FrameBuffer → Bytes → List Bytes → FrameBuffer
opened fb b q = record fb {
  store = b ++ stored q;
  len_buf = le32 (length b);
  current_read = 0;
  current_total = length b;
  frames = length q;
}

read_len_stored :
    (w : ℕ) (t : Bytes) (fb : FrameBuffer)
    → w < 2 ^ 32
    → drop 4 fb.len_buf ≡ []
    → read_len (le32 w ++ t) fb ≡ (
      record fb {
        store = t;
        len_buf = le32 w;
        current_read = 0;
        current_total = w;
        frames = (fb.frames + (2 ^ 32 - 1)) % 2 ^ 32;
      },
      ok w,
    )
unfolding read_len le32
read_len_stored w t fb h e = rw e λ j. (
  record fb {
    store = t;
    len_buf = le32 w;
    current_read = 0;
    current_total = from_le-le32 w h j;
    frames = (fb.frames + (2 ^ 32 - 1)) % 2 ^ 32;
  },
  ok (from_le-le32 w h j),
)

frame_opened :
    (fb : FrameBuffer) (b : Bytes) (q : List Bytes) → frame_body (length b) (opened fb b q) ≡ b
unfolding opened
frame_opened fb b q = take-append b (stored q)

drop-append_le : (k : ℕ) (b t : Bytes) → k ≤ length b → drop k (b ++ t) ≡ drop k b ++ t
drop-append_le zero b t h = refl
drop-append_le (suc k) [] t h = elim h [ ]
drop-append_le (suc k) (x ∷ b) t h = drop-append_le k b t (omega arith)

next_frame-Holds :
    (fb : FrameBuffer) (rest b : Bytes) (q : List Bytes)
    → Holds fb rest (b ∷ q)
    → next_frame fb ≡ (opened fb b q, ok (length b))
unfolding next_frame opened stored
next_frame-Holds fb rest b q h =
    rw
      (
        skip_rest-Holds fb rest (b ∷ q) h,
        read_len_stored (length b) (b ++ stored q) fb h.bounded.0 h.buf,
      )
      (λ j. (record (opened fb b q) { frames = down j }, ok (length b)))
  where
    down : (fb.frames + (2 ^ 32 - 1)) % 2 ^ 32 ≡ length q
    down = omega (arith, h.counted, h.few)

-- The next frame is the oldest body.
pub next_frame-body :
    (fb : FrameBuffer) (rest b : Bytes) (q : List Bytes)
    → Holds fb rest (b ∷ q)
    → (next_frame fb ≡ ((next_frame fb).0, ok (length b)))
      × (frame_body (length b) (next_frame fb).0 ≡ b)
next_frame-body fb rest b q h = rw (next_frame-Holds fb rest b q h) (refl, frame_opened fb b q)

-- The frame that is being read, after `k` of its bytes have been.
read_part-Holds :
    (fb : FrameBuffer) (rest b : Bytes) (q : List Bytes) (k : ℕ)
    → Holds fb rest (b ∷ q)
    → k ≤ length b
    → Holds (count_read k (opened fb b q)) (drop k b) q
unfolding count_read opened
read_part-Holds fb rest b q k h le = record {
  contents = drop-append_le k b (stored q) le;
  left = omega (arith, length-drop k b, h.bounded.0);
  word = h.bounded.0;
  counted = refl;
  bounded = h.bounded.1;
  buf = unfold le32 in refl;
  few = omega (arith, h.few);
}

-- A consumer is given the whole oldest body, in the order of arrival. What it leaves of it is skipped
-- by the next read, and its error is returned.
pub reader-Holds :
    (fb : FrameBuffer) (rest b : Bytes) (q : List Bytes) (fn : Bytes → ℕ × Option Err)
    → Holds fb rest (b ∷ q)
    → ((reader fn fb).1 ≡ (fn b).1) × Holds (reader fn fb).0 (drop (min (fn b).0 (length b)) b) q
unfolding reader
reader-Holds fb rest b q fn h =
    rw (next_frame-Holds fb rest b q h, frame_opened fb b q)
      (refl, read_part-Holds fb rest b q (min (fn b).0 (length b)) h (omega arith))

-- `Bytes` returns the oldest body whole and leaves nothing of it.
pub bytes-Holds :
    (fb : FrameBuffer) (rest b : Bytes) (q : List Bytes)
    → Holds fb rest (b ∷ q)
    → ((bytes fb).1 ≡ ok b) × Holds (bytes fb).0 [] q
unfolding bytes
bytes-Holds fb rest b q h =
    rw (next_frame-Holds fb rest b q h, frame_opened fb b q)
      (
        refl,
        subst (λ t. Holds (count_read (length b) (opened fb b q)) t q)
            (drop_all (length b) b (omega arith))
            (read_part-Holds fb rest b q (length b) h (omega arith)),
      )
