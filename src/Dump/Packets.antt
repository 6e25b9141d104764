-- ===== src/Dump/Packets.antt =====
-- What muxdump prints, against ReadAllPackets on the same bytes.
use go_muxrpc.Base.{
  ℕ, zero, suc, ◌%◌, ◌^◌, ◌≤◌, ◌≡◌, refl, ap, ◌∙◌, sym, inl, inr, Bool, true, false, Option, none,
  some, List, [], ◌∷◌, ◌++◌, append_assoc, append-nil, length, length-take, take, leb, ◌==◌, arith,
  map, filter, Bool-cases, ==_ne, ◌≢◌,
}
use go_muxrpc.Errors.{Err, eof, equals, errors_is, sentinel, Result, ok, err}
use go_muxrpc.Codec.Stream.{Bytes, Input, read_full, copy_n, copy_error}
use go_muxrpc.Codec.Packet.{Packet, Header}
use go_muxrpc.Codec.Reader.{
  read_header, read_body_into, copied_error, read_all, read_all_loop, round, body_round,
  after_round, stop, more,
}
use go_muxrpc.Dump.{
  Entry, entry_of, sign_extended, printed, Step, over, failed, went_on, stopped, dump_body,
  dump_round, Dumped, then_dump, after_step, dump_loop, dump,
}

abbrev pub add_entry : Option Entry → List Entry → List Entry
add_entry none es = es
add_entry (some e) es = e ∷ es

-- The header of a packet that was read whole.
abbrev pub header : Packet → Header
header p = record { flag = p.flag; len = length p.body; req = p.req }

-- The packets that were asked for: all, or those of one request.
unfoldable pub wanted : ℕ → Packet → Bool
unfolding sign_extended
wanted zero p = true
wanted (suc req) p = sign_extended p.req == suc req

unfoldable pub entries : ℕ → ℕ → List Packet → List Entry
unfolding wanted
entries req max_len ps = map (λ p. entry_of max_len (header p) p.body) (filter (wanted req) ps)

pub entries_more :
    (req max_len : ℕ) (p : Packet) (ps : List Packet)
    → add_entry (printed req max_len (header p) p.body) (entries req max_len ps)
      ≡ entries req max_len (p ∷ ps)
unfolding entries printed
entries_more zero max_len p ps = refl
entries_more (suc req) max_len p ps = elim (Bool-cases (sign_extended p.req == suc req)) [
  | inl hit ↦ rw (hit, ==_ne (suc req) 0 (omega arith)) refl
  | inr miss ↦ rw (miss, ==_ne (suc req) 0 (omega arith)) refl
]

leb→le : (a b : ℕ) → leb a b ≡ true → a ≤ b
leb→le a b h = ground arith

short_copy :
    (n : ℕ) (i : Input)
    → leb n (length i.bytes) ≡ false
    → copied_error (copy_error n i) (length (take n i.bytes)) n ≢ none
unfolding copied_error copy_error
short_copy n i short =
    let cut_off : ((length (take n i.bytes) % 2 ^ 32) == n) ≡ false =
      ==_ne (length (take n i.bytes) % 2 ^ 32) n
        (λ e. absurd (ground (arith, length-take n i.bytes, e, short))) in
    elim (Bool-cases (equals i.fin eof)) [
      | inl at_end ↦ rw (short, at_end, cut_off) (λ e. cc)
      | inr broken ↦ rw (short, broken) (λ e. cc)
    ]

-- A body that is copied whole is one that is read in full.
copied_whole :
    (n : ℕ) (i : Input)
    → (read_body_into n i).2 ≡ none
    → (read_full n i ≡ ((read_body_into n i).0, ok (read_body_into n i).1))
      × (length (read_body_into n i).1 ≡ n)
unfolding read_body_into copy_n read_full
copied_whole n i h = elim (Bool-cases (leb n (length i.bytes))) [
  | inl whole ↦
      rw whole (refl, omega (arith, length-take n i.bytes, leb→le n (length i.bytes) whole))
  | inr short ↦ absurd (short_copy n i short h)
]

copied_error-open :
    (o : Option Err) (k n : ℕ) (e : Err) → copied_error o k n ≡ some e → equals e eof ≡ false
unfolding copied_error equals
copied_error-open (some f) k n e h = ground (arith, h)
copied_error-open none k n e h = ground (arith, h)

copy_fails : (n : ℕ) (i : Input) (e : Err) → (read_body_into n i).2 ≡ some e → equals e eof ≡ false
unfolding read_body_into
copy_fails n i e h = copied_error-open (copy_n n i).2 (length (copy_n n i).1) n e h

equals-is : (e : Err) → equals e eof ≡ true → errors_is e eof ≡ true
unfolding equals errors_is
equals-is (sentinel s) h = h
equals-is e h = cc

-- The body of a packet, as both loops read it.
body_over :
    (req max_len : ℕ) (g : Header) (i : Input) (t : Input × Bytes × Option Err)
    → read_body_into g.len i ≡ t
    → (dump_body req max_len g t).1 ≢ over
unfolding dump_body stopped
body_over req max_len g i (i', b, none) e = λ h. cc
body_over req max_len g i (i', b, some f) e = rw (copy_fails g.len i f (ap (λ t. t.2) e)) (λ h. cc)

body_on :
    (req max_len : ℕ) (g : Header) (i : Input) (t : Input × Bytes × Option Err) (o : Option Entry)
    → read_body_into g.len i ≡ t
    → (dump_body req max_len g t).1 ≡ went_on o
    → (p : Packet) × (round (i, ok g) ≡ ((dump_body req max_len g t).0, more p))
      × (o ≡ printed req max_len (header p) p.body)
unfolding dump_body round body_round stopped
body_on req max_len g i (i', b, none) o e h =
    let (full, size) = copied_whole g.len i (ap (λ t. t.2) e) in
    let read : read_full g.len i ≡ (i', ok b) = full ∙ ap (λ t. (t.0, ok t.1)) e in
    let same : printed req max_len g b ≡ o = ground (arith, h) in
    (
      record { flag = g.flag; req = g.req; body = b },
      rw read refl,
      sym same
          ∙ ap (λ n. printed req max_len (record { flag = g.flag; len = n; req = g.req }) b)
              (sym (ap (λ t. length t.1) (sym e) ∙ size)),
    )
body_on req max_len g i (i', b, some f) o e h =
    absurd (cc (rw (copy_fails g.len i f (ap (λ t. t.2) e)) at h))

-- A round that ends the loop of muxdump ends that of ReadAllPackets.
round_over :
    (req max_len : ℕ) (t : Input × Result Header)
    → (dump_round req max_len t).1 ≡ over
    → (round t).1 ≡ stop
unfolding dump_round round stopped
round_over req max_len (i, err e) h = elim (Bool-cases (equals e eof)) [
  | inl ended ↦ rw (equals-is e ended) refl
  | inr broken ↦ absurd (cc (rw broken at h))
]
round_over req max_len (i, ok g) h =
    absurd (body_over req max_len g i (read_body_into g.len i) refl h)

-- A round that goes on takes the same packet.
round_on :
    (req max_len : ℕ) (t : Input × Result Header) (o : Option Entry)
    → (dump_round req max_len t).1 ≡ went_on o
    → (p : Packet) × (round t ≡ ((dump_round req max_len t).0, more p))
      × (o ≡ printed req max_len (header p) p.body)
unfolding dump_round round stopped
round_on req max_len (i, err e) o h = elim (Bool-cases (equals e eof)) [
  | inl ended ↦ absurd (cc (rw ended at h))
  | inr broken ↦ absurd (cc (rw broken at h))
]
round_on req max_len (i, ok g) o h = body_on req max_len g i (read_body_into g.len i) o refl h

-- What both loops leave.
abbrev Same : ℕ → ℕ → Option (Input × Result (List Packet)) → List Packet → List Entry → Type 0
Same req max_len r acc es =
    (i : Input) × (ps : List Packet) × (r ≡ some (i, ok (acc ++ ps)))
    × (es ≡ entries req max_len ps)

then_dump_inv :
    (o : Option Entry) (d : Option Dumped) (es : List Entry)
    → then_dump o d ≡ some (es, none)
    → (es' : List Entry) × (d ≡ some (es', none)) × (es ≡ add_entry o es')
then_dump_inv o none es h = absurd (cc h)
then_dump_inv none (some (es', r)) es h = (es, h, refl)
then_dump_inv (some e) (some (es', none)) es h = (es', refl, ground (arith, h))
then_dump_inv (some e) (some (es', some r)) es h = absurd (cc h)

step-Same :
    (req max_len : ℕ) (t : Input × Result Header) (s : Input × Step) (next : Input → Option Dumped)
    (all : Input → List Packet → Option (Input × Result (List Packet))) (acc : List Packet)
    (es : List Entry)
    → dump_round req max_len t ≡ s
    → ((i : Input) (acc' : List Packet) (es' : List Entry)
        → next i ≡ some (es', none)
        → Same req max_len (all i acc') acc' es')
    → after_step s next ≡ some (es, none)
    → Same req max_len (after_round (round t) acc all) acc es
unfolding after_step after_round entries
step-Same req max_len t (i, over) next all acc es e rec h = (
  (round t).0,
  [],
  rw (round_over req max_len t (ap (λ s. s.1) e), append-nil acc) refl,
  ground (arith, h),
)
step-Same req max_len t (i, failed f) next all acc es e rec h = absurd (cc h)
step-Same req max_len t (i, went_on o) next all acc es e rec h =
    let (es', more_es, shape) = then_dump_inv o (next i) es h in
    let (p, taken, prints) = round_on req max_len t o (ap (λ s. s.1) e) in
    let (i', ps, found, listed) = rec i (acc ++ (p ∷ [])) es' more_es in
    (
      i',
      p ∷ ps,
      ap (λ q. after_round q acc all) (taken ∙ ap (λ (s : Input × Step). (s.0, more p)) e)
          ∙ found
          ∙ ap (λ l. some (i', ok l)) (append_assoc acc (p ∷ []) ps),
      shape
          ∙ ap (λ c. add_entry c es') prints
          ∙ ap (add_entry (printed req max_len (header p) p.body)) listed
          ∙ entries_more req max_len p ps,
    )

dump_loop-read_all_loop :
    (n req max_len : ℕ) (i : Input) (es : List Entry) (acc : List Packet)
    → dump_loop n req max_len i ≡ some (es, none)
    → Same req max_len (read_all_loop n i acc) acc es
unfolding dump_loop read_all_loop
dump_loop-read_all_loop zero req max_len i es acc h = absurd (cc h)
dump_loop-read_all_loop (suc n) req max_len i es acc h =
    step-Same req max_len (read_header i) (dump_round req max_len (read_header i))
      (dump_loop n req max_len) (read_all_loop n) acc es refl
      (λ i' acc' es'. dump_loop-read_all_loop n req max_len i' es' acc') h

-- Whatever bytes muxdump is given: if it prints some entries and ends regularly, then ReadAllPackets
-- returns packets on the same bytes, and the entries are exactly those of these packets, in order, that
-- have the number asked for, or of all of them if that is 0, with their bodies cut at the limit.
pub dump-read_all :
    (req max_len : ℕ) (i : Input) (es : List Entry)
    → dump req max_len i ≡ some (es, none)
    → (j : Input) × (ps : List Packet) × (read_all i ≡ some (j, ok ps))
      × (es ≡ entries req max_len ps)
unfolding dump read_all
dump-read_all req max_len i es h =
    dump_loop-read_all_loop (suc (length i.bytes)) req max_len i es [] h
