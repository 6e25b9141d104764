-- ===== src/Codec/RoundTrip/Inversion.antt =====
-- ReadPacket and ReadAllPackets on any input, well formed or not.
use go_muxrpc.Base.{
  ℕ, zero, suc, ◌%◌, ◌^◌, ◌<◌, ◌≡◌, refl, ap, sym, ◌∙◌, inl, inr, false, [], ◌∷◌, ◌++◌,
  append_assoc, length, take, drop, take-append-drop, length-take, length-drop, take_all, subst,
  if◌then◌else◌, All, arith, Bool-cases,
}
use go_muxrpc.Errors.{sentinel, eof, Result, ok, err}
use go_muxrpc.Codec.Stream.{Bytes, Input, read_full}
use go_muxrpc.Codec.Packet.{
  Packet, Header, IsPacket, IsByte, IsWord, encode, header_of, header_bytes, header_size,
  is_goodbye, parse_header, be32, from_be,
}
use go_muxrpc.Codec.Reader.{read_header, check_header, read_packet, read_body, packet_of}

pub read_full_ok :
    (n : ℕ) (i : Input) (b : Bytes)
    → (read_full n i).1 ≡ ok b
    → (i.bytes ≡ b ++ (read_full n i).0.bytes) × (length b ≡ n) × ((read_full n i).0.fin ≡ i.fin)
unfolding read_full
read_full_ok n i b e = ground (arith, take-append-drop n i.bytes, length-take n i.bytes)

be32-from_be :
    (b : Bytes) → length b ≡ 4 → All IsByte b → (be32 (from_be b) ≡ b) × (from_be b < 2 ^ 32)
unfolding be32 from_be
be32-from_be (a ∷ b ∷ c ∷ d ∷ []) h v = ground arith
be32-from_be _ h v = absurd (omega arith)

All-take : (n : ℕ) (b : Bytes) → All IsByte b → All IsByte (take n b)
All-take zero b v = tt
All-take (suc n) [] v = tt
All-take (suc n) (x ∷ b) v = (v.0, All-take n b v.1)

All-append_left : (a b : Bytes) → All IsByte (a ++ b) → All IsByte a
All-append_left [] b v = tt
All-append_left (x ∷ a) b v = (v.0, All-append_left a b v.1)

All-append_right : (a b : Bytes) → All IsByte (a ++ b) → All IsByte b
All-append_right [] b v = v
All-append_right (x ∷ a) b v = All-append_right a b v.1

All-drop : (n : ℕ) (b : Bytes) → All IsByte b → All IsByte (drop n b)
All-drop zero b v = v
All-drop (suc n) [] v = tt
All-drop (suc n) (x ∷ b) v = All-drop n b v.1

header_bytes-parse_header :
    (b : Bytes)
    → length b ≡ header_size
    → All IsByte b
    → (header_bytes (parse_header b) ≡ b)
      × IsByte (parse_header b).flag
      × IsWord (parse_header b).len
      × IsWord (parse_header b).req
unfolding header_bytes parse_header
header_bytes-parse_header [] h v = absurd (omega arith)
header_bytes-parse_header (f ∷ b) h v =
    let lo = be32-from_be (take 4 b) (omega (arith, length-take 4 b)) (All-take 4 b v.1) in
    let hi =
      be32-from_be (take 4 (drop 4 b)) (omega (arith, length-take 4 (drop 4 b), length-drop 4 b))
        (All-take 4 (drop 4 b) (All-drop 4 b v.1)) in
    (
      (λ j. f ∷ (lo.0 j ++ hi.0 j)) ∙ ap (λ t. f ∷ t) (rw rest (take-append-drop 4 b)),
      v.0,
      lo.1,
      hi.1,
    )
  where
    rest : take 4 (drop 4 b) ≡ drop 4 b
    rest = take_all 4 (drop 4 b) (omega (arith, length-drop 4 b))

check_header_ok :
    (r : Result Bytes) (h : Header)
    → check_header r ≡ ok h
    → (b : Bytes) × (r ≡ ok b) × (parse_header b ≡ h) × (is_goodbye h ≡ false)
unfolding check_header
check_header_ok (err e) h q = cc
check_header_ok (ok b) h q = elim (Bool-cases (is_goodbye (parse_header b))) [
  | inl g ↦ cc (subst (λ t. (if t then err (sentinel eof) else ok (parse_header b)) ≡ ok h) g q)
  | inr g ↦
      let e : parse_header b ≡ h =
        ground (
          arith,
          subst (λ t. (if t then err (sentinel eof) else ok (parse_header b)) ≡ ok h) g q,
        ) in
      (b, refl, e, subst (λ t. is_goodbye t ≡ false) e g)
]

-- A header that was read stood at the front of the input, in nine bytes.
pub read_header_ok :
    (i : Input) (h : Header)
    → (read_header i).1 ≡ ok h
    → All IsByte i.bytes
    → (i.bytes ≡ header_bytes h ++ (read_header i).0.bytes)
      × (is_goodbye h ≡ false)
      × IsByte h.flag
      × IsWord h.len
      × IsWord h.req
unfolding read_header
read_header_ok i h q v =
    let (b, r, e, g) = check_header_ok (read_full header_size i).1 h q in
    let (front, len, fin) = read_full_ok header_size i b r in
    let (bytes, flag, word, req) =
      header_bytes-parse_header b len (All-append_left b _ (subst (All IsByte) front v)) in
    (
      front ∙ ap (λ t. t ++ (read_full header_size i).0.bytes) (sym bytes ∙ ap header_bytes e),
      g,
      subst (λ t. IsByte t.flag) e flag,
      subst (λ t. IsWord t.len) e word,
      subst (λ t. IsWord t.req) e req,
    )

packet_of_ok :
    (h : Header) (r : Result Bytes) (p : Packet)
    → packet_of h r ≡ ok p
    → (b : Bytes) × (r ≡ ok b) × (record { flag = h.flag; req = h.req; body = b } ≡ p)
unfolding packet_of
packet_of_ok h (err e) p q = cc
packet_of_ok h (ok b) p q = (b, refl, cc)

-- A packet that was read stood at the front of the input, as WritePacket would send it.
read_body_ok :
    (t : Input × Result Header) (p : Packet)
    → (read_body t).1 ≡ ok p
    → (h : Header) × (b : Bytes) × (t.1 ≡ ok h)
      × ((read_full h.len t.0).1 ≡ ok b)
      × (record { flag = h.flag; req = h.req; body = b } ≡ p)
      × ((read_body t).0 ≡ (read_full h.len t.0).0)
unfolding read_body
read_body_ok (i, err e) p q = cc
read_body_ok (i, ok h) p q =
    let (b, r, e) = packet_of_ok h (read_full h.len i).1 p q in (h, b, refl, r, e, refl)

header_of_read :
    (h : Header) (b : Bytes)
    → length b ≡ h.len
    → IsWord h.len
    → header_of (record { flag = h.flag; req = h.req; body = b }) ≡ h
header_of_read h b e w = λ j. record { flag = h.flag; len = len j; req = h.req }
  where
    len : length b % 2 ^ 32 ≡ h.len
    len = omega arith

assemble :
    (h : Header) (b before after : Bytes)
    → before ≡ header_bytes h ++ (b ++ after)
    → length b ≡ h.len
    → is_goodbye h ≡ false
    → IsByte h.flag
    → IsWord h.len
    → IsWord h.req
    → All IsByte b
    → let p : Packet = record { flag = h.flag; req = h.req; body = b } in
      (before ≡ encode p ++ after) × (is_goodbye (header_of p) ≡ false) × IsPacket p
assemble h b before after front e g flag len req v = rw (header_of_read h b e len) (
  front ∙ sym (append_assoc (header_bytes h) b after),
  g,
  record { flag_byte = flag; req_word = req; body_bytes = v },
)

-- Whatever ReadPacket returns stood at the front of the input just as WritePacket sends it, it is a
-- packet within Go's types whose header is not the goodbye, and exactly its bytes are taken off.
pub read_packet_sound :
    (i : Input) (p : Packet)
    → (read_packet i).1 ≡ ok p
    → All IsByte i.bytes
    → (i.bytes ≡ encode p ++ (read_packet i).0.bytes)
      × (is_goodbye (header_of p) ≡ false)
      × IsPacket p
unfolding read_packet
read_packet_sound i p q v =
    let (h, b, r, body, e, left) = read_body_ok (read_header i) p q in
    let (front, g, flag, word, req) = read_header_ok i h r v in
    let (mid, len, fin) = read_full_ok h.len (read_header i).0 b body in
    subst
      (λ t.
        (i.bytes ≡ encode t ++ (read_packet i).0.bytes)
        × (is_goodbye (header_of t) ≡ false)
        × IsPacket t)
      e
      (assemble h b i.bytes _
        (front ∙ ap (λ t. header_bytes h ++ t) (mid ∙ ap (λ (t : Input). b ++ t.bytes) (sym left)))
        len g flag word req
        (All-append_left b _ (
          subst (All IsByte) mid
            (All-append_right (header_bytes h) _ (subst (All IsByte) front v)))))
