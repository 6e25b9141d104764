-- ===== src/Debug/Logs.antt =====
-- The lines that the logger makes of the packets in its pipe.
use go_muxrpc.Base.{
  ℕ, suc, ◌+◌, ◌≡◌, ◌≢◌, ◌==◌, true, false, Bool-cases, inl, inr, subst, refl, ap, ◌∙◌, none, List,
  [], ◌∷◌, ◌++◌, append_assoc, map, length, All, arith,
}
use go_muxrpc.Errors.{Err, sentinel, eof, equals}
use go_muxrpc.Codec.Flag
use go_muxrpc.Codec.Stream.{Bytes}
use go_muxrpc.Codec.Packet.{Packet, encode}
use go_muxrpc.Codec.Reader.{read_packet, read_body}
use go_muxrpc.Codec.Writer.{goodbye}
use go_muxrpc.Codec.RoundTrip.Packets.{IsSendable, input, read_packet-encode}
use go_muxrpc.Codec.RoundTrip.Sessions.{encodes, goodbye_read}
use go_muxrpc.Debug.{
  Line, packet, unquoted, failed, unless_eof, line_of, Logged, after_packet, work,
}

abbrev add_lines : List Line → Logged → Logged
add_lines ls (more, e, i) = (ls ++ more, e, i)

add_lines_twice :
    (l : Line) (ls : List Line) (g : Logged)
    → add_lines (l ∷ []) (add_lines ls g) ≡ add_lines (l ∷ ls) g
add_lines_twice l ls g = refl

work_more :
    (n : ℕ) (p : Packet) (rest : Bytes) (fin : Err)
    → IsSendable p
    → work (suc n) (input (encode p ++ rest) fin)
      ≡ add_lines (line_of p ∷ []) (work n (input rest fin))
unfolding work after_packet
work_more n p rest fin s = ap (λ t. after_packet t (work n)) (read_packet-encode p rest fin s)

work_packets :
    (ps : List Packet) (n : ℕ) (rest : Bytes) (fin : Err)
    → All IsSendable ps
    → work (length ps + n) (input (encodes ps ++ rest) fin)
      ≡ add_lines (map line_of ps) (work n (input rest fin))
unfolding encodes
work_packets [] n rest fin s =
    let same : 0 + n ≡ n = omega arith in ap (λ k. work k (input rest fin)) same
work_packets (p ∷ ps) n rest fin s =
    let same : suc (length ps) + n ≡ suc (length ps + n) = omega arith in
    ap (λ k. work k (input ((encode p ++ encodes ps) ++ rest) fin)) same
    ∙ ap (λ b. work (suc (length ps + n)) (input b fin)) (append_assoc (encode p) (encodes ps) rest)
    ∙ work_more (length ps + n) p (encodes ps ++ rest) fin s.0
    ∙ ap (add_lines (line_of p ∷ [])) (work_packets ps n rest fin s.1)

work-goodbye :
    (n : ℕ) (rest : Bytes) (fin : Err)
    → work (suc n) (input (goodbye ++ rest) fin)
      ≡ (failed (sentinel eof) ∷ [], none, input rest fin)
unfolding work after_packet read_packet read_body unless_eof equals
work-goodbye n rest fin = ap (λ t. after_packet (read_body t) (work n)) (goodbye_read rest fin)

-- The second text is the first, with ' for each ".
pub data Requoted : Bytes → Bytes → Type 0 where
  done : Requoted [] []
  quote : (b c : Bytes) → Requoted b c → Requoted (b'"' ∷ b) (b'\'' ∷ c)
  kept : (x : ℕ) (b c : Bytes) → x ≢ b'"' → Requoted b c → Requoted (x ∷ b) (x ∷ c)

-- What is logged of a packet.
pub data Shows : Packet → Line → Type 0 where
  as_json :
      (p : Packet) (b : Bytes)
      → Flag.get p.flag Flag.json ≡ true
      → Requoted p.body b
      → Shows p (packet (record p { body = b }))
  as_it_is : (p : Packet) → Flag.get p.flag Flag.json ≡ false → Shows p (packet p)

-- One line for each packet.
abbrev pub ShowsAll : List Packet → List Line → Type 0
ShowsAll [] [] = Unit {0}
ShowsAll (p ∷ ps) (l ∷ ls) = Shows p l × ShowsAll ps ls
ShowsAll _ _ = ⊥

unquoted-Requoted : (b : Bytes) → Requoted b (unquoted b)
unfolding unquoted
unquoted-Requoted [] = done
unquoted-Requoted (x ∷ b) = elim (Bool-cases (x == 34)) [
  | inl m ↦
      let same : 34 ≡ x = ground (arith, m) in
      rw m (subst (λ y. Requoted (y ∷ b) (39 ∷ unquoted b)) same (quote b _ (unquoted-Requoted b)))
  | inr m ↦ rw m (kept x b _ (ground (arith, m)) (unquoted-Requoted b))
]

line_of-Shows : (p : Packet) → Shows p (line_of p)
unfolding line_of
line_of-Shows p = elim (Bool-cases (Flag.get p.flag Flag.json)) [
  | inl m ↦ rw m (as_json p (unquoted p.body) m (unquoted-Requoted p.body))
  | inr m ↦ rw m (as_it_is p m)
]

lines-ShowsAll : (ps : List Packet) → ShowsAll ps (map line_of ps)
lines-ShowsAll [] = tt
lines-ShowsAll (p ∷ ps) = (line_of-Shows p, lines-ShowsAll ps)

-- What the goroutine of the logger makes of the bytes that it reads from its pipe, if these are packets
-- that were sent, the goodbye, and more, and it is not cancelled before: it logs one line for each packet,
-- in order, which shows the packet as it is, or, if it carries JSON, with ' for each " of its body; at the
-- goodbye it logs io.EOF and returns nil, and what follows stays in the pipe, which it reads no more.
pub work-encodes :
    (ps : List Packet) (rest : Bytes) (n : ℕ) (fin : Err)
    → All IsSendable ps
    → (ls : List Line) × ShowsAll ps ls
      × (work (length ps + suc n) (input (encodes ps ++ (goodbye ++ rest)) fin)
          ≡ (ls ++ (failed (sentinel eof) ∷ []), none, input rest fin))
work-encodes ps rest n fin s = (
  map line_of ps,
  lines-ShowsAll ps,
  work_packets ps (suc n) (goodbye ++ rest) fin s
      ∙ ap (add_lines (map line_of ps)) (work-goodbye n rest fin),
)
