-- ===== src/Sink/Chunks.antt =====
-- rwc.go, `sinkWriter`: a long write is sent in blocks.
use go_muxrpc.Base.{
  joined, ℕ, zero, suc, ◌+◌, ◌≤◌, ◌≡◌, refl, ap, sym, ◌∙◌, Option, none, some, List, [], ◌∷◌, ◌++◌,
  append_assoc, append-nil, map, length, length-take, length-drop, take-append-drop, take, drop,
  ltb, if◌then◌else◌, All, arith, Bool-cases, inl, inr, drop_all,
}
use go_muxrpc.Errors.{Err, Result, ok, err}
use go_muxrpc.Codec.Stream.{Bytes, Output}
use go_muxrpc.Codec.Packet.{Packet, encode}
use go_muxrpc.Codec.Writer.{max_buffer_size}
use go_muxrpc.Codec.RoundTrip.Sessions.{encodes}
use go_muxrpc.Sink.{ByteSink}
use go_muxrpc.Sink
use go_muxrpc.Sink.Closing.{IsReady, write_ready}

-- `ChunkSize`
unfoldable pub chunk_size : ℕ
chunk_size = 65536

abbrev pub block_of : Bytes → Bytes
block_of b = if ltb chunk_size (length b) then take chunk_size b else b

-- What the writer has done so far: the sink, what was sent, the count, and an error.
abbrev pub Progress : Type 0
Progress = ByteSink × Output × ℕ × Option Err

unfoldable pub after_block :
    ℕ → ℕ → (ℕ → ByteSink → Output → Progress) → ByteSink × Output × Result ℕ → Progress
after_block n w next (bs, o, err e) = (bs, o, w, some e)
after_block n w next (bs, o, ok k) = next (w + n) bs o

-- `sinkWriter.Write`, for at most so many blocks; `w` is `written`.
unfoldable pub write_blocks : ℕ → Bytes → ℕ → ByteSink → Output → Progress
unfolding after_block
write_blocks n [] w bs o = (bs, o, w, none)
write_blocks zero (b ∷ rest) w bs o = (bs, o, w, none)
write_blocks (suc n) (b ∷ rest) w bs o =
    let block = block_of (b ∷ rest) in
    after_block (length block) w (write_blocks n (drop (length block) (b ∷ rest)))
      (Sink.write block bs o)

-- A block is at least a byte, so there are no more blocks than bytes.
unfoldable pub sink_writer_write : Bytes → ByteSink → Output → Progress
sink_writer_write rest bs o = write_blocks (length rest) rest 0 bs o

abbrev pub packet_of : ByteSink → Bytes → Packet
packet_of bs b = record { flag = bs.flag; req = bs.req; body = b }

-- A front part of the rest, of a bounded length, and not empty if the rest is not.
record IsBlock (block rest : Bytes) : Type 0 where
  rejoins : block ++ drop (length block) rest ≡ rest
  bounded : length block ≤ chunk_size
  within : length block ≤ length rest
  shorter : suc (length (drop (length block) rest)) ≤ length rest

size_fits : chunk_size ≤ max_buffer_size
unfolding chunk_size
size_fits = omega arith

size_positive : 1 ≤ chunk_size
unfolding chunk_size
size_positive = omega arith

take-IsBlock : (xs : Bytes) → chunk_size ≤ length xs → IsBlock (take chunk_size xs) xs
take-IsBlock xs le = record {
  rejoins = ap (λ k. take chunk_size xs ++ drop k xs) n ∙ take-append-drop chunk_size xs;
  bounded = omega (arith, n);
  within = omega (arith, n);
  shorter = omega (arith, n, length-drop (length (take chunk_size xs)) xs, size_positive);
}
  where
    n : length (take chunk_size xs) ≡ chunk_size
    n = omega (arith, length-take chunk_size xs)

whole-IsBlock : (xs : Bytes) → 1 ≤ length xs → length xs ≤ chunk_size → IsBlock xs xs
whole-IsBlock xs some_byte le = record {
  rejoins = ap (λ t. xs ++ t) (drop_all (length xs) xs (omega arith)) ∙ append-nil xs;
  bounded = le;
  within = omega arith;
  shorter = omega (arith, length-drop (length xs) xs);
}

block_of-IsBlock : (b : ℕ) (rest : Bytes) → IsBlock (block_of (b ∷ rest)) (b ∷ rest)
block_of-IsBlock b rest = elim (Bool-cases (ltb chunk_size (length (b ∷ rest)))) [
  | inl m ↦ rw m (take-IsBlock (b ∷ rest) (ground arith))
  | inr m ↦ rw m (whole-IsBlock (b ∷ rest) (omega arith) (ground arith))
]

-- The sink is left as it was but for the body of its packet.
record Sends (rest : Bytes) (w : ℕ) (bs : ByteSink) (o : Output) (p : Progress) : Type 0 where
  blocks : List Bytes
  whole : joined blocks ≡ rest
  bounded : All (λ b. length b ≤ chunk_size) blocks
  sent : p.1.sent ≡ o.sent ++ encodes (map (packet_of bs) blocks)
  count : p.2 ≡ w + length rest
  no_error : p.3 ≡ none

write_blocks-Sends :
    (n : ℕ) (rest : Bytes) (w : ℕ) (bs : ByteSink) (o : Output)
    → IsReady bs
    → o.room ≡ none
    → length rest ≤ n
    → Sends rest w bs o (write_blocks n rest w bs o)
unfolding write_blocks after_block encodes
write_blocks-Sends n [] w bs o h room le = record {
  blocks = [];
  whole = refl;
  bounded = tt;
  sent = sym (append-nil o.sent);
  count = omega arith;
  no_error = refl;
}
write_blocks-Sends zero (b ∷ rest) w bs o h room le = elim le [ ]
write_blocks-Sends (suc n) (b ∷ rest) w bs o h room le =
    let block = block_of (b ∷ rest) in
    let k : IsBlock block (b ∷ rest) = block_of-IsBlock b rest in
    let bs' : ByteSink = record bs { body = block } in
    let o' : Output = record o { sent = o.sent ++ encode (packet_of bs block) } in
    let r =
      write_blocks-Sends n (drop (length block) (b ∷ rest)) (w + length block) bs' o'
        (record { open_sink = h.open_sink; alive = h.alive; numbered = h.numbered }) room
        (omega (arith, k.shorter)) in
    rw (write_ready block bs o h (omega (arith, k.bounded, size_fits)) room) (record {
      blocks = block ∷ r.blocks;
      whole = ap (λ t. block ++ t) r.whole ∙ k.rejoins;
      bounded = (k.bounded, r.bounded);
      sent =
          r.sent
          ∙ append_assoc o.sent (encode (packet_of bs block))
              (encodes (map (packet_of bs) r.blocks));
      count = r.count ∙ omega (arith, length-drop (length block) (b ∷ rest), k.within);
      no_error = r.no_error;
    })

-- The writer over a sink that is ready, on a connection that takes all: every byte is sent, in blocks of
-- at most ChunkSize, each in one packet with the flags and the number of the sink, in order; the count is
-- that of the bytes and there is no error.
pub sink_writer_write_lem :
    (xs : Bytes) (bs : ByteSink) (o : Output)
    → IsReady bs
    → o.room ≡ none
    → let p = sink_writer_write xs bs o in
      (blocks : List Bytes) × (joined blocks ≡ xs)
      × All (λ b. length b ≤ chunk_size) blocks
      × (p.1.sent ≡ o.sent ++ encodes (map (packet_of bs) blocks))
      × (p.2 ≡ length xs)
      × (p.3 ≡ none)
unfolding sink_writer_write
sink_writer_write_lem xs bs o h room =
    let r = write_blocks-Sends (length xs) xs 0 bs o h room (omega arith) in
    (r.blocks, r.whole, r.bounded, r.sent, r.count ∙ omega arith, r.no_error)
