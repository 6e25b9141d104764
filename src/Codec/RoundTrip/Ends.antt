-- ===== src/Codec/RoundTrip/Ends.antt =====
-- The loop of ReadAllPackets ends on every input.
use go_muxrpc.Base.{
  ℕ, zero, suc, ◌-◌, ◌≤◌, ◌<◌, ◌≡◌, refl, ◌≢◌, List, [], ◌∷◌, ◌++◌, Option, none, length,
  length-drop, arith,
}
use go_muxrpc.Errors.{Result, ok, err}
use go_muxrpc.Codec.Stream.{Input, read_full}
use go_muxrpc.Codec.Packet.{Packet, Header, header_size}
use go_muxrpc.Codec.Reader.{
  read_header, check_header, read_all_loop, read_all, round, body_round, after_round, Round, stop,
  fail, more,
}

read_full_shorter : (n : ℕ) (i : Input) → length (read_full n i).0.bytes ≤ length i.bytes - n
unfolding read_full
read_full_shorter n i = ground (arith, length-drop n i.bytes)

after_header : (t : Input × Result Header) → length (round t).0.bytes ≤ length t.0.bytes
unfolding round
after_header (i, err e) = ground arith
after_header (i, ok h) = omega (arith, read_full_shorter h.len i)

read_header_more :
    (i : Input) (p : Packet) → (round (read_header i)).1 ≡ more p → header_size ≤ length i.bytes
unfolding read_header round body_round check_header read_full
read_header_more i p q = ground arith

pub read_header_shorter :
    (i : Input) → length (read_header i).0.bytes ≤ length i.bytes - header_size
unfolding read_header
read_header_shorter i = read_full_shorter header_size i

after_round-ne-none :
    (t : Input × Round) (pkts : List Packet)
    (next : Input → List Packet → Option (Input × Result (List Packet)))
    → ((p : Packet) → t.1 ≡ more p → next t.0 (pkts ++ (p ∷ [])) ≢ none)
    → after_round t pkts next ≢ none
unfolding after_round
after_round-ne-none (i, stop) pkts next h = λ e. cc
after_round-ne-none (i, fail x) pkts next h = λ e. cc
after_round-ne-none (i, more p) pkts next h = h p refl

read_all_loop-ne-none :
    (f : ℕ) (i : Input) (pkts : List Packet) → length i.bytes < f → read_all_loop f i pkts ≢ none
unfolding read_all_loop
read_all_loop-ne-none zero i pkts h = elim h [ ]
read_all_loop-ne-none (suc f) i pkts h =
    after_round-ne-none (round (read_header i)) pkts (read_all_loop f) λ p q.
      read_all_loop-ne-none f _ _
        (omega (arith, after_header (read_header i), read_header_shorter i, read_header_more i p q))

-- On every input ReadAllPackets returns: a round for each byte and one more are enough.
pub read_all-ne-none : (i : Input) → read_all i ≢ none
unfolding read_all
read_all-ne-none i = read_all_loop-ne-none _ i [] (omega arith)
