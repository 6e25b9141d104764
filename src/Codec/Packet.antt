-- ===== src/Codec/Packet.antt =====
-- codec/packet.go: packets and headers, and the nine bytes of a header in big-endian order.
--
-- A byte is a number below 256. A uint32 and an int32 are their bit patterns, numbers below 2 ^ 32;
-- an int32 is negative when its pattern is 2 ^ 31 or more.
use go_muxrpc.Base.{
  ℕ, ◌+◌, ◌*◌, ◌/◌, ◌%◌, ◌^◌, ◌<◌, ◌≡◌, refl, Bool, ◌&&◌, [], ◌∷◌, ◌++◌, ◌==◌, length, take, drop,
  All, arith,
}
use go_muxrpc.Codec.Stream.{Bytes}
use mathlib.Core.List.{foldl}

pub record Packet : Type 0 where
  pub flag : ℕ
  pub req : ℕ
  pub body : Bytes

pub record Header : Type 0 where
  pub flag : ℕ
  pub len : ℕ
  pub req : ℕ

abbrev pub IsByte : ℕ → Type 0
IsByte b = b < 256

abbrev pub IsWord : ℕ → Type 0
IsWord w = w < 2 ^ 32

-- A packet as Go's types hold it.
pub record IsPacket (p : Packet) : Type 0 where
  pub flag_byte : IsByte p.flag
  pub req_word : IsWord p.req
  pub body_bytes : All IsByte p.body

-- The bytes of a uint32, most significant first, and back.
unfoldable pub be32 : ℕ → Bytes
be32 w = (w / 2 ^ 24 % 256) ∷ (w / 2 ^ 16 % 256) ∷ (w / 2 ^ 8 % 256) ∷ (w % 256) ∷ []

unfoldable pub from_be : Bytes → ℕ
from_be = foldl (λ n b. n * 256 + b) 0

-- `binary.Write(w, binary.BigEndian, hdr)` writes these bytes at once.
unfoldable pub header_bytes : Header → Bytes
unfolding be32
header_bytes h = h.flag ∷ (be32 h.len ++ be32 h.req)

-- `binary.Read(r, binary.BigEndian, hdr)` on the nine bytes that it has read.
unfoldable pub parse_header : Bytes → Header
unfolding from_be
parse_header [] = record { flag = 0; len = 0; req = 0 }
parse_header (f ∷ bs) = record {
  flag = f;
  len = from_be (take 4 bs);
  req = from_be (take 4 (drop 4 bs));
}

abbrev pub header_size : ℕ
header_size = 9

-- The all-zero header, which ends a connection.
unfoldable pub is_goodbye : Header → Bool
is_goodbye h = h.flag == 0 && h.len == 0 && h.req == 0

-- The header that the writer puts before a body.
abbrev pub header_of : Packet → Header
header_of p = record { flag = p.flag; len = length p.body % 2 ^ 32; req = p.req }

-- A packet on the wire.
abbrev pub encode : Packet → Bytes
encode p = header_bytes (header_of p) ++ p.body

pub from_be-be32 : (w : ℕ) → IsWord w → from_be (be32 w) ≡ w
unfolding from_be be32
from_be-be32 w h = omega arith

pub length-header_bytes : (h : Header) → length (header_bytes h) ≡ header_size
unfolding header_bytes
length-header_bytes h = refl

pub parse_header-header_bytes :
    (h : Header) → IsWord h.len → IsWord h.req → parse_header (header_bytes h) ≡ h
unfolding parse_header header_bytes
parse_header-header_bytes h hl hr =
    λ i. record { flag = h.flag; len = from_be-be32 h.len hl i; req = from_be-be32 h.req hr i }

pub be32-from_be :
    (a b c d : ℕ)
    → IsByte a
    → IsByte b
    → IsByte c
    → IsByte d
    → be32 (from_be (a ∷ b ∷ c ∷ d ∷ [])) ≡ a ∷ b ∷ c ∷ d ∷ []
unfolding be32 from_be
be32-from_be a b c d ha hb hc hd = ground arith
