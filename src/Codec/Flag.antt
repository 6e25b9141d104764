-- ===== src/Codec/Flag.antt =====
-- codec/packet.go: the flags of a packet, one byte.
use go_muxrpc.Base.{
  ℕ, ◌-◌, ◌<◌, ◌≡◌, refl, Bool, true, false, ◌&&◌, ◌||◌, not, List, [], ◌∷◌, ◌++◌, bit_and, bit_or,
  ◌==◌, ltb, arith, Text, text, join,
}
use go_muxrpc.Base.Bits.{passes, passes_each}

-- FlagString, FlagJSON, FlagEndErr and FlagStream.
abbrev pub string : ℕ
string = 1

abbrev pub json : ℕ
json = 2

abbrev pub end_err : ℕ
end_err = 4

abbrev pub stream : ℕ
stream = 8

unfoldable pub set : ℕ → ℕ → ℕ
set f g = bit_or f g

-- `f & ^g`, where `^g` on a byte is `255 - g`.
unfoldable pub clear : ℕ → ℕ → ℕ
clear f g = bit_and f (255 - g)

unfoldable pub get : ℕ → ℕ → Bool
get f g = bit_and f g == g

name_if : Bool → Text → List Text
name_if true s = s ∷ []
name_if false s = []

unfoldable pub to_text : ℕ → Text
unfolding get name_if
to_text f =
    text "{"
    ++ (join (text ", ") (
          name_if (get f string) (text "FlagString")
          ++ (name_if (get f json) (text "FlagJSON")
              ++ (name_if (get f stream) (text "FlagStream")
                  ++ name_if (get f end_err) (text "FlagEndErr"))))
        ++ text "}")

-- The four flags by name, for statements about all of them.
pub data Bit : Type 0 where
  string_bit json_bit end_err_bit stream_bit : Bit

abbrev pub mask : Bit → ℕ
mask string_bit = string
mask json_bit = json
mask end_err_bit = end_err
mask stream_bit = stream

agree : Bool → Bool → Bool
agree true true = true
agree false false = true
agree _ _ = false

agree→eq : (a b : Bool) → agree a b ≡ true → a ≡ b
unfolding agree
agree→eq a b h = ground arith

every : (Bit → Bool) → Bool
every p = p string_bit && (p json_bit && (p end_err_bit && p stream_bit))

every_sound : (p : Bit → Bool) → every p ≡ true → (b : Bit) → p b ≡ true
unfolding every
every_sound p e string_bit = ground arith
every_sound p e json_bit = ground arith
every_sound p e end_err_bit = ground arith
every_sound p e stream_bit = ground arith

set_law : Bit → Bit → ℕ → Bool
unfolding get set agree
set_law g h f = agree (get (set f (mask h)) (mask g)) (mask g == mask h || get f (mask g))

clear_law : Bit → Bit → ℕ → Bool
unfolding get clear agree
clear_law g h f = agree (get (clear f (mask h)) (mask g)) (not (mask g == mask h) && get f (mask g))

set_table : passes (λ f. every (λ g. every (λ h. set_law g h f))) 256 ≡ true
unfolding set_law every passes
set_table = refl

clear_table : passes (λ f. every (λ g. every (λ h. clear_law g h f))) 256 ≡ true
unfolding clear_law every passes
clear_table = refl

-- On a byte, `Set` sets its own flag and no other, and `Clear` clears its own and no other.
pub get-set-clear :
    (f : ℕ) (g h : Bit)
    → f < 256
    → (get (set f (mask h)) (mask g) ≡ (mask g == mask h || get f (mask g)))
      × (get (clear f (mask h)) (mask g) ≡ (not (mask g == mask h) && get f (mask g)))
unfolding set_law clear_law
get-set-clear f g h lt = (
  agree→eq _ _ (every_sound _ (every_sound _ (passes_each _ 256 set_table f lt) g) h),
  agree→eq _ _ (every_sound _ (every_sound _ (passes_each _ 256 clear_table f lt) g) h),
)

byte_table : passes (λ f. every (λ h. ltb (set f (mask h)) 256)) 256 ≡ true
unfolding every passes set
byte_table = refl

pub set-lt : (f : ℕ) (h : Bit) → f < 256 → set f (mask h) < 256
set-lt f h lt = ground (
  arith,
  every_sound (λ h. ltb (set f (mask h)) 256)
      (passes_each (λ f. every (λ h. ltb (set f (mask h)) 256)) 256 byte_table f lt) h,
)

clear_byte_table : passes (λ f. every (λ h. ltb (clear f (mask h)) 256)) 256 ≡ true
unfolding every passes clear
clear_byte_table = refl

pub clear-lt : (f : ℕ) (h : Bit) → f < 256 → clear f (mask h) < 256
clear-lt f h lt = ground (
  arith,
  every_sound (λ h. ltb (clear f (mask h)) 256)
      (passes_each (λ f. every (λ h. ltb (clear f (mask h)) 256)) 256 clear_byte_table f lt) h,
)

set_none_table : passes (λ f. set f 0 == f) 256 ≡ true
unfolding passes set
set_none_table = refl

pub set_none : (f : ℕ) → f < 256 → set f 0 ≡ f
set_none f lt = ground (arith, passes_each (λ f. set f 0 == f) 256 set_none_table f lt)
