-- ===== src/Gen/Flags.antt =====
-- The package `flag` of the standard library at the two flags of muxgen, and `strings.Split`.
use go_muxrpc.Base.{ℕ, Option, none, some, List, [], ◌∷◌, Text, text, text_eq, ◌==◌, if◌then◌else◌}
use go_muxrpc.Errors.{new, Result, ok, err}

abbrev push : ℕ → List Text → List Text
push b [] = (b ∷ []) ∷ []
push b (w ∷ ws) = (b ∷ w) ∷ ws

-- `strings.Split` at a separator of one byte.
unfoldable pub split : ℕ → Text → List Text
split sep [] = [] ∷ []
split sep (b ∷ t) = let rest = split sep t in if b == sep then [] ∷ rest else push b rest

pub record FlagSet : Type 0 where
  pub args : Text
  pub out_type : Text

abbrev pub no_flags : FlagSet
no_flags = record { args = []; out_type = [] }

pub data FlagName : Type 0 where
  args_flag outtype_flag : FlagName

unfoldable pub set_flag : FlagName → Text → FlagSet → FlagSet
set_flag args_flag v fs = record fs { args = v }
set_flag outtype_flag v fs = record fs { out_type = v }

-- How an argument is taken: it is no flag, the end of the flags, not one of ours, a flag with its value,
-- or a flag whose value is the next argument.
pub data Look : Type 0 where
  plain terminator bad : Look
  valued : FlagName → Text → Look
  wants : FlagName → Look

unfoldable pub flag_named : Text → Option FlagName
unfolding text_eq
flag_named n =
    if text_eq n (text "args")
    then some args_flag
    else if text_eq n (text "outtype")
    then some outtype_flag
    else none

-- A name of one byte at least, and what stands behind its first `=`, if there is one.
unfoldable pub cut_value : Text → Text × Option Text
cut_value [] = ([], none)
cut_value (b ∷ t) = let (n, v) = cut_value t in if b == b'=' then ([], some t) else (b ∷ n, v)

abbrev look_named : Option FlagName → Option Text → Look
look_named none v = bad
look_named (some n) none = wants n
look_named (some n) (some v) = valued n v

unfoldable pub look_name : Text → Look
unfolding flag_named cut_value
look_name [] = bad
look_name (b ∷ t) =
    let (n, v) = cut_value t in
    if b == b'-' then bad else if b == b'=' then bad else look_named (flag_named (b ∷ n)) v

abbrev look_dashed : Text → Look
look_dashed [] = plain
look_dashed (c ∷ []) = if c == b'-' then terminator else look_name (c ∷ [])
look_dashed (c ∷ d ∷ t) = if c == b'-' then look_name (d ∷ t) else look_name (c ∷ d ∷ t)

unfoldable pub look_at : Text → Look
unfolding look_name
look_at [] = plain
look_at (c ∷ t) = if c == b'-' then look_dashed t else plain

-- `FlagSet.Parse`. The first argument is the flag that waits for its value.
unfoldable pub parse_flags : Option FlagName → FlagSet → List Text → Result (FlagSet × List Text)
unfolding look_at set_flag
parse_flags none fs [] = ok (fs, [])
parse_flags (some n) fs [] = err (new (text "flag needs an argument"))
parse_flags (some n) fs (v ∷ args) = parse_flags none (set_flag n v fs) args
parse_flags none fs (s ∷ args) = elim (look_at s) [
  | plain ↦ ok (fs, s ∷ args)
  | terminator ↦ ok (fs, args)
  | bad ↦ err (new (text "flag provided but not defined"))
  | valued n v ↦ parse_flags none (set_flag n v fs) args
  | wants n ↦ parse_flags (some n) fs args
]
