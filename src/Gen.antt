-- ===== src/Gen.antt =====
-- cmd/muxgen/muxgen.go: the generator of methods that call an endpoint.
--
-- Texts are taken to be ASCII. `go_syntax` is what the verb %#v prints of a method name.
pub mod Flags
pub mod Templates
pub mod RoundTrip
use go_muxrpc.Base.{
  ℕ, zero, suc, ◌+◌, ◌-◌, Bool, true, false, ◌&&◌, ◌||◌, Option, none, some, List, [], ◌∷◌, ◌++◌,
  map, Text, text, join, joined, leb, ◌==◌, if◌then◌else◌,
}
use go_muxrpc.Errors.{Err, new, wrap, Result, ok, err}
use go_muxrpc.Gen.Flags.{split, FlagSet, parse_flags, no_flags}

pub record Arg : Type 0 where
  pub name : Text
  pub tipe : Text

abbrev two_parts : List Text → Result Arg
two_parts (n ∷ t ∷ []) = ok (record { name = n; tipe = t })
two_parts _ = err (new (text "not exactly one : in "))

-- `parseArg`
unfoldable pub parse_arg : Text → Result Arg
parse_arg a = two_parts (split b':' a)

abbrev pub and_args : Result Arg → Result (List Arg) → Result (List Arg)
and_args (ok a) (ok as_rest) = ok (a ∷ as_rest)
and_args (ok a) (err e) = err e
and_args (err e) r = err (wrap (text "error parsing arg") e)

unfoldable pub parse_each : List Text → Result (List Arg)
unfolding parse_arg
parse_each [] = ok []
parse_each (s ∷ ss) = and_args (parse_arg s) (parse_each ss)

-- `parseArgs`
unfoldable pub parse_args : Text → Result (List Arg)
unfolding parse_each
parse_args [] = ok []
parse_args (b ∷ t) = parse_each (split b',' (b ∷ t))

abbrev comma : Text
comma = b',' ∷ b' ' ∷ []

-- `Args.Signature`
unfoldable pub signature : List Arg → Text
signature args = join comma (text "ctx context.Context" ∷ map (λ a. a.name ++ (b' ' ∷ a.tipe)) args)

-- `Args.AsArgs`
unfoldable pub as_args : List Arg → Text
as_args args = join comma (map (λ a. a.name) args)

pub record Func : Type 0 where
  pub receiver : Text
  pub tipe : Text
  pub method : List Text
  pub args : List Arg
  pub out_type : Text

-- `strings.Title`: the letters that begin a word become capitals. A word goes on over letters, digits
-- and underscores.
abbrev between : ℕ → ℕ → ℕ → Bool
between lo hi c = leb lo c && leb c hi

unfoldable pub in_word : ℕ → Bool
in_word c = between b'a' b'z' c || between b'A' b'Z' c || between b'0' b'9' c || c == b'_'

unfoldable pub upper : ℕ → ℕ
upper c = if between b'a' b'z' c then c - 32 else c

unfoldable pub title_from : Bool → Text → Text
unfolding upper in_word
title_from inside [] = []
title_from inside (c ∷ t) = (if inside then c else upper c) ∷ title_from (in_word c) t

-- `Func.Name`
unfoldable pub func_name : Func → Text
unfolding title_from
func_name f = joined (map (title_from false) f.method)

abbrev pub with_args : FlagSet → Text → Text → Text → Result (List Arg) → Result Func
with_args fs receiver tipe method (err e) = err (wrap (text "error parsing arguments") e)
with_args fs receiver tipe method (ok args) = ok (record {
  receiver = receiver;
  tipe = tipe;
  method = split b'.' method;
  args = args;
  out_type = fs.out_type;
})

abbrev pub three_args : FlagSet × List Text → Result Func
three_args (fs, receiver ∷ tipe ∷ method ∷ []) =
    with_args fs receiver tipe method (parse_args fs.args)
three_args (fs, _) = err (new (text "expected 3 args, got "))

abbrev pub with_flags : Result (FlagSet × List Text) → Result Func
with_flags (err e) = err (wrap (text "error parsing flags") e)
with_flags (ok p) = three_args p

-- `Parse`
unfoldable pub parse : List Text → Result Func
parse args = with_flags (parse_flags none no_flags args)
