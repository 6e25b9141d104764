-- ===== src/Gen/RoundTrip.antt =====
-- A command line of muxgen is read as what it was printed from.
use go_muxrpc.Base.{
  ℕ, ◌≡◌, refl, ap, sym, ◌∙◌, false, none, List, [], ◌∷◌, ◌++◌, append_assoc, ==_refl, All-append,
  map, Text, text, text_eq, join, All, ◌==◌,
}
use go_muxrpc.Errors.{ok}
use go_muxrpc.Gen.Flags.{
  split, no_flags, set_flag, plain, look_at, look_name, flag_named, cut_value, parse_flags,
}
use go_muxrpc.Gen.{
  Arg, Func, parse_arg, parse_each, parse_args, and_args, with_args, with_flags, parse,
}

-- A text without a separator.
abbrev pub Lacks : ℕ → Text → Type 0
Lacks sep = All (λ b. (b == sep) ≡ false)

split_word : (sep : ℕ) (w : Text) → Lacks sep w → split sep w ≡ w ∷ []
unfolding split
split_word sep [] h = refl
split_word sep (b ∷ w) h = rw (h.0, split_word sep w h.1) refl

split-append : (sep : ℕ) (w t : Text) → Lacks sep w → split sep (w ++ (sep ∷ t)) ≡ w ∷ split sep t
unfolding split
split-append sep [] t h = rw (==_refl sep) refl
split-append sep (b ∷ w) t h = rw (h.0, split-append sep w t h.1) refl

-- Split undoes Join, for one word at least.
pub split-join :
    (sep : ℕ) (w : Text) (ws : List Text)
    → Lacks sep w
    → All (Lacks sep) ws
    → split sep (join (sep ∷ []) (w ∷ ws)) ≡ w ∷ ws
unfolding join
split-join sep w [] h hs = split_word sep w h
split-join sep w (v ∷ ws) h hs =
    split-append sep w (join (sep ∷ []) (v ∷ ws)) h
    ∙ ap (λ r. w ∷ r) (split-join sep v ws hs.0 hs.1)

-- An argument as it is written on the command line, and a list of them.
unfoldable pub arg_text : Arg → Text
arg_text a = a.name ++ (b':' ∷ a.tipe)

unfoldable pub args_text : List Arg → Text
unfolding arg_text
args_text args = join (b',' ∷ []) (map arg_text args)

pub record IsPlainArg (a : Arg) : Type 0 where
  pub name_colon : Lacks b':' a.name
  pub tipe_colon : Lacks b':' a.tipe
  pub name_comma : Lacks b',' a.name
  pub tipe_comma : Lacks b',' a.tipe

parse_arg-arg_text : (a : Arg) → IsPlainArg a → parse_arg (arg_text a) ≡ ok a
unfolding parse_arg arg_text
parse_arg-arg_text a h =
    rw (split-append b':' a.name a.tipe h.name_colon, split_word b':' a.tipe h.tipe_colon) refl

arg_text-Lacks : (a : Arg) → IsPlainArg a → Lacks b',' (arg_text a)
unfolding arg_text
arg_text-Lacks a h =
    All-append (λ b. (b == b',') ≡ false) a.name (b':' ∷ a.tipe) h.name_comma (refl, h.tipe_comma)

arg_texts-Lacks : (args : List Arg) → All IsPlainArg args → All (Lacks b',') (map arg_text args)
arg_texts-Lacks [] h = tt
arg_texts-Lacks (a ∷ args) h = (arg_text-Lacks a h.0, arg_texts-Lacks args h.1)

parse_each-arg_texts :
    (args : List Arg) → All IsPlainArg args → parse_each (map arg_text args) ≡ ok args
unfolding parse_each
parse_each-arg_texts [] h = refl
parse_each-arg_texts (a ∷ args) h =
    ap (λ r. and_args r (parse_each (map arg_text args))) (parse_arg-arg_text a h.0)
    ∙ ap (and_args (ok a)) (parse_each-arg_texts args h.1)

-- A text that is not empty is split.
parse_args_more :
    (n t : Text) (c : ℕ) → parse_args (n ++ (c ∷ t)) ≡ parse_each (split b',' (n ++ (c ∷ t)))
unfolding parse_args
parse_args_more [] t c = refl
parse_args_more (b ∷ n) t c = refl

args_text_more :
    (a : Arg) (args : List Arg) → (t : Text) × (args_text (a ∷ args) ≡ a.name ++ (b':' ∷ t))
unfolding args_text join
args_text_more a [] = (a.tipe, refl)
args_text_more a (b ∷ args) = (
  a.tipe ++ (b',' ∷ join (b',' ∷ []) (map arg_text (b ∷ args))),
  append_assoc a.name (b':' ∷ a.tipe) _,
)

parse_args-args_text :
    (args : List Arg) → All IsPlainArg args → parse_args (args_text args) ≡ ok args
unfolding args_text
parse_args-args_text [] h = unfold parse_args join in refl
parse_args-args_text (a ∷ args) h =
    let (t, shape) = args_text_more a args in
    ap parse_args shape
    ∙ parse_args_more a.name t b':'
    ∙ ap (λ s. parse_each (split b',' s)) (sym shape)
    ∙ ap parse_each (
        split-join b',' (arg_text a) (map arg_text args) (arg_text-Lacks a h.0)
          (arg_texts-Lacks args h.1))
    ∙ parse_each-arg_texts (a ∷ args) h

-- The command line for a function.
unfoldable pub command_line : Func → List Text
unfolding args_text
command_line f =
    text "-args"
    ∷ args_text f.args
    ∷ text "-outtype"
    ∷ f.out_type
    ∷ f.receiver
    ∷ f.tipe
    ∷ join (b'.' ∷ []) f.method
    ∷ []

flags_read :
    (f : Func)
    → look_at f.receiver ≡ plain
    → parse_flags none no_flags (command_line f)
      ≡ ok (
        record { args = args_text f.args; out_type = f.out_type },
        f.receiver ∷ f.tipe ∷ join (b'.' ∷ []) f.method ∷ [],
      )
unfolding parse_flags command_line text look_at look_name flag_named cut_value set_flag text_eq
flags_read f h = rw (h, parse_flags) refl

-- A function that is written as a command line of muxgen, with its arguments behind -args and its type
-- behind -outtype, is read back as itself, where the names and types of its arguments have no colon and no
-- comma, the parts of its method, of which there is one at least, have no dot, and its receiver does not
-- look like a flag.
pub parse-command_line :
    (f : Func) (m : Text) (ms : List Text)
    → f.method ≡ m ∷ ms
    → Lacks b'.' m
    → All (Lacks b'.') ms
    → All IsPlainArg f.args
    → look_at f.receiver ≡ plain
    → parse (command_line f) ≡ ok f
unfolding parse
parse-command_line f m ms e h hs plain_args plain_receiver =
    ap with_flags (flags_read f plain_receiver)
    ∙ ap
        (with_args (record { args = args_text f.args; out_type = f.out_type }) f.receiver f.tipe
          (join (b'.' ∷ []) f.method))
        (parse_args-args_text f.args plain_args)
    ∙ ap (λ l. ok (record f { method = l })) method_read
  where
    method_read : split b'.' (join (b'.' ∷ []) f.method) ≡ f.method
    method_read = ap (λ l. split b'.' (join (b'.' ∷ []) l)) e ∙ split-join b'.' m ms h hs ∙ sym e
