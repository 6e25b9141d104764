-- ===== src/Gen/Templates.antt =====
-- The templates of muxgen and `Generate`. `{{-` and `-}}` take the space beside them away.
use go_muxrpc.Base.{List, [], ◌∷◌, Text, text, text_eq, joined, if◌then◌else◌}
use go_muxrpc.Errors.{new, Result, ok, err}
use go_muxrpc.Gen.{Func, signature, as_args, func_name}

-- A new line with so many tabs.
abbrev line : Text
line = 10 ∷ []

abbrev line1 : Text
line1 = 10 ∷ 9 ∷ []

abbrev line2 : Text
line2 = 10 ∷ 9 ∷ 9 ∷ []

-- `{{- with .Args.AsArgs}}, {{ . }} {{- end}}`
unfoldable pub with_as_args : Text → Text
with_as_args [] = []
with_as_args (b ∷ t) = b',' ∷ b' ' ∷ b ∷ t

unfoldable pub header : Func → Text
header f = joined (
    text "func (edp "
    ∷ f.receiver
    ∷ text ") "
    ∷ func_name f
    ∷ text "("
    ∷ signature f.args
    ∷ text ") "
    ∷ [])

unfoldable pub tipe_line : Func → Text
tipe_line f = joined (line1 ∷ text "var tipe " ∷ f.out_type ∷ [])

-- From the method on to the end of the error branch.
unfoldable pub call_end : (List Text → Text) → Text → Func → Text
unfolding with_as_args
call_end go_syntax kind f = joined (
    go_syntax f.method
    ∷ with_as_args (as_args f.args)
    ∷ text ")"
    ∷ line1
    ∷ text "if err != nil {"
    ∷ line2
    ∷ text "return nil, errors.Wrap(err, \"error in "
    ∷ kind
    ∷ text " call to "
    ∷ func_name f
    ∷ text "\")"
    ∷ line1
    ∷ text "}"
    ∷ line
    ∷ [])

module _ (go_syntax : List Text → Text) where
  -- `generateAsync`
  unfoldable pub generate_async : Func → Text
  unfolding header tipe_line call_end
  generate_async f = joined (
      header f
      ∷ text "("
      ∷ f.out_type
      ∷ text ", error) {"
      ∷ tipe_line f
      ∷ line1
      ∷ text "v, err := edp.Endpoint.Async(ctx, tipe, "
      ∷ call_end go_syntax (text "async") f
      ∷ line1
      ∷ text "return v.("
      ∷ f.out_type
      ∷ text "), nil"
      ∷ line
      ∷ text "}"
      ∷ [])

  -- `generateSource`
  unfoldable pub generate_source : Func → Text
  unfolding header tipe_line call_end
  generate_source f = joined (
      header f
      ∷ text "(luigi.Source, error) {"
      ∷ tipe_line f
      ∷ line1
      ∷ text "src, err := edp.Endpoint.Source(ctx, tipe, "
      ∷ call_end go_syntax (text "source") f
      ∷ line1
      ∷ text "return src, nil"
      ∷ line
      ∷ text "}"
      ∷ [])

  -- `generateSink`
  unfoldable pub generate_sink : Func → Text
  unfolding header call_end
  generate_sink f = joined (
      header f
      ∷ text "(luigi.Sink, error) {"
      ∷ line1
      ∷ text "sink, err := edp.Endpoint.Sink(ctx, "
      ∷ call_end go_syntax (text "sink") f
      ∷ line1
      ∷ text "return sink, nil"
      ∷ line
      ∷ text "}"
      ∷ [])

  -- `generateDuplex`
  unfoldable pub generate_duplex : Func → Text
  unfolding header tipe_line call_end
  generate_duplex f = joined (
      header f
      ∷ text "(luigi.Source, luigi.Sink, error) {"
      ∷ tipe_line f
      ∷ line1
      ∷ text "src, sink, err := edp.Endpoint.Duplex(ctx, tipe, "
      ∷ call_end go_syntax (text "sink") f
      ∷ line1
      ∷ text "return sink, nil"
      ∷ line
      ∷ text "}"
      ∷ [])

  -- `Generate`
  unfoldable pub generate : Func → Result Text
  unfolding text_eq generate_async generate_source generate_sink generate_duplex
  generate f =
      if text_eq f.tipe (text "async")
      then ok (generate_async f)
      else if text_eq f.tipe (text "source")
      then ok (generate_source f)
      else if text_eq f.tipe (text "sink")
      then ok (generate_sink f)
      else if text_eq f.tipe (text "duplex")
      then ok (generate_duplex f)
      else err (new (text "unknown call type "))
