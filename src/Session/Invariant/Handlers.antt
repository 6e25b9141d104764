-- ===== src/Session/Invariant/Handlers.antt =====
-- What those who hold a request do with it leads from a reached session to a reached one.
use go_muxrpc.Base.{
  ℕ, ◌≡◌, refl, ap, ◌∙◌, Bool, Option, some, List, Text, Bool-cases, Option-cases, inl, inr,
}
use go_muxrpc.Base.Assoc.{lookup}
use go_muxrpc.Errors.{Result, ok, err}
use go_muxrpc.External.{External}
use go_muxrpc.Codec.Stream.{Bytes, Output}
use go_muxrpc.Source.ByteSource.{ByteSource}
use go_muxrpc.Sink.{ByteSink, set_encoding, type_string, type_json}
use go_muxrpc.Sink
use go_muxrpc.Sink.Fields.{write-req, set_encoding-req}
use go_muxrpc.Session.State.{Session, Request, set_request, set_output}
use go_muxrpc.Session.Requests.{
  ReturnValue, string_value, json_value, written, return_value, return_call, returns, return_bytes,
  set_or_same, or_same,
}
use go_muxrpc.Session.Invariant.Reach.{Reach, uses}

set_or_same-req : (re : ℕ) (bs : ByteSink) → (set_or_same re bs).req ≡ bs.req
set_or_same-req re bs = elim (Option-cases (set_encoding re bs)) [
  | inl n ↦ ap (λ (o : Option ByteSink). (or_same bs o).req) n
  | inr (bs', e) ↦ ap (λ (o : Option ByteSink). (or_same bs o).req) e ∙ set_encoding-req re bs bs' e
]

-- A step on a request that is held, from one reached session to another.
module _ {x : External} {handled : List Text → Bool} {s : Session} (reached : Reach x handled s)
    (r : Request) (found : lookup r.id s.store ≡ some r) (own : r.sink.req ≡ r.id) where
  written-Reach :
      (w : ByteSink × Output × Result ℕ) → w.0.req ≡ r.sink.req → Reach x handled (written r w s).0
  unfolding written
  written-Reach (bs, o, ok n) e = uses reached r found own (record r { sink = bs }) refl e o
  written-Reach (bs, o, err x') e = uses reached r found own (record r { sink = bs }) refl e o

  return_bytes-Reach : (re : ℕ) (b : Bytes) → Reach x handled (return_bytes re b r s).0
  return_bytes-Reach re b =
      written-Reach (Sink.write b (set_or_same re r.sink) s.packer.output)
        (write-req b (set_or_same re r.sink) s.packer.output ∙ set_or_same-req re r.sink)

  return_value-Reach : (v : ReturnValue) → Reach x handled (return_value v r s).0
  unfolding return_value set_output
  return_value-Reach (string_value t) = return_bytes-Reach type_string t
  return_value-Reach (json_value (ok b)) = return_bytes-Reach type_json b
  return_value-Reach (json_value (err e)) =
      uses reached r found own (record r { sink = set_or_same type_json r.sink }) refl
        (set_or_same-req type_json r.sink) s.packer.output

  pub return_call-Reach : (v : ReturnValue) → Reach x handled (return_call v r s).0
  unfolding return_call
  return_call-Reach v = elim (Bool-cases (returns r.call_type)) [
    | inl yes_returns ↦ rw yes_returns (return_value-Reach v)
    | inr no_returns ↦ rw no_returns reached
  ]

  -- A write on the response sink, and any use of the source.
  pub write-Reach :
      (b : Bytes)
      → let (bs, o, n) = Sink.write b r.sink s.packer.output in
        Reach x handled (set_request (record r { sink = bs }) (set_output o s))
  write-Reach b =
      uses reached r found own (record r { sink = (Sink.write b r.sink s.packer.output).0 }) refl
        (write-req b r.sink s.packer.output) (Sink.write b r.sink s.packer.output).1

  pub source-Reach :
      (src : ByteSource) → Reach x handled (set_request (record r { source = src }) s)
  unfolding set_output
  source-Reach src = uses reached r found own (record r { source = src }) refl refl s.packer.output
