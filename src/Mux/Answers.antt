-- ===== src/Mux/Answers.antt =====
-- A call that typemux gives to an async handler, up to the packet that answers it.
use go_muxrpc.Base.{◌≤◌, ◌≡◌, ap, ◌∙◌, Bool, true, Option, none, some, List, ◌∷◌, Text, length}
use go_muxrpc.Base.Assoc.{lookup}
use go_muxrpc.Errors.{new, Result, ok}
use go_muxrpc.External.{External}
use go_muxrpc.Codec.Stream.{Bytes}
use go_muxrpc.Codec.Writer.{max_buffer_size}
use go_muxrpc.Sink.Closing.{IsReady}
use go_muxrpc.Session.State.{Session, Request}
use go_muxrpc.Session.Requests.{ReturnValue, returns, return_call, close_request}
use go_muxrpc.Session.Wire.Reply.{value_bytes, replied, return_call_sends}
use go_muxrpc.Mux.{CallHandler, handle_call, handler_of, register}
use go_muxrpc.Mux.Prefix.{handler_of-register}
use go_muxrpc.Mux.Stubs.{Handlers, current, register_async, async_stub, answer_async}

registered_call :
    (x : External) (late : Bool) (unknown : Text) (n : Text) (ns : List Text) (h : CallHandler)
    (hm : Handlers) (r : Request) (s : Session)
    → r.method ≡ n ∷ ns
    → handle_call x late unknown (register (n ∷ ns) h hm) r s ≡ h r s
unfolding handle_call
registered_call x late unknown n ns h hm r s named =
    ap
      (λ (o : Option CallHandler). elim o [
        | some g ↦ g r s
        | none ↦ close_request x late (some (new unknown)) r s
      ])
      (ap (λ m. handler_of m (register (n ∷ ns) h hm)) named ∙ (handler_of-register n ns h hm).0)

left_by : (r q : Request) (t : Session) → lookup r.id t.store ≡ some q → current r t ≡ q
unfolding current
left_by r q t left = ap (λ (o : Option Request). elim o [ some p ↦ p | none ↦ r ]) left

-- A call of a method that was registered by RegisterAsync runs its handler, which may have used the
-- request, so that it is `q` afterwards. Where the handler gives a value whose bytes fit, and `q` is an
-- async or sync request with a ready sink, over a connection that takes all: one packet is sent, under the
-- number of `q`, with these bytes, the flags of the sink of `q` and that of their encoding.
pub async_handler_answers :
    (x : External) (late : Bool) (unknown : Text) (n : Text) (ns : List Text)
    (h : Request → Session → Session × Result ReturnValue) (hm : Handlers) (r q : Request)
    (s t : Session) (v : ReturnValue) (b : Bytes)
    → r.method ≡ n ∷ ns
    → h r s ≡ (t, ok v)
    → lookup r.id t.store ≡ some q
    → value_bytes v ≡ ok b
    → returns q.call_type ≡ true
    → IsReady q.sink
    → length b ≤ max_buffer_size
    → t.packer.output.room ≡ none
    → handle_call x late unknown (register_async x late (n ∷ ns) h hm) r s ≡ replied v b q t
unfolding register_async async_stub answer_async
async_handler_answers x late unknown n ns h hm r q s t v b named runs left value ty ready fits
      room =
    registered_call x late unknown n ns (async_stub x late h) hm r s named
    ∙ ap (answer_async x late r) runs
    ∙ ap (λ k. (return_call v k t).0) (left_by r q t left)
    ∙ ap (λ c. c.0) (return_call_sends v b q t value ty ready fits room)
