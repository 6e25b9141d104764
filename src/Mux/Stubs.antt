-- ===== src/Mux/Stubs.antt =====
-- typemux/async.go, source.go, sink.go and duplex.go: what is done around a typed handler.
use go_muxrpc.Base.{Bool, Option, none, some, List, Text}
use go_muxrpc.Base.Assoc.{lookup}
use go_muxrpc.Errors.{Err, Result, ok, err}
use go_muxrpc.External.{External}
use go_muxrpc.Source.ByteSource.{ByteSource}
use go_muxrpc.Sink.{ByteSink}
use go_muxrpc.Session.State.{Session, Request}
use go_muxrpc.Session.Requests.{
  response_sink, response_source, ReturnValue, return_call, close_request,
}
use go_muxrpc.Mux.{CallHandler, register}

-- The handler and the stub share one `*Request`: after the handler, the request is what the handler has
-- left in the store under its id.
unfoldable pub current : Request → Session → Request
current r s = elim (lookup r.id s.store) [ some q ↦ q | none ↦ r ]

-- The error of the handler closes the request.
unfoldable pub answer : External → Bool → Request → Session × Option Err → Session
unfolding current
answer x late r (s, none) = s
answer x late r (s, some e) = close_request x late (some e) (current r s) s

unfoldable pub answer_async : External → Bool → Request → Session × Result ReturnValue → Session
unfolding current
answer_async x late r (s, ok v) = (return_call v (current r s) s).0
answer_async x late r (s, err e) = close_request x late (some e) (current r s) s

-- `asyncStub.HandleCall`; an error of `Return` is only logged.
unfoldable pub async_stub :
    External → Bool → (Request → Session → Session × Result ReturnValue) → CallHandler
unfolding answer_async
async_stub x late h r s = answer_async x late r (h r s)

-- `sourceStub.HandleCall`
unfoldable pub source_stub :
    External → Bool → (Request → ByteSink → Session → Session × Option Err) → CallHandler
unfolding answer
source_stub x late h r s = elim (response_sink r) [
  | err e ↦ close_request x late (some e) r s
  | ok w ↦ answer x late r (h r w s)
]

-- `sinkStub.HandleCall`
unfoldable pub sink_stub :
    External → Bool → (Request → ByteSource → Session → Session × Option Err) → CallHandler
unfolding answer
sink_stub x late h r s = elim (response_source r) [
  | err e ↦ close_request x late (some e) r s
  | ok src ↦ answer x late r (h r src s)
]

-- `duplexStub.HandleCall`
unfoldable pub duplex_stub :
    External
    → Bool
    → (Request → ByteSource → ByteSink → Session → Session × Option Err)
    → CallHandler
unfolding answer
duplex_stub x late h r s = elim (response_source r) [
  | err e ↦ close_request x late (some e) r s
  | ok src ↦ elim (response_sink r) [
    | err e ↦ close_request x late (some e) r s
    | ok w ↦ answer x late r (h r src w s)
  ]
]

abbrev pub Handlers : Type 0
Handlers = List (Text × CallHandler)

-- `RegisterAsync`, `RegisterSource`, `RegisterSink` and `RegisterDuplex`
unfoldable pub register_async :
    External
    → Bool
    → List Text
    → (Request → Session → Session × Result ReturnValue)
    → Handlers
    → Handlers
register_async x late m h hm = register m (async_stub x late h) hm

unfoldable pub register_source :
    External
    → Bool
    → List Text
    → (Request → ByteSink → Session → Session × Option Err)
    → Handlers
    → Handlers
register_source x late m h hm = register m (source_stub x late h) hm

unfoldable pub register_sink :
    External
    → Bool
    → List Text
    → (Request → ByteSource → Session → Session × Option Err)
    → Handlers
    → Handlers
register_sink x late m h hm = register m (sink_stub x late h) hm

unfoldable pub register_duplex :
    External
    → Bool
    → List Text
    → (Request → ByteSource → ByteSink → Session → Session × Option Err)
    → Handlers
    → Handlers
register_duplex x late m h hm = register m (duplex_stub x late h) hm
