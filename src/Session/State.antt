-- ===== src/Session/State.antt =====
-- The state of `rpc`, and the parts of rpc_server.go that its loop and its callers share.
--
-- `reqs` and `reqs_closed` hold the keys of the Go maps of these names. A value of the map `reqs` is
-- a pointer to a request that has the key for its id; `store` holds every request that was made, by
-- its id, so a request that has left the map can still be seen by those who hold it.
use go_muxrpc.Base.{ℕ, Bool, true, Option, none, some, List, [], ◌∷◌, Text, if◌then◌else◌}
use go_muxrpc.Base.Assoc.{member, add, remove, lookup, insert}
use go_muxrpc.Errors.{Err, sentinel, canceled, session_terminated, CallType}
use go_muxrpc.External.{External}
use go_muxrpc.Codec.Stream.{Bytes, Input, Output}
use go_muxrpc.Source.ByteSource.{ByteSource, cancel}
use go_muxrpc.Sink.{ByteSink, close_with_error}
use go_muxrpc.Manifest.{Manifest}
use go_muxrpc.Session.Packer.{Packer, close_packer}

-- `of_session` is that the context of the request comes from that of the session, and `abortable`
-- that `abort` cancels it (else it does nothing).
pub record Request : Type 0 where
  pub call_type : CallType
  pub method : List Text
  pub raw_args : Option Bytes
  pub id : ℕ
  pub source : ByteSource
  pub sink : ByteSink
  pub abortable : Bool
  pub of_session : Bool

-- `calls` are the requests for which `HandleCall` was started. `serve_err` is `serveCtx.Err()`.
pub record Session : Type 0 where
  pub packer : Packer
  pub highest : ℕ
  pub reqs : List ℕ
  pub reqs_closed : List ℕ
  pub store : List (ℕ × Request)
  pub calls : List ℕ
  pub terminated : Bool
  pub serve_err : Option Err
  pub manifest : Manifest

-- `r.reqs[id]`
unfoldable pub active : ℕ → Session → Option Request
unfolding member lookup
active id s = if member id s.reqs then lookup id s.store else none

abbrev pub first_err : Option Err → Err → Option Err
first_err none e = some e
first_err (some f) e = some f

-- The context of a request ends.
unfoldable pub end_context : Request → Request
end_context r = record r {
  source = record r.source { stream_err = first_err r.source.stream_err (sentinel canceled) };
  sink = record r.sink { stream_err = first_err r.sink.stream_err (sentinel canceled) };
}

unfoldable pub abort : Request → Request
unfolding end_context
abort r = if r.abortable then end_context r else r

-- A source is never closed twice (Source.ByteSource.Life), so `cancel` has a result.
unfoldable pub cancel_source : Option Err → ByteSource → ByteSource
cancel_source e bs = elim (cancel e bs) [ some bs' ↦ bs' | none ↦ bs ]

-- The source is cancelled, the sink is closed, which may send a last packet.
unfoldable pub end_request : External → Bool → Option Err → Request → Output → Request × Output
unfolding cancel_source
end_request x late e r o =
    let (sink, o', _) = close_with_error x late e r.sink o in
    (record r { source = cancel_source e r.source; sink = sink }, o')

-- `delete(r.reqs, id); r.reqsClosed[id] = struct{}{}`
unfoldable pub retire : ℕ → Session → Session
unfolding add remove
retire id s = record s { reqs = remove id s.reqs; reqs_closed = add id s.reqs_closed }

unfoldable pub set_output : Output → Session → Session
set_output o s = record s { packer = record s.packer { output = o } }

unfoldable pub set_input : Input → Session → Session
set_input i s = record s { packer = record s.packer { input = i } }

unfoldable pub set_request : Request → Session → Session
unfolding insert
set_request r s = record s { store = insert r.id r s.store }

-- `closeStream(req, streamErr)`
unfoldable pub close_stream : External → Bool → Request → Option Err → Session → Session
unfolding end_request abort set_output set_request retire
close_stream x late r e s =
    let (r', o) = end_request x late e r s.packer.output in
    retire r.id (set_request (abort r') (set_output o s))

-- The loop of `Terminate` over the active requests, which Go's map gives in any order. The output is
-- threaded through it.
unfoldable pub terminate_all : External → Bool → List ℕ → Session → Session
terminate_all x late [] s = s
terminate_all x late (id ∷ ids) s = terminate_all x late ids (elim (active id s) [
  | none ↦ s
  | some r ↦
      let (r', o) = end_request x late (some (sentinel session_terminated)) r s.packer.output in
      retire r.id (set_request r' (set_output o s))
])

-- `r.cancel()` ends the contexts that come from that of the session.
unfoldable pub end_contexts : List (ℕ × Request) → List (ℕ × Request)
unfolding end_context
end_contexts [] = []
end_contexts ((k, r) ∷ m) = (k, (if r.of_session then end_context r else r)) ∷ end_contexts m

-- `Terminate`
unfoldable pub terminate : External → Bool → Session → Session × Option Err
unfolding end_contexts
terminate x late s =
    let s' : Session = record s {
      serve_err = first_err s.serve_err (sentinel canceled);
      terminated = true;
      store = end_contexts s.store;
    } in
    let s'' = terminate_all x late s.reqs s' in
    let (p, e) = close_packer s''.packer in (record s'' { packer = p }, e)
