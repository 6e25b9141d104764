-- ===== src/Session/Open.antt =====
-- rpc_server.go, `Handle` and its options: the session as it is when its goroutines are started; and the
-- questions about an endpoint in rpc_server.go and endpoint.go.
use go_muxrpc.Base.{◌≡◌, sym, subst, Bool, true, false, Option, none, some, List, [], ◌∷◌, Text}
use go_muxrpc.Errors.{Err}
use go_muxrpc.Manifest.{Manifest, handled}
use go_muxrpc.External.{External}
use go_muxrpc.Session.Packer.{Packer}
use go_muxrpc.Session.State.{Session}
use go_muxrpc.Session.Invariant.Reach.{Reach, new_session, opened}

-- The fields of `rpc` that the options set. The error of a context is nil while it lives; an address is
-- its text.
pub record Setup : Type 0 where
  pub serve_ctx : Option (Option Err)
  pub remote : Option Text
  pub own_logger : Bool
  pub is_server : Bool

pub data HandleOption : Type 0 where
  with_context : Option Err → HandleOption
  with_remote_addr : Text → HandleOption
  with_logger : HandleOption
  with_is_server : Bool → HandleOption

unfoldable pub apply_option : HandleOption → Setup → Setup
apply_option (with_context e) c = record c { serve_ctx = some e }
apply_option (with_remote_addr a) c = record c { remote = some a }
apply_option with_logger c = record c { own_logger = true }
apply_option (with_is_server yes_no) c = record c { is_server = yes_no }

unfoldable pub apply_options : List HandleOption → Setup → Setup
unfolding apply_option
apply_options [] c = c
apply_options (o ∷ os) c = apply_options os (apply_option o c)

abbrev no_setup : Setup
no_setup = record { serve_ctx = none; remote = none; own_logger = false; is_server = false }

abbrev or_background : Option (Option Err) → Option Err
or_background none = none
or_background (some e) = e

abbrev or_address : Option Text → Option Text → Option Text
or_address none conn = conn
or_address (some a) conn = some a

pub record Endpoint : Type 0 where
  pub session : Session
  pub remote : Option Text
  pub is_server : Bool

-- `Handle` up to its goroutines; `conn_addr` is the address that the connection has, if any. The context
-- of the session is a child of the one that was given.
unfoldable pub handle : List HandleOption → Option Text → Packer → Endpoint
unfolding apply_options
handle opts conn_addr p =
    let c = apply_options opts no_setup in
    record {
      session = record (new_session p (record { missing = true; methods = [] })) {
        serve_err = or_background c.serve_ctx;
      };
      remote = or_address c.remote conn_addr;
      is_server = c.is_server;
    }

-- `IsServer` and `HasMethod` of an endpoint that is an `*rpc`; `HasMethod` is false for any other.
unfoldable pub is_server : Endpoint → Bool
is_server e = e.is_server

unfoldable pub has_method : Option Endpoint → List Text → Bool
unfolding handled
has_method none m = false
has_method (some e) m = elim (handled m e.session.manifest) [ some t ↦ true | none ↦ false ]

-- What is shown of reached sessions holds of that of `Handle`, if its context is alive.
pub handle-Reach :
    (x : External) (serves : List Text → Bool) (opts : List HandleOption) (conn_addr : Option Text)
    (p : Packer)
    → (handle opts conn_addr p).session.serve_err ≡ none
    → Reach x serves (handle opts conn_addr p).session
unfolding handle
handle-Reach x serves opts conn_addr p live =
    let m : Manifest = record { missing = true; methods = [] } in
    subst (λ e. Reach x serves (record (new_session p m) { serve_err = e })) (sym live) (opened p m)
