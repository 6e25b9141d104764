-- ===== src/Mux.antt =====
-- handler.go and typemux: the handlers of a server, by the names of their methods.
--
-- A handler of the typed mux is a stub around a function of the program that uses the library: such
-- functions are arguments. They may write to the session, and they return an error or nil.
pub mod Prefix
pub mod Stubs
pub mod Answers
use go_muxrpc.Base.{
  ℕ, zero, suc, ◌≡◌, Bool, true, false, ◌||◌, Option, none, some, List, [], ◌∷◌, Text, text,
  text_eq, length, take, if◌then◌else◌,
}
use go_muxrpc.Errors.{Err, new}
use go_muxrpc.Errors.Message.{method_text}
use go_muxrpc.External.{External}
use go_muxrpc.Session.State.{Session, Request}
use go_muxrpc.Session.Requests.{close_request}

-- `map[string]Handler`
module _ {ℓ} {H : Type ℓ} where
  unfoldable pub find : Text → List (Text × H) → Option H
  find k [] = none
  find k ((j, h) ∷ m) = if text_eq j k then some h else find k m

  unfoldable pub put : Text → H → List (Text × H) → List (Text × H)
  put k h [] = (k, h) ∷ []
  put k h ((j, g) ∷ m) = if text_eq j k then (k, h) ∷ m else (j, g) ∷ put k h m

  -- `Register`, and the four of typemux, where the value is a stub.
  unfoldable pub register : List Text → H → List (Text × H) → List (Text × H)
  register m h hm = put (method_text m) h hm

  -- The loop of `HandleCall` over the front parts of the method, longest first.
  unfoldable pub handler_from : ℕ → List Text → List (Text × H) → Option H
  handler_from zero m hm = none
  handler_from (suc n) m hm = elim (find (method_text (take (suc n) m)) hm) [
    | some h ↦ some h
    | none ↦ handler_from n m hm
  ]

  unfoldable pub handler_of : List Text → List (Text × H) → Option H
  handler_of m hm = handler_from (length m) m hm

  -- `Handled` of typemux: only the whole name.
  unfoldable pub typed_handled : List Text → List (Text × H) → Bool
  typed_handled m hm = elim (find (method_text m) hm) [ some h ↦ true | none ↦ false ]

  -- `Handled` of handler.go: some handler says so. The order of the map does not matter to it.
  unfoldable pub any_handled : (H → Bool) → List (Text × H) → Bool
  any_handled says [] = false
  any_handled says ((k, h) ∷ hm) = says h || any_handled says hm

-- A `CallHandler`
abbrev pub CallHandler : Type 0
CallHandler = Request → Session → Session

-- `HandleCall`; `unknown` is the text of its error, which the two muxes word differently.
unfoldable pub handle_call :
    External → Bool → Text → List (Text × CallHandler) → Request → Session → Session
handle_call x late unknown hm r s = elim (handler_of r.method hm) [
  | some h ↦ h r s
  | none ↦ close_request x late (some (new unknown)) r s
]

-- `ApplyHandlerWrappers`
unfoldable pub apply_handler_wrappers {ℓ} : {H : Type ℓ} → H → List (H → H) → H
apply_handler_wrappers h [] = h
apply_handler_wrappers h (w ∷ ws) = apply_handler_wrappers (w h) ws

-- `New` of typemux, with no handlers.
unfoldable pub new_mux : List (Text × CallHandler)
new_mux = []

-- `HandleConnect` of both muxes: one goroutine for each handler, with its `HandleConnect`.
unfoldable pub handle_connect {ℓ κ} : {H : Type ℓ} {A : Type κ} → (H → A) → List (Text × H) → List A
handle_connect connect [] = []
handle_connect connect ((k, h) ∷ hm) = connect h ∷ handle_connect connect hm
