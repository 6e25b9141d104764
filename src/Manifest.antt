-- ===== src/Manifest.antt =====
-- rpc_manifest.go: the methods that the remote says it has.
--
-- A Go map is an association list in some order; where the code ranges over one, the order of the
-- list is the order that it meets. A decoded JSON value is a text, an object, or anything else.
use go_muxrpc.Base.{
  ℕ, Bool, true, false, Option, none, some, List, [], ◌∷◌, ◌++◌, Text, text, text_eq, if◌then◌else◌,
}
use go_muxrpc.Errors.{Err, new, Result, ok, err}
use go_muxrpc.Errors.Message.{method_text}
pub mod Paths

mutual
  pub data Value : Type 0 where
    str : Text → Value
    obj : Fields → Value
    any : Value

  pub data Fields : Type 0 where
    end : Fields
    field : Text → Value → Fields → Fields

-- `manifestMap`, and `m[k]` and `m[k] = v` on it.
abbrev pub Methods : Type 0
Methods = List (Text × Text)

unfoldable pub lookup : Text → Methods → Option Text
lookup k [] = none
lookup k ((j, v) ∷ m) = if text_eq j k then some v else lookup k m

unfoldable pub insert : Text → Text → Methods → Methods
insert k v [] = (k, v) ∷ []
insert k v ((j, w) ∷ m) = if text_eq j k then (k, v) ∷ m else (j, w) ∷ insert k v m

unfoldable pub continue : Result Methods → (Methods → Result Methods) → Result Methods
continue (err e) f = err e
continue (ok m) f = f m

-- `recurseMap`, over the fields and over one value. The map is threaded through.
unfoldable mutual
  unfolding continue

  pub recurse_map : Fields → List Text → Methods → Result Methods
  recurse_map end prefix m = ok m
  recurse_map (field k v fs) prefix m =
      continue (recurse_value v (prefix ++ (k ∷ [])) m) (recurse_map fs prefix)

  pub recurse_value : Value → List Text → Methods → Result Methods
  recurse_value (str t) path m = ok (insert (method_text path) t m)
  recurse_value (obj fs) path m = recurse_map fs path m
  recurse_value any path m = err (new (text "unhandled type in map: "))

-- `UnmarshalJSON`, after the bytes were decoded to an object: the old map stays on an error.
unfoldable pub unmarshal : Fields → Methods → Methods × Option Err
unmarshal fs old = elim (recurse_map fs [] []) [ ok m ↦ (m, none) | err e ↦ (old, some e) ]

pub record Manifest : Type 0 where
  pub missing : Bool
  pub methods : Methods

-- `Handled`
unfoldable pub handled : List Text → Manifest → Option Text
handled m ms = if ms.missing then some [] else lookup (method_text m) ms.methods
