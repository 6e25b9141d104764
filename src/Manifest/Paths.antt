-- ===== src/Manifest/Paths.antt =====
-- The flat map of a manifest has the path of every method.
use go_muxrpc.Base.{
  ◌≡◌, refl, Bool, true, false, ◌&&◌, none, some, List, [], ◌∷◌, ◌++◌, Text, text, if◌then◌else◌,
  Bool-cases, inl, inr,
}
use go_muxrpc.Errors.{new, Result, ok, err}
use go_muxrpc.Errors.Message.{method_text}
use go_muxrpc.Manifest.{
  Value, str, obj, any, Fields, end, field, Methods, insert, continue, recurse_map, recurse_value,
  unmarshal,
}

-- Every leaf of the object is a text.
unfoldable mutual
  pub is_plain : Fields → Bool
  is_plain end = true
  is_plain (field k v fs) = is_plain_value v && is_plain fs

  pub is_plain_value : Value → Bool
  is_plain_value (str t) = true
  is_plain_value (obj fs) = is_plain fs
  is_plain_value any = false

-- The leaves, in the order of the object, each with its path.
unfoldable mutual
  pub leaves : Fields → List Text → List (List Text × Text)
  leaves end path = []
  leaves (field k v fs) path = value_leaves v (path ++ (k ∷ [])) ++ leaves fs path

  pub value_leaves : Value → List Text → List (List Text × Text)
  value_leaves (str t) path = (path, t) ∷ []
  value_leaves (obj fs) path = leaves fs path
  value_leaves any path = []

unfoldable pub insert_all : List (List Text × Text) → Methods → Methods
insert_all [] m = m
insert_all ((p, t) ∷ ls) m = insert_all ls (insert (method_text p) t m)

insert_all-append :
    (ks ls : List (List Text × Text)) (m : Methods)
    → insert_all (ks ++ ls) m ≡ insert_all ls (insert_all ks m)
unfolding insert_all
insert_all-append [] ls m = refl
insert_all-append ((p, t) ∷ ks) ls m = insert_all-append ks ls (insert (method_text p) t m)

-- The result of the recursion, by a description that does not thread the map.
unfoldable pub flattened : Bool → List (List Text × Text) → Methods → Result Methods
flattened true ls m = ok (insert_all ls m)
flattened false ls m = err (new (text "unhandled type in map: "))

flattened-append :
    (a b : Bool) (ks ls : List (List Text × Text)) (m : Methods) (f : Methods → Result Methods)
    → ((m' : Methods) → f m' ≡ flattened b ls m')
    → continue (flattened a ks m) f ≡ flattened (a && b) (ks ++ ls) m
unfolding flattened continue
flattened-append false b ks ls m f h = refl
flattened-append true false ks ls m f h = h (insert_all ks m)
flattened-append true true ks ls m f h = rw (insert_all-append ks ls m) (h (insert_all ks m))

mutual
  unfolding recurse_map leaves is_plain flattened insert_all

  map_flattened :
      (fs : Fields) (path : List Text) (m : Methods)
      → recurse_map fs path m ≡ flattened (is_plain fs) (leaves fs path) m
  map_flattened end path m = refl
  map_flattened (field k v fs) path m = rw (value_flattened v (path ++ (k ∷ [])) m) (
      flattened-append (is_plain_value v) (is_plain fs) (value_leaves v (path ++ (k ∷ [])))
        (leaves fs path) m (recurse_map fs path) (map_flattened fs path))

  value_flattened :
      (v : Value) (path : List Text) (m : Methods)
      → recurse_value v path m ≡ flattened (is_plain_value v) (value_leaves v path) m
  value_flattened (str t) path m = refl
  value_flattened (obj fs) path m = map_flattened fs path m
  value_flattened any path m = refl

-- A decoded manifest becomes the map that has, for each text in it, the dotted path to that text, where
-- a later one with the same path wins. If anything else than a text or an object stands in it, the old
-- map stays and there is an error.
pub unmarshal-leaves :
    (fs : Fields) (old : Methods)
    → unmarshal fs old ≡ (
        if is_plain fs
        then (insert_all (leaves fs []) [], none)
        else (old, some (new (text "unhandled type in map: "))))
unfolding unmarshal flattened
unmarshal-leaves fs old = elim (Bool-cases (is_plain fs)) [
  | inl p ↦ rw (map_flattened fs [] [], p, unmarshal) refl
  | inr p ↦ rw (map_flattened fs [] [], p, unmarshal) refl
]
