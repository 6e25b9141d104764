-- ===== src/Base/Assoc.antt =====
-- Maps and sets with numbers for keys: association lists and lists.
use Prim.Native.Nat.{ℕ}
use mathlib.Core.Path.{◌≡◌, refl}
use mathlib.Core.Bool.{Bool, true, false, not, ◌&&◌, ◌||◌}
use mathlib.Core.Option.{Option, none, some}
use mathlib.Core.List.{List, [], ◌∷◌}
use native.Mathlib.Omega.{arith}
use go_muxrpc.Base.Tests.{◌==◌, if◌then◌else◌}

unfoldable pub member : ℕ → List ℕ → Bool
member k [] = false
member k (j ∷ ks) = j == k || member k ks

-- `m[k] = struct{}{}`
unfoldable pub add : ℕ → List ℕ → List ℕ
add k ks = if member k ks then ks else k ∷ ks

-- `delete(m, k)`
unfoldable pub remove : ℕ → List ℕ → List ℕ
remove k [] = []
remove k (j ∷ ks) = if j == k then remove k ks else j ∷ remove k ks

module _ {ℓ} {V : Type ℓ} where
  unfoldable pub lookup : ℕ → List (ℕ × V) → Option V
  lookup k [] = none
  lookup k ((j, v) ∷ m) = if j == k then some v else lookup k m

  -- `m[k] = v`: the newest value of a key is the first.
  unfoldable pub insert : ℕ → V → List (ℕ × V) → List (ℕ × V)
  insert k v m = (k, v) ∷ m

  pub lookup-insert :
      (k j : ℕ) (v : V) (m : List (ℕ × V))
      → lookup j (insert k v m) ≡ (if k == j then some v else lookup j m)
  unfolding lookup insert
  lookup-insert k j v m = refl

pub member-add : (k j : ℕ) (ks : List ℕ) → member j (add k ks) ≡ (k == j || member j ks)
unfolding add member
member-add k j ks = ground (arith, member_same k j ks)
  where
    member_same : (k j : ℕ) (ks : List ℕ) → k ≡ j → member k ks ≡ true → member j ks ≡ true
    member_same k j ks e h = cc

pub member-remove : (k j : ℕ) (ks : List ℕ) → member j (remove k ks) ≡ (not (k == j) && member j ks)
unfolding remove member
member-remove k j [] = ground arith
member-remove k j (i ∷ ks) = ground (arith, member-remove k j ks)
