-- ===== src/Base/Bits.antt =====
-- A test of all numbers below a bound, for the tables of the flags.
use Prim.Native.Nat.{ℕ, zero, suc, ◌<◌}
use mathlib.Core.Path.{◌≡◌}
use mathlib.Core.Logic.{inl, inr}
use mathlib.Core.Bool.{Bool, true, false}
use native.Mathlib.Omega.{arith}
use go_muxrpc.Base.Tests.{if◌then◌else◌, ◌==◌, Bool-cases}

unfoldable pub passes : (ℕ → Bool) → ℕ → Bool
passes test zero = true
passes test (suc bound) = let rest = passes test bound in if test bound then rest else false

pub passes_each :
    (test : ℕ → Bool) (bound : ℕ) → passes test bound ≡ true → (k : ℕ) → k < bound → test k ≡ true
unfolding passes
passes_each test zero table k small = absurd (omega arith)
passes_each test (suc bound) table k small = elim (Bool-cases (test bound)) [
  | inl top ↦ elim (Bool-cases (k == bound)) [
    | inl same ↦ let at_top : k ≡ bound = ground (arith, same) in rw at_top top
    | inr other ↦ passes_each test bound (rw top at table) k (ground arith)
  ]
  | inr top ↦ absurd (cc (rw top at table))
]
