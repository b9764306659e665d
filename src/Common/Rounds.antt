-- ===== src/Common/Rounds.antt =====
-- Going once round an array from any index.
use Prim.Native.Nat.{ℕ, ◌+◌, ◌-◌, ◌%◌, ◌≤◌, ◌<◌}
use mathlib.Core.Logic.{inl, inr}
use mathlib.Core.Path.{◌≡◌, ap, ◌∙◌}
use native.Mathlib.Nat.{mod-eq_of_lt, add-mod_right}
use native.Mathlib.Omega.{arith}
use commutil.Common.Tests.{ltb, Bool-cases, ltb→lt, ltb→le}

-- Every index is visited in one round.
pub visited :
    (start count j : ℕ)
    → start < count
    → j < count
    → (k : ℕ) × (k < count) × ((start + k) % count ≡ j)
visited start count j s h = elim (Bool-cases (ltb j start)) [
  | inl before ↦ (
    j + count - start,
    omega (arith, ltb→lt j start before),
    ap (λ n. n % count) (around (ltb→lt j start before)) ∙ add-mod_right j count ∙ mod-eq_of_lt h,
  )
  | inr after ↦
      (j - start, omega arith, ap (λ n. n % count) (direct (ltb→le j start after)) ∙ mod-eq_of_lt h)
]
  where
    around : j < start → start + (j + count - start) ≡ j + count
    around lt = omega arith

    direct : start ≤ j → start + (j - start) ≡ j
    direct le = omega arith
