-- ===== src/Base/Integers.antt =====
-- The integers that a difference of two natural numbers gives.
use Prim.Native.Nat.{ℕ, zero, suc, ◌-◌, ◌+◌, ◌≤◌}
use mathlib.Core.Path.{◌≡◌}
use mathlib.Core.Logic.{◌↔◌, inl, inr}
use mathlib.Core.Bool.{Bool, true, false}
use native.Mathlib.Omega.{arith}
use midnight_referendum_app.Base.Tests.{leb, Bool-cases, if◌then◌else◌}

-- `negsuc n` is -(n + 1).
pub data ℤ : Type 0 where
  pos : ℕ → ℤ
  negsuc : ℕ → ℤ

abbrev pub difference : ℕ → ℕ → ℤ
difference a b = if leb b a then pos (a - b) else negsuc (b - a - 1)

abbrev pub pred : ℤ → ℤ
pred (pos zero) = negsuc 0
pred (pos (suc n)) = pos n
pred (negsuc n) = negsuc (suc n)

-- `z >= n`
abbrev pub is_at_least : ℤ → ℕ → Bool
is_at_least (pos m) n = leb n m
is_at_least (negsuc m) n = false

pub is_at_least-difference : (a b n : ℕ) → (is_at_least (difference a b) n ≡ true) ↔ (b + n ≤ a)
is_at_least-difference a b n = ground arith

pred_pos : (a b d n : ℕ) → b + d ≡ a → (is_at_least (pred (pos d)) n ≡ true) ↔ (b + n + 1 ≤ a)
pred_pos a b zero n h = ground (arith, h)
pred_pos a b (suc d) n h = ground (arith, h)

pub is_at_least-pred :
    (a b n : ℕ) → (is_at_least (pred (difference a b)) n ≡ true) ↔ (b + n + 1 ≤ a)
is_at_least-pred a b n = elim (Bool-cases (leb b a)) [
  | inl h ↦ simp h (pred_pos a b (a - b) n (ground (arith, h)))
  | inr h ↦ simp h (ground (arith, h))
]
