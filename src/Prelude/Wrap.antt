-- ===== src/Prelude/Wrap.antt =====
-- The remainder of a number that is less than twice the divisor.
use Prim.Native.Nat.{ℕ, ◌+◌, ◌-◌, ◌%◌, ◌<◌, ◌≤◌}
use mathlib.Core.Path.{◌≡◌, ◌∙◌}
use mathlib.Core.Logic.{◌⊎◌, inl, inr, ◌≢◌}
use native.Mathlib.Nat.{mod-eq_of_lt, mod-eq-sub-mod}
use native.Mathlib.Omega.{arith}
use emlabcpp.Prelude.Tests.{ltb, ltb→lt, ltb→le, if◌then◌else◌, Bool-cases}

pub mod_once : (c y : ℕ) → y < c + c → y % c ≡ (if ltb y c then y else y - c)
mod_once c y h = elim (Bool-cases (ltb y c)) [
  | inl small ↦ rw (small, mod-eq_of_lt (ltb→lt y c small))
  | inr large ↦
      let past : c ≤ y = ltb→le y c large in
      rw (large, mod-eq-sub-mod past, mod-eq_of_lt {n = y - c} {m = c} (omega arith))
]

pub mod_cases : (c y : ℕ) → y < c + c → ((y < c) × (y % c ≡ y)) ⊎ ((c ≤ y) × (y % c ≡ y - c))
mod_cases c y h = elim (Bool-cases (ltb y c)) [
  | inl small ↦ inl (ltb→lt y c small, mod-eq_of_lt (ltb→lt y c small))
  | inr large ↦
      let past : c ≤ y = ltb→le y c large in
      inr (past, mod-eq-sub-mod past ∙ mod-eq_of_lt {n = y - c} {m = c} (omega arith))
]

-- Two slots at different distances below `c` from one start are different.
pub mod_distinct : (c h i j : ℕ) → h < c → i < c → j < c → i ≢ j → (h + i) % c ≢ (h + j) % c
mod_distinct c h i j hh hi hj ne e = elim (mod_cases c (h + i) (omega arith)) [
  | inl a ↦ elim (mod_cases c (h + j) (omega arith)) [
    | inl b ↦ ne (omega arith)
    | inr b ↦ absurd (omega arith)
  ]
  | inr a ↦ elim (mod_cases c (h + j) (omega arith)) [
    | inl b ↦ absurd (omega arith)
    | inr b ↦ ne (omega arith)
  ]
]
