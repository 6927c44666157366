-- ===== src/Common/Int/Algebra.antt =====
-- The products of integers, by their parts.
use Prim.Native.Nat.{ℕ, ◌+◌, ◌*◌, ◌/◌, ◌%◌}
use mathlib.Core.Path.{◌≡◌, ap}
use native.Mathlib.Omega.{arith}
use native.Mathlib.Nat.{zero-div, zero-mod}
use profit_playground.Common.Int.{
  ℤ, pos, negsuc, pos_part, neg_part, ◌+ℤ◌, ◌-ℤ◌, ◌*ℤ◌, neg, div_pos, rem_pos, +ℤ_parts, -ℤ_parts,
  neg_parts, int_laws, nat_abs, ◌≤ℤ◌,
}

pub *ℤ_parts :
    (a b : ℤ)
    → pos_part (a *ℤ b) + (pos_part a * neg_part b + neg_part a * pos_part b)
      ≡ neg_part (a *ℤ b) + (pos_part a * pos_part b + neg_part a * neg_part b)
unfolding ◌*ℤ◌
*ℤ_parts a b = ground arith

pub *ℤ-+ℤ : (a b c : ℤ) → a *ℤ (b +ℤ c) ≡ a *ℤ b +ℤ a *ℤ c
*ℤ-+ℤ a b c = omega (
  int_laws,
  *ℤ_parts a (b +ℤ c),
  *ℤ_parts a b,
  *ℤ_parts a c,
  ap (λ t. pos_part a * t) (+ℤ_parts b c),
  ap (λ t. neg_part a * t) (+ℤ_parts b c),
)

pub *ℤ_comm : (a b : ℤ) → a *ℤ b ≡ b *ℤ a
*ℤ_comm a b = omega (int_laws, *ℤ_parts a b, *ℤ_parts b a)

pub *ℤ-neg : (a b : ℤ) → a *ℤ neg b ≡ neg (a *ℤ b)
*ℤ-neg a b = omega (
  int_laws,
  *ℤ_parts a (neg b),
  *ℤ_parts a b,
  ap (λ t. pos_part a * t) (neg_parts b).0,
  ap (λ t. neg_part a * t) (neg_parts b).0,
  ap (λ t. pos_part a * t) (neg_parts b).1,
  ap (λ t. neg_part a * t) (neg_parts b).1,
)

pub +ℤ-*ℤ : (a b c : ℤ) → (a +ℤ b) *ℤ c ≡ a *ℤ c +ℤ b *ℤ c
+ℤ-*ℤ a b c = omega (
  int_laws,
  *ℤ_parts (a +ℤ b) c,
  *ℤ_parts a c,
  *ℤ_parts b c,
  ap (λ t. t * pos_part c) (+ℤ_parts a b),
  ap (λ t. t * neg_part c) (+ℤ_parts a b),
)

pub -ℤ-*ℤ : (a b c : ℤ) → (a -ℤ b) *ℤ c ≡ a *ℤ c -ℤ b *ℤ c
-ℤ-*ℤ a b c = omega (
  int_laws,
  *ℤ_parts (a -ℤ b) c,
  *ℤ_parts a c,
  *ℤ_parts b c,
  ap (λ t. t * pos_part c) (-ℤ_parts a b),
  ap (λ t. t * neg_part c) (-ℤ_parts a b),
)

pub pos-nat_abs : (a : ℤ) → pos 0 ≤ℤ a → pos (nat_abs a) ≡ a
pos-nat_abs a h = ground arith

pub pos-nat_abs-neg : (a : ℤ) → a ≤ℤ pos 0 → pos (nat_abs a) ≡ neg a
unfolding neg
pos-nat_abs-neg a h = ground arith

pub *ℤ-pos : (a : ℤ) (n : ℕ) → pos 0 ≤ℤ a → a *ℤ pos n ≡ pos (pos_part a * n)
unfolding ◌*ℤ◌
*ℤ-pos (pos m) n h = ground arith
*ℤ-pos (negsuc m) n h = absurd (omega arith)

pub pos-+ℤ : (m n : ℕ) → pos m +ℤ pos n ≡ pos (m + n)
unfolding ◌+ℤ◌
pos-+ℤ m n = ground arith

pub div_pos-pos : (m n : ℕ) → div_pos (pos m) n ≡ pos (m / n)
unfolding div_pos
div_pos-pos m n = rw (zero-div n) (ground arith)

pub rem_pos-pos : (m n : ℕ) → rem_pos (pos m) n ≡ pos (m % n)
unfolding rem_pos
rem_pos-pos m n = rw (zero-mod n) (ground arith)
