-- ===== src/Prelude/Words.antt =====
-- `Word`, an `i64` of the Essential VM, as the integer that it stands for. `IsWord` is its range.
use Prim.Native.Nat.{ℕ, zero, suc, ◌+◌, ◌≤◌, ◌<◌}
use mathlib.Core.Path.{◌≡◌}
use mathlib.Core.Logic.{◌↔◌}
use mathlib.Core.Bool.{Bool, true}
use mathlib.Core.Option.{Option, none, some}
use native.Mathlib.Omega.{arith}
use essential_node.Prelude.Tests.{ltb, ◌==◌, if◌then◌else◌}

-- `negsuc n` is -(n + 1).
pub data ℤ : Type 0 where
  pos : ℕ → ℤ
  negsuc : ℕ → ℤ

abbrev pub pos_part : ℤ → ℕ
pos_part (pos n) = n
pos_part (negsuc n) = 0

abbrev pub neg_part : ℤ → ℕ
neg_part (pos n) = 0
neg_part (negsuc n) = suc n

infix 50 ◌≤ℤ◌ ◌<ℤ◌
abbrev pub ◌≤ℤ◌ : ℤ → ℤ → Type 0
a ≤ℤ b = pos_part a + neg_part b ≤ pos_part b + neg_part a

abbrev pub ◌<ℤ◌ : ℤ → ℤ → Type 0
a <ℤ b = pos_part a + neg_part b < pos_part b + neg_part a

abbrev pub ltb_ℤ : ℤ → ℤ → Bool
ltb_ℤ a b = ltb (pos_part a + neg_part b) (pos_part b + neg_part a)

abbrev pub eq_ℤ : ℤ → ℤ → Bool
eq_ℤ a b = pos_part a + neg_part b == pos_part b + neg_part a

pub eq_ℤ_iff : (a b : ℤ) → (eq_ℤ a b ≡ true) ↔ (a ≡ b)
eq_ℤ_iff a b = ground arith

-- `Word::MAX`, which is 2^63 - 1, and `Word::MIN`, which is -2^63.
abbrev pub word_max : ℤ
word_max = pos 0x7fff_ffff_ffff_ffff

abbrev pub word_min : ℤ
word_min = negsuc 0x7fff_ffff_ffff_ffff

abbrev pub IsWord : ℤ → Type 0
IsWord a = (word_min ≤ℤ a) × (a ≤ℤ word_max)

-- a + 1
abbrev pub inc : ℤ → ℤ
inc (pos n) = pos (n + 1)
inc (negsuc zero) = pos 0
inc (negsuc (suc n)) = negsuc n

-- a - 1
abbrev pub dec : ℤ → ℤ
dec (pos zero) = negsuc 0
dec (pos (suc n)) = pos n
dec (negsuc n) = negsuc (n + 1)

-- `w.saturating_add(1)`
unfoldable pub saturating_inc : ℤ → ℤ
saturating_inc w = if eq_ℤ w word_max then word_max else inc w

-- `w.checked_sub(1)`
unfoldable pub checked_dec : ℤ → Option ℤ
checked_dec w = if eq_ℤ w word_min then none else some (dec w)
