-- ===== src/Js/Num.antt =====
-- JavaScript numbers as far as the console computes with them: `NaN`, and integers small enough
-- for a double to hold them exactly (below 2 ^ 53).
use mr1v.Base.{ℕ, suc, ◌+◌, ◌-◌, ◌≡◌, refl, Bool, true, false, ltb, leb, if◌then◌else◌}

-- `negsuc n` is -(n + 1).
pub data ℤ : Type 0 where
  pos : ℕ → ℤ
  negsuc : ℕ → ℤ

abbrev pub pos_part : ℤ → ℕ
pos_part (pos n) = n
pos_part (negsuc n) = 0

abbrev pub neg_part : ℤ → ℕ
neg_part (pos n) = 0
neg_part (negsuc n) = suc n

abbrev pub sub_ℕ : ℕ → ℕ → ℤ
sub_ℕ a b = if leb b a then pos (a - b) else negsuc (b - a - 1)

infixl 65 ◌+ℤ◌ ◌-ℤ◌
abbrev pub ◌+ℤ◌ : ℤ → ℤ → ℤ
a +ℤ b = sub_ℕ (pos_part a + pos_part b) (neg_part a + neg_part b)

abbrev pub ◌-ℤ◌ : ℤ → ℤ → ℤ
a -ℤ b = sub_ℕ (pos_part a + neg_part b) (neg_part a + pos_part b)

abbrev pub neg_ℤ : ℤ → ℤ
neg_ℤ a = sub_ℕ (neg_part a) (pos_part a)

abbrev pub ltb_ℤ : ℤ → ℤ → Bool
ltb_ℤ a b = ltb (pos_part a + neg_part b) (pos_part b + neg_part a)

abbrev pub leb_ℤ : ℤ → ℤ → Bool
leb_ℤ a b = leb (pos_part a + neg_part b) (pos_part b + neg_part a)

pub data Num : Type 0 where
  nan : Num
  int : ℤ → Num

abbrev pub nat : ℕ → Num
nat n = int (pos n)

-- Every comparison with `NaN` is false.
abbrev pub num_lt : Num → Num → Bool
num_lt (int a) (int b) = ltb_ℤ a b
num_lt _ _ = false

abbrev pub num_le : Num → Num → Bool
num_le (int a) (int b) = leb_ℤ a b
num_le _ _ = false

abbrev pub num_add : Num → Num → Num
num_add (int a) (int b) = int (a +ℤ b)
num_add _ _ = nan

abbrev pub num_sub : Num → Num → Num
num_sub (int a) (int b) = int (a -ℤ b)
num_sub _ _ = nan

abbrev pub num_neg : Num → Num
num_neg nan = nan
num_neg (int a) = int (neg_ℤ a)

num_tests :
    (num_sub (nat 3) (nat 5) ≡ int (negsuc 1))
    × (num_lt nan (nat 5) ≡ false)
    × (num_le (int (negsuc 1)) (nat 0) ≡ true)
num_tests = (refl, refl, refl)
