-- ===== src/Base/Int.antt =====
-- Signed integers over the native numbers, and the conversions between `time_t` and `uvast`.
use dtnex_redesign.Base.{
  ℕ, suc, ◌+◌, ◌-◌, ◌%◌, ◌^◌, ◌≤◌, ◌<◌, ◌≡◌, Bool, arith, ltb, leb, ◌==◌, if◌then◌else◌,
}

-- `negsuc n` is -(n + 1).
pub data ℤ : Type 0 where
  pos : ℕ → ℤ
  negsuc : ℕ → ℤ

abbrev pub pos_part : ℤ → ℕ
pos_part (pos n) = n
pos_part (negsuc n) = 0

abbrev pub neg_part : ℤ → ℕ
neg_part (pos n) = 0
neg_part (negsuc n) = suc n

infix 50 ◌≤ℤ◌ ◌<ℤ◌
abbrev pub ◌≤ℤ◌ : ℤ → ℤ → Type 0
a ≤ℤ b = pos_part a + neg_part b ≤ pos_part b + neg_part a

abbrev pub ◌<ℤ◌ : ℤ → ℤ → Type 0
a <ℤ b = pos_part a + neg_part b < pos_part b + neg_part a

abbrev pub ltb_ℤ : ℤ → ℤ → Bool
ltb_ℤ a b = ltb (pos_part a + neg_part b) (pos_part b + neg_part a)

abbrev pub leb_ℤ : ℤ → ℤ → Bool
leb_ℤ a b = leb (pos_part a + neg_part b) (pos_part b + neg_part a)

abbrev pub eqb_ℤ : ℤ → ℤ → Bool
eqb_ℤ a b = pos_part a + neg_part b == pos_part b + neg_part a

pub eqb_ℤ_refl : (a : ℤ) → eqb_ℤ a a ≡ Bool.true
eqb_ℤ_refl a = ground arith

pub eqb_ℤ→eq : (a b : ℤ) → eqb_ℤ a b ≡ Bool.true → a ≡ b
eqb_ℤ→eq a b h = ground arith

-- `(time_t) v` for a 64-bit unsigned `v`: the pattern read as a signed number.
unfoldable pub to_time : ℕ → ℤ
to_time v = if ltb v (2 ^ 63) then pos v else negsuc (2 ^ 64 - v - 1)

-- `(uvast) t` for a 64-bit signed `t`.
unfoldable pub to_uvast : ℤ → ℕ
to_uvast (pos n) = n % 2 ^ 64
to_uvast (negsuc n) = 2 ^ 64 - 1 - n % 2 ^ 64

-- `(int) v`: the low 32 bits read as a signed number.
unfoldable pub to_int32 : ℕ → ℤ
to_int32 v = let w = v % 2 ^ 32 in if ltb w (2 ^ 31) then pos w else negsuc (2 ^ 32 - w - 1)

-- A value that a 64-bit signed integer holds.
abbrev pub IsTime : ℤ → Type 0
IsTime t = (pos_part t < 2 ^ 63) × (neg_part t ≤ 2 ^ 63)

-- The two conversions are inverse: a time that is forwarded is sent as it was received.
pub to_uvast-to_time : (v : ℕ) → v < 2 ^ 64 → to_uvast (to_time v) ≡ v
unfolding to_time to_uvast
to_uvast-to_time v h = ground arith

pub to_time-to_uvast : (t : ℤ) → IsTime t → to_time (to_uvast t) ≡ t
unfolding to_time to_uvast
to_time-to_uvast (pos n) h = ground arith
to_time-to_uvast (negsuc n) h = ground arith

-- A value that an `int` holds comes back from the 64-bit pattern that is sent for it.
pub to_int32-to_uvast :
    (t : ℤ) → pos_part t < 2 ^ 31 → neg_part t ≤ 2 ^ 31 → to_int32 (to_uvast t) ≡ t
unfolding to_int32 to_uvast
to_int32-to_uvast (pos n) h k = ground arith
to_int32-to_uvast (negsuc n) h k = ground arith

pub to_uvast-lt : (t : ℤ) → to_uvast t < 2 ^ 64
unfolding to_uvast
to_uvast-lt (pos n) = ground arith
to_uvast-lt (negsuc n) = ground arith

-- a - b, as an integer.
abbrev sub_ℕ : ℕ → ℕ → ℤ
sub_ℕ a b = if leb b a then pos (a - b) else negsuc (b - a - 1)

infixl 65 ◌+ℤ◌ ◌-ℤ◌
unfoldable pub ◌+ℤ◌ : ℤ → ℤ → ℤ
a +ℤ b = sub_ℕ (pos_part a + pos_part b) (neg_part a + neg_part b)

unfoldable pub ◌-ℤ◌ : ℤ → ℤ → ℤ
a -ℤ b = sub_ℕ (pos_part a + neg_part b) (neg_part a + pos_part b)
