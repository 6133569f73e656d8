-- ===== src/Base/Int.antt =====
-- Signed integers over the native numbers, and the conversion to a 32-bit int.
use Prim.Native.Nat.{ℕ, ◌+◌, ◌-◌, ◌%◌, ◌<◌, ◌≤◌}
use mathlib.Core.Path.{◌≡◌, refl, ap, ◌∙◌}
use mathlib.Core.Logic.{◌↔◌, ◌⊎◌, inl, inr}
use mathlib.Core.Bool.{Bool, true, false}
use native.Mathlib.Omega.{arith}
use kylin_kmre_manager.Base.Tests.{Eq, nat_beq, ltb, leb, if◌then◌else◌}

-- `negsuc n` is -(n + 1).
pub data ℤ : Type 0 where
  pos : ℕ → ℤ
  negsuc : ℕ → ℤ

pub ℤ-cases : (z : ℤ) → ((n : ℕ) × (z ≡ pos n)) ⊎ ((n : ℕ) × (z ≡ negsuc n))
ℤ-cases (pos n) = inl (n, refl)
ℤ-cases (negsuc n) = inr (n, refl)

abbrev pub minus_one : ℤ
minus_one = negsuc 0

abbrev pub int_beq : ℤ → ℤ → Bool
int_beq (pos a) (pos b) = nat_beq a b
int_beq (pos a) (negsuc b) = false
int_beq (negsuc a) (pos b) = false
int_beq (negsuc a) (negsuc b) = nat_beq a b

pub int_beq_iff : (a b : ℤ) → (int_beq a b ≡ true) ↔ (a ≡ b)
int_beq_iff (pos a) (pos b) = ground arith
int_beq_iff (pos a) (negsuc b) = ground arith
int_beq_iff (negsuc a) (pos b) = ground arith
int_beq_iff (negsuc a) (negsuc b) = ground arith

instance abbrev pub int_eq : Eq ℤ
int_eq = record { beq = int_beq; beq_iff = int_beq_iff }

-- (int) n of a number that may not fit: the low 32 bits, read in two's complement.
pub to_int32 : ℕ → ℤ
to_int32 n =
    let low = n % 4294967296 in if ltb low 2147483648 then pos low else negsuc (4294967295 - low)

abbrev pub is_negative : ℤ → Bool
is_negative (pos n) = false
is_negative (negsuc n) = true

-- The conversion to an unsigned 64-bit number.
unfoldable pub to_uint64 : ℤ → ℕ
to_uint64 (pos n) = n % 18446744073709551616
to_uint64 (negsuc n) = 18446744073709551615 - n % 18446744073709551616

-- The numbers of a signed 64-bit type.
unfoldable pub IsInt64 : ℤ → Type 0
IsInt64 (pos n) = n < 9223372036854775808
IsInt64 (negsuc n) = n < 9223372036854775808

-- Converted numbers of the type are equal when the numbers are.
pub nat_beq-to_uint64 :
    (a b : ℤ) → IsInt64 a → IsInt64 b → nat_beq (to_uint64 a) (to_uint64 b) ≡ int_beq a b
unfolding to_uint64 IsInt64
nat_beq-to_uint64 (pos a) (pos b) h k = ground arith
nat_beq-to_uint64 (pos a) (negsuc b) h k = ground arith
nat_beq-to_uint64 (negsuc a) (pos b) h k = ground arith
nat_beq-to_uint64 (negsuc a) (negsuc b) h k = ground arith

-- A number below 2^31 is kept.
pub to_int32_small : (n : ℕ) → n < 2147483648 → to_int32 n ≡ pos n
unfolding to_int32
to_int32_small n h = ground arith

-- No int is a number of 2^31 or more.
pub to_int32-ne_large : (m n : ℕ) → 2147483648 ≤ n → int_beq (pos n) (to_int32 m) ≡ false
unfolding to_int32
to_int32-ne_large m n h = ground arith

-- An int as its 32 bits, and the order of two ints.
abbrev pub word : ℕ
word = 0x1_0000_0000

unfoldable pub int_leb : ℕ → ℕ → Bool
int_leb a b = leb ((a + 0x8000_0000) % word) ((b + 0x8000_0000) % word)

pub int_leb_zero : int_leb 0 0 ≡ true
unfolding int_leb
int_leb_zero = refl

-- It is that of natural numbers below 2^31.
pub int_leb_small : (a b : ℕ) → a < 2147483648 → b < 2147483648 → int_leb a b ≡ leb a b
unfolding int_leb
int_leb_small a b h k =
    ap (λ n. leb n ((b + 0x8000_0000) % word)) (shifted a h)
    ∙ ap (λ n. leb (a + 0x8000_0000) n) (shifted b k)
    ∙ ground arith
  where
    shifted : (n : ℕ) → n < 2147483648 → (n + 0x8000_0000) % word ≡ n + 0x8000_0000
    shifted n h = omega arith
