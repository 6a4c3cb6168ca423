-- ===== src/Base/Bytes.antt =====
-- Bits of a byte, checked over every byte: the tests and updates that the bitmap code makes.
use Prim.Native.Nat.{ℕ, zero, suc, ◌-◌, ◌^◌, ◌<◌, bit_and, bit_xor}
use mathlib.Core.Path.{◌≡◌, refl}
use mathlib.Core.Bool.{Bool, true, false, ◌&&◌, not}
use native.Mathlib.Omega.{arith}
use file_system.Base.Tests.{◌==◌, ltb, if◌then◌else◌}

-- byte & (1 << k), as a truth value
unfoldable pub bit_test : ℕ → ℕ → Bool
bit_test byte k = not (bit_and byte (2 ^ k) == 0)

-- byte ^ (1 << k)
unfoldable pub bit_flip : ℕ → ℕ → ℕ
bit_flip byte k = bit_xor byte (2 ^ k)

-- byte & ~(1 << k), in eight bits
unfoldable pub bit_clear : ℕ → ℕ → ℕ
bit_clear byte k = bit_and byte (255 - 2 ^ k)

all_below : ℕ → (ℕ → Bool) → Bool
all_below zero p = true
all_below (suc n) p = p n && all_below n p

all_below-true : (n : ℕ) (p : ℕ → Bool) (x : ℕ) → all_below n p ≡ true → x < n → p x ≡ true
unfolding all_below
all_below-true zero p x h lt = absurd (omega arith)
all_below-true (suc n) p x h lt = ground (arith, all_below-true n p x)

same : Bool → Bool → Bool
same true b = b
same false b = not b

eq_of_same : (a b : Bool) → same a b ≡ true → a ≡ b
unfolding same
eq_of_same a b h = ground arith

flip_holds : ℕ → ℕ → ℕ → Bool
flip_holds b k j =
    same (bit_test (bit_flip b k) j) (if j == k then not (bit_test b k) else bit_test b j)

clear_holds : ℕ → ℕ → ℕ → Bool
clear_holds b k j = same (bit_test (bit_clear b k) j) (if j == k then false else bit_test b j)

ranges_hold : ℕ → ℕ → Bool
ranges_hold b k = ltb (bit_flip b k) 256 && ltb (bit_clear b k) 256

flip_table : all_below 256 (λ b. all_below 8 (λ k. all_below 8 (λ j. flip_holds b k j))) ≡ true
unfolding all_below flip_holds bit_test bit_flip same
flip_table = refl

clear_table : all_below 256 (λ b. all_below 8 (λ k. all_below 8 (λ j. clear_holds b k j))) ≡ true
unfolding all_below clear_holds bit_test bit_clear same
clear_table = refl

ranges_table : all_below 256 (λ b. all_below 8 (λ k. ranges_hold b k)) ≡ true
unfolding all_below ranges_hold bit_flip bit_clear
ranges_table = refl

at_byte :
    (p : ℕ → ℕ → ℕ → Bool)
    → all_below 256 (λ b. all_below 8 (λ k. all_below 8 (λ j. p b k j))) ≡ true
    → (b k j : ℕ) → b < 256
    → k < 8
    → j < 8
    → p b k j ≡ true
at_byte p table b k j hb hk hj =
    all_below-true 8 (p b k) j
      (all_below-true 8 (λ k. all_below 8 (λ j. p b k j)) k
        (all_below-true 256 (λ b. all_below 8 (λ k. all_below 8 (λ j. p b k j))) b table hb) hk)
      hj

module _ (b k j : ℕ) (hb : b < 256) (hk : k < 8) (hj : j < 8) where
  pub bit_test-bit_flip :
      bit_test (bit_flip b k) j ≡ (if j == k then not (bit_test b k) else bit_test b j)
  unfolding flip_holds
  bit_test-bit_flip = eq_of_same _ _ (at_byte flip_holds flip_table b k j hb hk hj)

  pub bit_test-bit_clear : bit_test (bit_clear b k) j ≡ (if j == k then false else bit_test b j)
  unfolding clear_holds
  bit_test-bit_clear = eq_of_same _ _ (at_byte clear_holds clear_table b k j hb hk hj)

module _ (b k : ℕ) (hb : b < 256) (hk : k < 8) where
  in_range : ranges_hold b k ≡ true
  in_range =
      all_below-true 8 (ranges_hold b) k
        (all_below-true 256 (λ b. all_below 8 (λ k. ranges_hold b k)) b ranges_table hb) hk

  pub bit_flip-lt : bit_flip b k < 256
  unfolding ranges_hold
  bit_flip-lt =
      let h : (ltb (bit_flip b k) 256 && ltb (bit_clear b k) 256) ≡ true = in_range in ground arith

  pub bit_clear-lt : bit_clear b k < 256
  unfolding ranges_hold
  bit_clear-lt =
      let h : (ltb (bit_flip b k) 256 && ltb (bit_clear b k) 256) ≡ true = in_range in ground arith

zero_table : all_below 8 (λ k. not (bit_test 0 k)) ≡ true
unfolding all_below bit_test
zero_table = refl

pub bit_test-zero : (k : ℕ) → k < 8 → bit_test 0 k ≡ false
bit_test-zero k h =
    let t : not (bit_test 0 k) ≡ true = all_below-true 8 (λ k. not (bit_test 0 k)) k zero_table h in
    ground arith
