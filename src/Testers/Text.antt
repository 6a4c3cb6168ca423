-- ===== src/Testers/Text.antt =====
-- The strings of the test programs: decimal numbers.
use file_system.Base.{
  ◌⊎◌, ◌||◌, Bool-cases, ℕ, zero, suc, ◌+◌, ◌/◌, ◌%◌, ◌≤◌, ◌<◌, ◌≡◌, refl, arith, true, List, [],
  ◌∷◌, ◌++◌, ==_of_eq, lt_or_ge, inl, inr, lt→ltb, le→ltb,
}
use file_system.Base.Lists.{length, get_or}
use file_system.Testers.{same_text, decimal}

pub same_text_refl : (s : List ℕ) → same_text s s ≡ true
unfolding same_text
same_text_refl [] = refl
same_text_refl (a ∷ rest) = rw (==_of_eq a a refl) (same_text_refl rest)

-- A text that is one of two passes the test against both.
pub either_text :
    (str1 str2 text : List ℕ)
    → (text ≡ str1) ⊎ (text ≡ str2)
    → (same_text str1 text || same_text str2 text) ≡ true
either_text str1 str2 text (inl e) = rw (e, same_text_refl str1) refl
either_text str1 str2 text (inr e) = elim (Bool-cases (same_text str1 text)) [
  | inl found ↦ rw found refl
  | inr other ↦ rw other (rw (e, same_text_refl str2) refl)
]

-- A string of bytes with at least one and at most k of them.
pub record IsShort (k : ℕ) (s : List ℕ) : Type 0 where
  pub some_byte : 0 < length s
  pub few_bytes : length s ≤ k
  pub bytes : (i : ℕ) → get_or s i 0 < 256

length-snoc : (s : List ℕ) (d : ℕ) → length (s ++ (d ∷ [])) ≡ suc (length s)
length-snoc [] d = refl
length-snoc (a ∷ s) d = rw (length-snoc s d) refl

bytes-snoc :
    (s : List ℕ) (d : ℕ)
    → ((i : ℕ) → get_or s i 0 < 256)
    → d < 256
    → (i : ℕ) → get_or (s ++ (d ∷ [])) i 0 < 256
bytes-snoc [] d h lt zero = lt
bytes-snoc [] d h lt (suc i) = omega arith
bytes-snoc (a ∷ s) d h lt zero = h 0
bytes-snoc (a ∷ s) d h lt (suc i) = bytes-snoc s d (λ j. h (suc j)) lt i

digit-IsShort : (k n : ℕ) → n < 10 → IsShort (suc k) ((48 + n) ∷ [])
digit-IsShort k n lt = record {
  some_byte = omega arith;
  few_bytes = omega arith;
  bytes = bytes-snoc [] (48 + n) (λ i. omega arith) (omega arith);
}

decimal-step :
    (places n : ℕ)
    → IsShort (suc places) (decimal places (n / 10))
    → IsShort (suc (suc places)) (decimal (suc places) n)
unfolding decimal
decimal-step places n h = elim (lt_or_ge n 10) [
  | inl lt ↦ rw (lt→ltb n 10 lt) (digit-IsShort (suc places) n lt)
  | inr ge ↦ rw (le→ltb n 10 ge) (record {
    some_byte = rw (length-snoc (decimal places (n / 10)) (48 + n % 10)) (omega arith);
    few_bytes =
        rw (length-snoc (decimal places (n / 10)) (48 + n % 10)) (omega (arith, h.few_bytes));
    bytes = bytes-snoc (decimal places (n / 10)) (48 + n % 10) h.bytes (omega arith);
  })
]

last-IsShort : (m : ℕ) → m < 10 → IsShort 1 (decimal 0 m)
unfolding decimal
last-IsShort m lt = digit-IsShort 0 m lt

-- Four places are enough for the numbers below 10000.
pub decimal-IsShort : (n : ℕ) → n < 10000 → IsShort 4 (decimal 3 n)
decimal-IsShort n lt = decimal-step 2 n (
    decimal-step 1 (n / 10)
      (decimal-step 0 (n / 10 / 10) (last-IsShort (n / 10 / 10 / 10) (omega arith))))
