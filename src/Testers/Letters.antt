-- ===== src/Testers/Letters.antt =====
-- Arrays of random letters, and the strings that they hold.
use file_system.Base.{
  ℕ, zero, suc, ◌+◌, ◌≤◌, ◌<◌, ◌≡◌, ◌%◌, refl, ◌∙◌, arith, ok, List, [], ◌∷◌, ==_of_ne, ==_of_eq,
  eq_or_ne, inl, inr, if◌then◌else◌, ◌==◌,
}
use file_system.Base.Lists.{length, get_or}
use file_system.Disk.{Block}
use file_system.Testers.{Tester, fill, c_string}

-- Cells from a up to b hold letters.
abbrev pub AreLetters : Block → ℕ → ℕ → Type 0
AreLetters buf a b = (j : ℕ) → a ≤ j → j < b → (97 ≤ buf j) × (buf j < 123)

module _ (clock : ℕ → ℕ → ℕ) (random : ℕ → ℕ) where
  -- fill changes nothing but the cells that it is for, and takes that many random numbers.
  pub fill_lem :
      (k i : ℕ) (buf : Block) (s : Tester)
      → (out : Block) × (rands : ℕ) × (fill clock random k i buf s
          ≡ ok out (record s { rands = rands }))
        × ((j : ℕ) → j < i → out j ≡ buf j)
        × ((j : ℕ) → i + k ≤ j → out j ≡ buf j)
        × AreLetters out i (i + k)
  unfolding fill
  fill_lem zero i buf s =
      (buf, s.rands, refl, (λ j lt. refl), (λ j ge. refl), (λ j le lt. absurd (omega arith)))
  fill_lem (suc k) i buf s =
      let letter = 97 + random s.rands % 26 in
      let buf₁ : Block = λ j. if j == i then letter else buf j in
      let (out, rands, e, before, behind, letters) =
        fill_lem k (suc i) buf₁ (record s { rands = s.rands + 1 }) in
      (
        out,
        rands,
        e,
        (λ j lt. before j (omega arith) ∙ rw (==_of_ne j i (λ q. omega arith)) refl),
        (λ j ge. behind j (omega arith) ∙ rw (==_of_ne j i (λ q. omega arith)) refl),
        (λ j le lt. elim (eq_or_ne j i) [
          | inl q ↦
              let at : out j ≡ letter = before j (omega arith) ∙ rw (==_of_eq j i q) refl in
              (omega arith, omega arith)
          | inr ne ↦ letters j (omega arith) (omega arith)
        ]),
      )

-- The string of letters up to the terminator.
pub c_string-letters :
    (buf : Block) (s : Tester) (k n i : ℕ)
    → n < k
    → AreLetters buf i (i + n)
    → buf (i + n) ≡ 0
    → (text : List ℕ) × (c_string buf k i s ≡ ok text s)
      × (length text ≡ n)
      × ((j : ℕ) → get_or text j 0 < 256)
unfolding c_string
c_string-letters buf s zero n i lt letters end = absurd (omega arith)
c_string-letters buf s (suc k) zero i lt letters end =
    let here : buf i ≡ 0 = (let e : i + zero ≡ i = omega arith in rw e at end) in
    ([], rw (==_of_eq (buf i) 0 here), refl, λ j. omega arith)
c_string-letters buf s (suc k) (suc n) i lt letters end =
    let here = letters i (omega arith) (omega arith) in
    let next : suc i + n ≡ i + suc n = omega arith in
    let (text, e, len, bytes) =
      c_string-letters buf s k n (suc i) (omega arith)
        (λ j lo hi. letters j (omega arith) (omega arith)) (rw next end) in
    (
      buf i ∷ text,
      rw (==_of_ne (buf i) 0 (omega (arith, here.0)), e) refl,
      rw len refl,
      λ j. first_or_later text (buf i) (omega (arith, here.1)) bytes j,
    )
  where
    first_or_later :
        (text : List ℕ) (a : ℕ)
        → a < 256
        → ((j : ℕ) → get_or text j 0 < 256)
        → (j : ℕ) → get_or (a ∷ text) j 0 < 256
    first_or_later text a small bytes zero = small
    first_or_later text a small bytes (suc j) = bytes j
