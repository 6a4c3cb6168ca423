-- ===== src/Base/Lists.antt =====
-- Lists measured and indexed by native numbers, under the library's names.
use Prim.Native.Nat.{ℕ, zero, suc, ◌+◌, ◌<◌}
use mathlib.Core.Path.{◌≡◌, refl, ap₂}
use mathlib.Core.List.{List, [], ◌∷◌}
use native.Mathlib.Omega.{arith}

module _ {ℓ} {A : Type ℓ} where
  abbrev pub length : List A → ℕ
  length [] = 0
  length (x ∷ xs) = suc (length xs)

  abbrev pub get_or : List A → ℕ → A → A
  get_or [] i d = d
  get_or (x ∷ xs) zero d = x
  get_or (x ∷ xs) (suc i) d = get_or xs i d

-- The first n cells of an array, from index i on.
abbrev pub cells_from {ℓ} : {A : Type ℓ} → (ℕ → A) → ℕ → ℕ → List A
cells_from f i zero = []
cells_from f i (suc n) = f i ∷ cells_from f (suc i) n

-- The array of a list, with a default behind its end.
pub cells_from-get_or {ℓ} :
    {A : Type ℓ} (d : A) (xs : List A) (f : ℕ → A) (i : ℕ)
    → ((j : ℕ) → j < length xs → f (i + j) ≡ get_or xs j d)
    → cells_from f i (length xs) ≡ xs
cells_from-get_or d [] f i h = refl
cells_from-get_or d (x ∷ xs) f i h = ap₂ ◌∷◌ (head h) (cells_from-get_or d xs f (suc i) (tail h))
  where
    head : ((j : ℕ) → j < suc (length xs) → f (i + j) ≡ get_or (x ∷ xs) j d) → f i ≡ x
    head h = let e : i + 0 ≡ i = omega arith in rw e at (h 0 (omega arith))

    tail :
        ((j : ℕ) → j < suc (length xs) → f (i + j) ≡ get_or (x ∷ xs) j d)
        → (j : ℕ) → j < length xs
        → f (suc i + j) ≡ get_or xs j d
    tail h j lt = let e : i + suc j ≡ suc i + j = omega arith in rw e at (h (suc j) (omega arith))
