-- ===== src/Base/Meets.antt =====
-- Commands that do not run out of fuel, with what their values then satisfy.
use mathlib.Core.Bool.{Bool, true, false}
use mathlib.Core.Path.{◌≡◌, refl, subst}
use mathlib.Core.Logic.{◌≢◌}
use mathlib.Core.Option.{Option, none, some}
use file_system.Base.Tests.{if◌then◌else◌}
use file_system.Base.Exec.{
  Run, ok, fault, blocked, out_of_fuel, Cmd, pure, undefined, and_then, ◌>>=◌, ◌>>◌,
}

-- A run with fuel enough: a value that satisfies Q, undefined behaviour, or a wait.
abbrev pub Outcome : {S A : Type 0} → (A → Type 0) → Run S A → Type 0
Outcome Q (ok a s) = Q a
Outcome Q fault = Unit
Outcome Q blocked = Unit
Outcome Q out_of_fuel = ⊥

pub record Meets {S A : Type 0} (Q : A → Type 0) (m : Cmd S A) : Type 0 where
  pub at : (s : S) → Outcome Q (m s)

abbrev pub Any : {A : Type 0} → A → Type 0
Any a = Unit

module _ {S A : Type 0} (Q : A → Type 0) where
  pub Meets-pure : (a : A) → Q a → Meets {S = S} Q (pure a)
  Meets-pure a q = record { at = λ s. q }

  pub Meets-undefined : Meets {S = S} Q undefined
  Meets-undefined = record { at = λ s. tt }

  pub Meets-if : (b : Bool) (m n : Cmd S A) → Meets Q m → Meets Q n → Meets Q (if b then m else n)
  Meets-if true m n hm hn = hm
  Meets-if false m n hm hn = hn

  -- With what the test says in each branch.
  pub Meets-test :
      (b : Bool) (m n : Cmd S A)
      → (b ≡ true → Meets Q m)
      → (b ≡ false → Meets Q n)
      → Meets Q (if b then m else n)
  Meets-test true m n hm hn = hm refl
  Meets-test false m n hm hn = hn refl

  pub Meets-split :
      (b : Bool) (m n : Cmd S A)
      → Meets Q m
      → Meets Q n
      → Meets Q (elim b as (λ _. Cmd S A) [ false ↦ n | true ↦ m ])
  Meets-split true m n hm hn = hm
  Meets-split false m n hm hn = hn

  pub Meets-Option :
      {B : Type 0} (o : Option B) (m : Cmd S A) (n : B → Cmd S A)
      → Meets Q m
      → ((b : B) → Meets Q (n b))
      → Meets Q (elim o as (λ _. Cmd S A) [ none ↦ m | some b ↦ n b ])
  Meets-Option none m n hm hn = hm
  Meets-Option (some b) m n hm hn = hn b

  pub Outcome-if :
      (b : Bool) (r q : Run S A) → Outcome Q r → Outcome Q q → Outcome Q (if b then r else q)
  Outcome-if true r q hr hq = hr
  Outcome-if false r q hr hq = hq

pub Outcome-ends : {S A : Type 0} (r : Run S A) → Outcome {A = A} Any r → r ≢ out_of_fuel
Outcome-ends {S} {A} r h e = subst (Outcome {S = S} {A = A} Any) e h

module _ {S A B : Type 0} (P : A → Type 0) (Q : B → Type 0) where
  pub Outcome-and_then :
      (r : Run S A) (k : A → Cmd S B)
      → Outcome P r
      → ((a : A) → P a → Meets Q (k a))
      → Outcome Q (and_then r k)
  Outcome-and_then (ok a s) k h hk = (hk a h).at s
  Outcome-and_then fault k h hk = tt
  Outcome-and_then blocked k h hk = tt
  Outcome-and_then out_of_fuel k h hk = h

  pub Meets-bind :
      (m : Cmd S A) (k : A → Cmd S B)
      → Meets P m
      → ((a : A) → P a → Meets Q (k a))
      → Meets Q (m >>= k)
  Meets-bind m k hm hk = record { at = λ s. Outcome-and_then (m s) k (hm.at s) hk }

module _ {S A : Type 0} (P Q : A → Type 0) (pq : (a : A) → P a → Q a) where
  Outcome-weaken : (r : Run S A) → Outcome P r → Outcome Q r
  Outcome-weaken (ok a s) h = pq a h
  Outcome-weaken fault h = tt
  Outcome-weaken blocked h = tt
  Outcome-weaken out_of_fuel h = h

  pub Meets-weaken : (m : Cmd S A) → Meets P m → Meets Q m
  Meets-weaken m h = record { at = λ s. Outcome-weaken (m s) (h.at s) }

module _ {S A B : Type 0} (Q : B → Type 0) where
  pub Meets-next :
      (m : Cmd S A) (n : Cmd S B) → Meets {S = S} {A = A} Any m → Meets Q n → Meets Q (m >> n)
  Meets-next m n hm hn = Meets-bind Any Q m (λ _. n) hm (λ a _. hn)
