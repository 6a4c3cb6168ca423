-- ===== src/Base/Exec.antt =====
-- Commands on a state. A run ends with a value and a state, in undefined behaviour or a crash
-- (`fault`), waiting for a lock or a condition that nobody else can give (`blocked`), or for want
-- of fuel.
use mathlib.Core.Path.{◌≡◌}

pub data Run (S A : Type 0) : Type 0 where
  ok : A → S → Run S A
  fault : Run S A
  blocked : Run S A
  out_of_fuel : Run S A

abbrev pub Cmd : Type 0 → Type 0 → Type 0
Cmd S A = S → Run S A

abbrev pub pure : {S A : Type 0} → A → Cmd S A
pure = ok

-- Undefined behaviour.
abbrev pub undefined : {S A : Type 0} → Cmd S A
undefined s = fault

module _ {S A B : Type 0} where
  abbrev pub and_then : Run S A → (A → Cmd S B) → Run S B
  and_then (ok a s) k = k a s
  and_then fault k = fault
  and_then blocked k = blocked
  and_then out_of_fuel k = out_of_fuel

  infixl 5 ◌>>=◌ ◌>>◌
  abbrev pub ◌>>=◌ : Cmd S A → (A → Cmd S B) → Cmd S B
  m >>= k = λ s. and_then (m s) k

  abbrev pub ◌>>◌ : Cmd S A → Cmd S B → Cmd S B
  m >> n = λ s. and_then (m s) λ _. n

  -- A successful first part is replaced by its value and state.
  pub bind-ok : {m : Run S A} {a : A} {s : S} (k : A → Cmd S B) → m ≡ ok a s → and_then m k ≡ k a s
  bind-ok k e = rw e

-- What a run that ends well hands over.
abbrev pub Ends : {S A : Type 0} → (A → S → Type 0) → Run S A → Type 0
Ends P (ok a s) = P a s
Ends P fault = ⊥
Ends P blocked = ⊥
Ends P out_of_fuel = ⊥
