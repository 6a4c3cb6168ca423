-- ===== src/Testers/Part1/Numbers.antt =====
-- The two loops of test_put_and_get of part1_tester.cc: what the first puts, the second gets.
use file_system.Base.{
  ℕ, suc, ◌+◌, ◌≤◌, ◌<◌, ◌≡◌, ◌∙◌, sym, arith, ap, some, none, update, update_same, update_other,
  eq_or_ne, inl, inr, List,
}
use file_system.Base.Lists.{length}
use file_system.Server.{t_file}
use file_system.Files.{File, Files}
use file_system.Testers.{decimal}
use file_system.Testers.Few.{Few}

-- The files that the first i rounds have written hold the numbers in `contents`.
pub record Written (i : ℕ) (contents : ℕ → ℕ) (f : Files) : Type 0 where
  pub holds :
      (j : ℕ)
      → j < i
      → (x : File) → f (j + 2) ≡ some x
      → x.type ≡ t_file
      → x.content ≡ decimal 3 (contents j)

pub put-Few :
    (m id : ℕ) (x : File) (s : List ℕ) (f : Files)
    → 0 < id
    → f id ≡ some x
    → length s ≤ 512
    → Few m f
    → Few m (update f id (some (record x { content = s })))
put-Few m id x s f positive there short few = record {
  root = few.root;
  at_root = update_other f id _ 0 (λ e. omega arith) ∙ few.at_root;
  short = λ i. elim (eq_or_ne i id) [
    | inl e ↦ rw (e, update_same f id (some (record x { content = s }))) short
    | inr ne ↦ rw (update_other f id (some (record x { content = s })) i ne) (few.short i)
  ];
  beyond = λ i le. elim (eq_or_ne i id) [
    | inl e ↦ let clash : none ≡ some x = sym (few.beyond i le) ∙ ap f e ∙ there in cc
    | inr ne ↦ update_other f id _ i ne ∙ few.beyond i le
  ];
}

-- A round that finds no file at its id.
pub skip-Written :
    (i : ℕ) (contents : ℕ → ℕ) (f : Files)
    → ((x : File) → f (i + 2) ≡ some x → x.type ≡ t_file → ⊥)
    → Written i contents f
    → Written (suc i) contents f
skip-Written i contents f nothing w = record {
  holds = λ j lt x there type. elim (eq_or_ne j i) [
    | inl e ↦ absurd (nothing x (ap (λ k. f (k + 2)) (sym e) ∙ there) type)
    | inr ne ↦ w.holds j (omega arith) x there type
  ];
}

-- A round that writes a number.
pub put-Written :
    (i n : ℕ) (contents : ℕ → ℕ) (x : File) (f : Files)
    → Written i contents f
    → Written
        (suc i)
        (update contents i n)
        (update f (i + 2) (some (record x { content = decimal 3 n })))
put-Written i n contents x f w = record {
  holds = λ j lt y there type. elim (eq_or_ne j i) [
    | inl e ↦
        let new : some (record x { content = decimal 3 n }) ≡ some y =
          sym (update_same f (i + 2) _)
          ∙ ap (update f (i + 2) _) (ap (λ k. k + 2) (sym e))
          ∙ there in
        let same : y.content ≡ decimal 3 n = cc in rw (e, update_same contents i n) same
    | inr ne ↦ rw (update_other contents i n j ne) (
        w.holds j (omega arith) y
          (sym (update_other f (i + 2) _ (j + 2) (λ q. omega arith)) ∙ there) type)
  ];
}
