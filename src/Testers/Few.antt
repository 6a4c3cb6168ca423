-- ===== src/Testers/Few.antt =====
-- The maps of files that the test programs meet: short files below some id.
use file_system.Base.{
  Cmd, ok, Bool, true, false, if◌then◌else◌, ℕ, zero, suc, ◌+◌, ◌≤◌, ◌<◌, ◌≡◌, ◌∙◌, some, none,
  Option-cases, inl, inr, arith, update_same, update_other, eq_or_ne, [],
}
use file_system.Testers.{Tester}
use file_system.Testers.Calls.{Serves}
use file_system.Base.Lists.{length}
use file_system.Files.{File, Files, create, next, first_absent, content_of}

-- Files of at most one block with ids below m, the root directory among them.
pub record Few (m : ℕ) (f : Files) : Type 0 where
  pub root : File
  pub at_root : f 0 ≡ some root
  pub short : (i : ℕ) → length (content_of (f i)) ≤ 512
  pub beyond : (i : ℕ) → m ≤ i → f i ≡ none

first_absent_lem :
    (f : Files) (m : ℕ)
    → f m ≡ none
    → (k from : ℕ) → from ≤ m
    → m < from + k
    → (first_absent f k from ≤ m) × (f (first_absent f k from) ≡ none)
unfolding first_absent
first_absent_lem f m gone zero from lo hi = absurd (omega arith)
first_absent_lem f m gone (suc k) from lo hi = elim (Option-cases (f from)) [
  | inl e ↦ rw (e, first_absent) (lo, e)
  | inr (x, e) ↦ elim (eq_or_ne from m) [
    | inl same ↦ let clash : none ≡ some x = cc in cc
    | inr ne ↦
        rw (e, first_absent) (first_absent_lem f m gone k (suc from) (omega arith) (omega arith))
  ]
]

module _ (m : ℕ) (f : Files) (few : Few m f) (small : m < 1024) where
  pub first_absent-Few :
      (first_absent f 1024 0 ≤ m) × (0 < first_absent f 1024 0) × (f (first_absent f 1024 0) ≡ none)
  first_absent-Few =
      let (hi, gone) =
        first_absent_lem f m (few.beyond m (omega arith)) 1024 0 (omega arith) small in
      elim (eq_or_ne (first_absent f 1024 0) 0) [
        | inl e ↦ let clash : none ≡ some few.root = cc in cc
        | inr ne ↦ (hi, omega arith, gone)
      ]

  pub create-Few : (t : ℕ) → Few (suc m) (next (create t) f)
  unfolding next
  create-Few t =
      let id = first_absent f 1024 0 in
      let (hi, lo, gone) = first_absent-Few in
      record {
        root = few.root;
        at_root = update_other f id _ 0 (λ e. omega arith) ∙ few.at_root;
        short = λ i. elim (eq_or_ne i id) [
          | inl e ↦
              rw (e, update_same f id (some (record { type = t; content = [] }))) (omega arith)
          | inr ne ↦
              rw (update_other f id (some (record { type = t; content = [] })) i ne) (few.short i)
        ];
        beyond = λ i le. update_other f id _ i (λ e. omega arith) ∙ few.beyond i (omega arith);
      }

-- A part of a test has passed: the code is 0, the score has grown by `points`, and the file system
-- serves files below m with room for n puts.
pub record Passed (points m n : ℕ) (run : Cmd Tester ℕ) (s : Tester) : Type 0 where
  pub end : Tester
  pub ends : run s ≡ ok 0 end
  pub files : Files
  pub few : Few m files
  pub serves : Serves files n end.fs
  pub score : end.total_score ≡ s.total_score + points

pub Passed-if :
    (points m n : ℕ) (b : Bool) (x y : Cmd Tester ℕ) (s : Tester)
    → Passed points m n x s
    → Passed points m n y s
    → Passed points m n (if b then x else y) s
Passed-if points m n true x y s hx hy = hx
Passed-if points m n false x y s hx hy = hy

-- What is left to run may pass from a later state.
pub Passed-after :
    {points m n : ℕ} {run run' : Cmd Tester ℕ} {s s' : Tester}
    → run s ≡ run' s'
    → s'.total_score ≡ s.total_score
    → Passed points m n run' s'
    → Passed points m n run s
Passed-after e same h = record {
  end = h.end;
  ends = e ∙ h.ends;
  files = h.files;
  few = h.few;
  serves = h.serves;
  score = omega (arith, h.score, same);
}
