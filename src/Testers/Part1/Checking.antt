-- ===== src/Testers/Part1/Checking.antt =====
-- The second loop of test_put_and_get of part1_tester.cc gets what the first has put.
use file_system.Testers.Part1.Putting.{shown_type, no_type, put_loop_lem}
use file_system.Base.{
  if◌then◌else◌, ◌==◌, pure, ℕ, zero, suc, ◌+◌, ◌≤◌, ◌≡◌, refl, ◌∙◌, sym, bind-ok, arith, ap,
  Option, some, Option-cases, ==_of_eq, ==_of_ne, eq_or_ne, inl, inr, List,
}
use file_system.Disk.{Stack, direct_buffer}
use file_system.InodeLayer.{Attr}
use file_system.InodeLayer.Write.Stored.{IsBuffer}
use file_system.Server.{t_file}
use file_system.Files.{File, Files, attributes, attributes_of, content_of}
use file_system.Testers.{Tester, file_num, decimal}
use file_system.Testers.Calls.{Serves, call-get, call-get_attributes, called}
use file_system.Testers.Few.{Few, Passed, Passed-after}
use file_system.Testers.Text.{same_text_refl}
use file_system.Testers.Part1.{check_loop, put_and_get}
use file_system.Testers.Part1.Numbers.{Written}

-- What is known of the files of type T_FILE holds where getattr shows that type.
shown_content :
    (a : Attr) (o : Option File) (text : List ℕ)
    → attributes a.type a.size ≡ attributes_of o
    → a.type ≡ t_file
    → ((x : File) → o ≡ some x → x.type ≡ t_file → x.content ≡ text)
    → content_of o ≡ text
shown_content a o text q type held = elim (Option-cases o) [
  | inl gone ↦ let z = no_type a o q gone in absurd (omega arith)
  | inr (x, there) ↦ ap content_of there ∙ held x there (sym (shown_type a o x q there) ∙ type)
]

module _ (stack : Stack) (stack_bytes : (k : ℕ) → IsBuffer (stack direct_buffer k))
    (clock : ℕ → ℕ → ℕ) (random : ℕ → ℕ) where
  check_loop_lem :
      (rounds i m n : ℕ) (contents : ℕ → ℕ) (f : Files) (s : Tester)
      → i + 2 + rounds ≤ 1024
      → Few m f
      → Serves f n s.fs
      → Written (i + rounds) contents f
      → Passed 0 m n (check_loop stack clock random rounds i contents) s
  unfolding check_loop
  check_loop_lem zero i m n contents f s fits few h w = record {
    end = s;
    ends = refl;
    files = f;
    few = few;
    serves = h;
    score = omega arith;
  }
  check_loop_lem (suc rounds) i m n contents f s fits few h w =
      let (fs₁, a, e₁, q, h₁) =
        call-get_attributes stack stack_bytes clock random f n s (i + 2) h (omega arith) in
      let s₁ : Tester = called stack stack_bytes clock random s fs₁ in
      let count : i + suc rounds ≡ suc i + rounds = omega arith in
      let w' : Written (suc i + rounds) contents f = rw count at w in
      let (fs₂, e₂, h₂) = call-get stack stack_bytes clock random f n s₁ (i + 2) h₁ (omega arith) in
      let s₂ : Tester = called stack stack_bytes clock random s₁ fs₂ in
      elim (eq_or_ne a.type t_file) [
        | inr ne ↦
            Passed-after (bind-ok _ e₁ ∙ rw (==_of_ne a.type t_file ne) refl) refl
              (check_loop_lem rounds (suc i) m n contents f s₁ (omega arith) few h₁ w')
        | inl is_file ↦
            let text : content_of (f (i + 2)) ≡ decimal 3 (contents i) =
              shown_content a (f (i + 2)) (decimal 3 (contents i)) q is_file
                (λ x there type. w.holds i (omega arith) x there type) in
            Passed-after
              (bind-ok _ e₁
                ∙ rw (==_of_eq a.type t_file is_file)
                    (bind-ok _ e₂ ∙ rw (text, same_text_refl (decimal 3 (contents i))) refl))
              refl (check_loop_lem rounds (suc i) m n contents f s₂ (omega arith) few h₂ w')
      ]

  -- For local buffers that hold bytes, a file system that serves short files below some id, with room
  -- for 50 puts, passes both loops of test_put_and_get, whatever rand and the clock return and whatever
  -- the array held before: each number that the first loop puts is what the second loop gets.
  pub put_and_get_passes :
      (m n : ℕ) (contents : ℕ → ℕ) (f : Files) (s : Tester)
      → Few m f
      → Serves f (file_num + n) s.fs
      → Passed 0 m n (put_and_get stack clock random contents) s
  unfolding put_and_get
  put_and_get_passes m n contents f s few h =
      let put =
        put_loop_lem stack stack_bytes clock random file_num 0 m n contents f s (omega arith) few h
          (record { holds = λ j lt. absurd (omega arith) }) in
      Passed-after {run = put_and_get stack clock random contents}
        {run' = check_loop stack clock random file_num 0 put.contents} {s = s} {s' = put.end}
        (bind-ok (λ p. if p.0 == 0 then check_loop stack clock random file_num 0 p.1 else pure p.0)
          put.ends)
        put.score
        (check_loop_lem file_num 0 m n put.contents put.files put.end (omega arith) put.few
          put.serves put.written)
