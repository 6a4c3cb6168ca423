-- ===== src/Testers/Part1/Creating.antt =====
-- test_create_and_getattr of part1_tester.cc passes.
use file_system.Base.{
  ℕ, zero, suc, ◌+◌, ◌%◌, ◌^◌, ◌≤◌, ◌<◌, ◌≡◌, refl, ◌∙◌, ltb, bind-ok, arith, ap, some, update,
  update_same, ==_of_ne, ==_of_eq, [],
}
use file_system.Disk.{Stack, direct_buffer}
use file_system.InodeLayer.Write.Stored.{IsBuffer}
use file_system.Server.{t_dir, t_file}
use file_system.Files.{Files, create, next, attributes, attributes_of, first_absent}
use file_system.Testers.{Tester, file_num}
use file_system.Testers.Calls.{Serves, call-create, call-get_attributes, called}
use file_system.Testers.Few.{Few, Passed, Passed-if, first_absent-Few, create-Few}
use file_system.Testers.Part1.{create_as, create_loop, test_create_and_getattr}

module _ (stack : Stack) (stack_bytes : (k : ℕ) → IsBuffer (stack direct_buffer k))
    (clock : ℕ → ℕ → ℕ) (random : ℕ → ℕ) where
  create_as_lem :
      (t m n : ℕ) (f : Files) (s : Tester)
      → 0 < t
      → t < 3
      → m < 1024
      → Few m f
      → Serves f n s.fs
      → Passed 0 (suc m) n (create_as stack clock random t) s
  unfolding create_as next
  create_as_lem t m n f s lo hi small few h =
      let id = first_absent f 1024 0 in
      let (below, positive, gone) = first_absent-Few m f few small in
      let (fs₁, e₁, h₁) =
        call-create stack stack_bytes clock random f n s t h
          (lo, omega arith, id, omega arith, gone) in
      let s₁ : Tester = called stack stack_bytes clock random s fs₁ in
      let (fs₂, a, e₂, q, h₂) =
        call-get_attributes stack stack_bytes clock random (next (create t) f) n s₁ id h₁
          (omega arith) in
      let there : update f id (some (record { type = t; content = [] })) id
          ≡ some (record { type = t; content = [] }) =
        update_same f id _ in
      let shown : attributes a.type a.size ≡ attributes t 0 = q ∙ ap attributes_of there in
      let type : a.type ≡ t = cc in
      record {
        end = called stack stack_bytes clock random s₁ fs₂;
        ends =
            bind-ok _ e₁
            ∙ rw (==_of_ne (id % 2 ^ 32) 0 (λ z. omega arith))
                (bind-ok _ e₂ ∙ rw (==_of_eq a.type t type) refl);
        files = next (create t) f;
        few = create-Few m f few small t;
        serves = h₂;
        score = omega arith;
      }

  create_loop_lem :
      (rounds m n : ℕ) (f : Files) (s : Tester)
      → m + rounds ≤ 1024
      → Few m f
      → Serves f n s.fs
      → Passed 0 (m + rounds) n (create_loop stack clock random rounds) s
  unfolding create_loop
  create_loop_lem zero m n f s fits few h = record {
    end = s;
    ends = refl;
    files = f;
    few = let e : m + zero ≡ m = omega arith in rw e few;
    serves = h;
    score = omega arith;
  }
  create_loop_lem (suc rounds) m n f s fits few h =
      let s₁ : Tester = record s { rands = s.rands + 1 } in
      let one =
        Passed-if 0 (suc m) n (ltb (random s.rands % 10) 3) _ _ s₁
          (create_as_lem t_dir m n f s₁ (omega arith) (omega arith) (omega arith) few h)
          (create_as_lem t_file m n f s₁ (omega arith) (omega arith) (omega arith) few h) in
      let all =
        create_loop_lem rounds (suc m) n one.files one.end (omega arith) one.few one.serves in
      record {
        end = all.end;
        ends = bind-ok _ one.ends ∙ all.ends;
        files = all.files;
        few = let e : m + suc rounds ≡ suc m + rounds = omega arith in rw e all.few;
        serves = all.serves;
        score = omega (arith, one.score, all.score);
      }

  -- For local buffers that hold bytes, a file system that serves files below some id m (the root
  -- directory alone after the constructor) with 50 ids left passes test_create_and_getattr, whatever rand
  -- and the clock return: the test returns 0 and adds 10 to the score.
  pub test_create_and_getattr_passes :
      (m n : ℕ) (f : Files) (s : Tester)
      → m + file_num ≤ 1024
      → Few m f
      → Serves f n s.fs
      → Passed 10 (m + file_num) n (test_create_and_getattr stack clock random) s
  unfolding test_create_and_getattr
  test_create_and_getattr_passes m n f s fits few h =
      let loop = create_loop_lem file_num m n f s fits few h in
      record {
        end = record loop.end { total_score = loop.end.total_score + 10 };
        ends = bind-ok _ loop.ends;
        files = loop.files;
        few = loop.few;
        serves = loop.serves;
        score = omega (arith, loop.score);
      }
