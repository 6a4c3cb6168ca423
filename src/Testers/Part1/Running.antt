-- ===== src/Testers/Part1/Running.antt =====
-- main of part1_tester.cc ends in test_indirect, which makes a std::string of an array without a
-- terminator.
use file_system.Base.{
  Bool, true, ℕ, zero, suc, ◌+◌, ◌≤◌, ◌<◌, ◌≡◌, ◌≢◌, refl, ◌∙◌, ok, fault, and_then, bind-ok, arith,
  ap, Cmd, Run, ==_of_ne, eq_or_ne, inl, inr, [],
}
use file_system.BlockLayer.{mounted, Mutex, unlocked}
use file_system.RwLock.{init_rwlock}
use file_system.InodeLayer.Locks.{layer}
use file_system.Base.Int.{pos}
use file_system.Disk.{Block, Stack, direct_buffer}
use file_system.InodeLayer.Write.Stored.{IsBuffer}
use file_system.InodeLayer.{InodeLayer}
use file_system.Server.{t_file}
use file_system.Files.{Files}
use file_system.Files.Start.{fresh, init-Represents}
use file_system.Testers.{Tester, file_num, large_file_size, c_string}
use file_system.Testers.Letters.{fill_lem}
use file_system.Testers.Calls.{Serves, call-create}
use file_system.Testers.Few.{Few, first_absent-Few}
use file_system.Testers.Part1.{
  random_text, test_indirect, test_put_and_get, run_tests, with_client, main,
}
use file_system.Testers.Part1.Creating.{test_create_and_getattr_passes}
use file_system.Testers.Part1.Checking.{put_and_get_passes}

-- An array without a zero is no C string.
c_string-fault :
    (buf : Block) (s : Tester) (k i : ℕ)
    → ((j : ℕ) → i ≤ j → j < i + k → buf j ≢ 0)
    → c_string buf k i s ≡ fault
unfolding c_string
c_string-fault buf s zero i h = refl
c_string-fault buf s (suc k) i h =
    rw
      (
        ==_of_ne (buf i) 0 (h i (omega arith) (omega arith)),
        c_string-fault buf s k (suc i) (λ j le lt. h j (omega arith) (omega arith)),
      )
      refl

bind-fault : {S A B : Type 0} {r : Run S A} (k : A → Cmd S B) → r ≡ fault → and_then r k ≡ fault
bind-fault k e = rw e

-- The map after the constructor.
pub fresh-Few : Few 1 fresh
fresh-Few = record {
  root = record { type = 1; content = [] };
  at_root = refl;
  short = λ i. elim (eq_or_ne i 0) [
    | inl e ↦ rw e (omega arith)
    | inr ne ↦ rw (==_of_ne i 0 ne) (omega arith)
  ];
  beyond = λ i le. rw (==_of_ne i 0 (λ e. omega arith)) refl;
}

pub fresh-Serves :
    (stack : Stack) (time : ℕ → ℕ) (n : ℕ)
    → n ≤ 4080
    → Serves fresh n (layer (mounted (init-Represents stack time).0) (λ i. init_rwlock))
fresh-Serves stack time n few =
    let (d, run, files, room) = init-Represents stack time in
    record {
      disk = d;
      locks = λ i. init_rwlock;
      at = refl;
      files = files;
      idle = λ i lt. (pos 0, refl);
      room = omega (arith, room, few);
    }

module _ (stack : Stack) (stack_bytes : (k : ℕ) → IsBuffer (stack direct_buffer k))
    (clock : ℕ → ℕ → ℕ) (random : ℕ → ℕ) (heap : Block) where
  random_text-fault : (s : Tester) → random_text stack clock random heap s ≡ fault
  unfolding random_text
  random_text-fault s =
      let (out, rands, e, _, _, letters) = fill_lem clock random large_file_size 0 heap s in
      bind-ok (λ temp. c_string temp large_file_size 0) e
      ∙ c_string-fault out (record s { rands = rands }) large_file_size 0
          (λ j le lt z. absurd (omega (arith, (letters j (omega arith) (omega arith)).0)))

  -- For local buffers that hold bytes: on every file system that serves files below some id less than
  -- 1024, test_indirect is undefined behaviour, whatever rand and the clock return and whatever malloc
  -- hands out, since no cell of the array that it makes a string of is zero.
  test_indirect-fault :
      (m n : ℕ) (f : Files) (s : Tester)
      → m < 1024
      → Few m f
      → Serves f n s.fs
      → test_indirect stack clock random heap s ≡ fault
  unfolding test_indirect
  test_indirect-fault m n f s small few h =
      let (below, positive, gone) = first_absent-Few m f few small in
      let (fs₁, e₁, h₁) =
        call-create stack stack_bytes clock random f n s t_file h
          (omega arith, omega arith, _, omega arith, gone) in
      bind-ok _ e₁ ∙ bind-fault _ (random_text-fault _)

  -- The tests up to test_indirect pass, and that one is undefined behaviour.
  run_tests-fault :
      (n : ℕ) (contents : ℕ → ℕ) (f : Files) (s : Tester)
      → Few 1 f
      → Serves f (file_num + n) s.fs
      → run_tests stack clock random contents heap s ≡ fault
  unfolding run_tests test_put_and_get
  run_tests-fault n contents f s few h =
      let one =
        test_create_and_getattr_passes stack stack_bytes clock random 1 (file_num + n) f s
          (omega arith) few h in
      let two =
        put_and_get_passes stack stack_bytes clock random (1 + file_num) n contents one.files
          one.end one.few one.serves in
      bind-ok _ one.ends
      ∙ bind-fault _ (
          bind-ok _ two.ends
          ∙ bind-fault _ (
              test_indirect-fault (1 + file_num) n two.files
                (record two.end { total_score = two.end.total_score + 10 }) (omega arith) two.few
                two.serves))

  with_client-fault :
      (fs : InodeLayer) (contents : ℕ → ℕ)
      → run_tests stack clock random contents heap
          (record { fs = fs; requests = 0; rands = 0; total_score = 0 })
        ≡ fault
      → with_client stack clock random (ok true fs) contents heap ≡ fault
  unfolding with_client
  with_client-fault fs contents e = rw (e, with_client) refl

  -- For local buffers that hold bytes, the program never reaches its last line, even where the memory
  -- for the mutex of the bitmap happens to hold an unlocked one: whatever rand and the clock return,
  -- whatever the local array held and whatever malloc hands out, main without arguments ends in undefined
  -- behaviour.
  pub main-fault :
      (mutex : Mutex) (time contents : ℕ → ℕ)
      → mutex ≡ unlocked
      → main stack clock random 1 mutex time contents heap ≡ fault
  unfolding main
  main-fault mutex time contents is_unlocked =
      let (d, run, files, room) = init-Represents stack time in
      let fs : InodeLayer = layer (mounted d) (λ i. init_rwlock) in
      ap (λ (r : Run InodeLayer Bool). with_client stack clock random r contents heap)
        (rw is_unlocked run)
      ∙ with_client-fault fs contents (
          run_tests-fault 0 contents fresh
            (record { fs = fs; requests = 0; rands = 0; total_score = 0 }) fresh-Few
            (fresh-Serves stack time file_num (omega arith)))
