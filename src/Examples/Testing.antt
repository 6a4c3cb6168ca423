-- ===== src/Examples/Testing.antt =====
-- The test program on the file system that the constructor leaves, and on texts.
use file_system.BlockLayer.{mounted, unlocked}
use file_system.RwLock.{init_rwlock}
use file_system.InodeLayer.Locks.{layer}
use file_system.Files.Start.{fresh}
use file_system.Base.{◌*◌, ◌≤◌, ℕ, fault, ◌≡◌, ◌+◌, refl, arith, false, [], ◌∷◌}
use file_system.Testers.{Tester, same_text, decimal}
use file_system.Testers.Calls.{Serves}
use file_system.Testers.Few.{Passed}
use file_system.Testers.Part1.{test_create_and_getattr, put_and_get, main}
use file_system.Testers.Part1.Creating.{test_create_and_getattr_passes}
use file_system.Testers.Part1.Checking.{put_and_get_passes}
use file_system.Testers.Part1.Running.{fresh-Few, fresh-Serves, main-fault}
use file_system.Examples.{sevens, sevens-IsBuffer, clock}
use file_system.Examples.Session.{first_disk}

-- What time and rand return.
abbrev pub times : ℕ → ℕ → ℕ
times k n = clock (3 * k + n)

abbrev pub numbers : ℕ → ℕ
numbers n = 17 * n + 5

decimal-4096 : decimal 3 4096 ≡ 52 ∷ 48 ∷ 57 ∷ 54 ∷ []
unfolding decimal
decimal-4096 = refl

decimal-7 : decimal 3 7 ≡ 55 ∷ []
unfolding decimal
decimal-7 = refl

different_texts : same_text (55 ∷ []) (55 ∷ 48 ∷ []) ≡ false
unfolding same_text
different_texts = refl

abbrev pub tester : Tester
tester = record {
  fs = layer (mounted first_disk) (λ i. init_rwlock);
  requests = 0;
  rands = 0;
  total_score = 0;
}

tester-Serves : (n : ℕ) → n ≤ 4080 → Serves fresh n tester.fs
tester-Serves n le = fresh-Serves sevens clock n le

test_create_and_getattr_passes_example :
    Passed 10 51 0 (test_create_and_getattr sevens times numbers) tester
test_create_and_getattr_passes_example =
    test_create_and_getattr_passes sevens sevens-IsBuffer times numbers 1 0 fresh tester
      (omega arith) fresh-Few (tester-Serves 0 (omega arith))

-- The files that this test leaves, with room for 50 puts.
abbrev created : Passed 10 51 50 (test_create_and_getattr sevens times numbers) tester
created =
    test_create_and_getattr_passes sevens sevens-IsBuffer times numbers 1 50 fresh tester
      (omega arith) fresh-Few (tester-Serves 50 (omega arith))

put_and_get_passes_example : Passed 0 51 0 (put_and_get sevens times numbers (λ i. 7)) created.end
put_and_get_passes_example =
    put_and_get_passes sevens sevens-IsBuffer times numbers 51 0 (λ i. 7) created.files created.end
      created.few created.serves

main-fault_example : main sevens times numbers 1 unlocked clock (λ i. 7) (λ i. 7) ≡ fault
main-fault_example =
    main-fault sevens sevens-IsBuffer times numbers (λ i. 7) unlocked clock (λ i. 7) refl
