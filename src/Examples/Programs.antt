-- ===== src/Examples/Programs.antt =====
-- The second and the third test program, with a scheduler that takes the threads in turn.
use file_system.Base.{
  ℕ, zero, suc, ◌+◌, ◌-◌, ◌*◌, ◌/◌, ◌%◌, ◌≤◌, ◌<◌, ◌≡◌, refl, true, fault, arith,
}
use file_system.BlockLayer.{unlocked}
use file_system.Testers.Scheduling.{picks}
use file_system.Testers.Part2.Program as Concurrency
use file_system.Testers.Part2.Ending.{main-flows_off}
use file_system.Testers.Part3.Program as Measuring
use file_system.Testers.Part3.Running.{main-reader_fault}
use file_system.Examples.{sevens, sevens-HasBytes, clock}
use file_system.Examples.Testing.{times, numbers}
use file_system.Examples.Threads.{looks}

-- Four threads in turn, up to a step that is a multiple of four.
four_turns :
    (turns j fuel n : ℕ)
    → j < 4
    → n + fuel ≡ 4 * turns
    → turns ≤ picks (λ n. n % 4) fuel n j + (n + 3 - j) / 4
unfolding picks
four_turns turns j zero n lt e = omega arith
four_turns turns j (suc fuel) n lt e =
    ground (arith, four_turns turns j fuel (suc n) lt (omega arith))

many_turns :
    (turns j fuel n : ℕ)
    → j < 400
    → n + fuel ≡ 400 * turns
    → turns ≤ picks (λ n. n % 400) fuel n j + (n + 399 - j) / 400
unfolding picks
many_turns turns j zero n lt e = omega arith
many_turns turns j (suc fuel) n lt e =
    ground (arith, many_turns turns j fuel (suc n) lt (omega arith))

main-flows_off_example :
    Concurrency.main sevens times numbers
      (λ n. true)
      (λ i n. n % 4)
      80004
      5
      1
      unlocked
      clock
      (λ i. 7)
      (λ i. 7)
    ≡ fault
main-flows_off_example =
    main-flows_off sevens sevens-HasBytes times numbers (λ n. true) (λ n lt. refl) (λ i n. n % 4)
      80004 5 2 (omega arith) (omega arith)
      (omega (arith, four_turns 20001 2 80004 0 (omega arith) refl)) unlocked clock (λ i. 7)
      (λ i. 7) (λ e. cc)

main-reader_fault_example :
    Measuring.main sevens times numbers looks
      (λ n. true)
      (λ n. n % 400)
      1200
      1
      unlocked
      clock
      (λ i. 7)
      (λ i. 7)
    ≡ fault
main-reader_fault_example =
    main-reader_fault sevens sevens-HasBytes times numbers looks (λ n. true) (λ n. n % 400) 1200 3
      (omega arith) (λ n le. refl) (omega (arith, many_turns 3 3 1200 0 (omega arith) refl))
      unlocked clock (λ i. 7) (λ i. 7) (λ e. cc)
