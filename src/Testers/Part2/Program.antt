-- ===== src/Testers/Part2/Program.antt =====
-- test_concurrent and main of part2_tester.cc.
use file_system.Base.{
  ℕ, ◌+◌, ◌*◌, Bool, true, false, ◌&&◌, ◌||◌, ◌==◌, ltb, if◌then◌else◌, update, List, Option, some,
  none, Run, ok, fault, blocked, out_of_fuel, Cmd, pure, ◌>>=◌, ◌>>◌,
}
use file_system.Disk.{Block, Stack}
use file_system.BlockLayer.{Mutex}
use file_system.InodeLayer.{InodeLayer, init_inode_layer}
use file_system.Server.{t_file}
use file_system.Client
use file_system.Testers.{large_file_size, is_ok, same_text, c_string, add_score, fill, call}
use file_system.Testers.Scheduling.{run_threads, run_steps}
use file_system.Testers.Part2.{
  Shared, Place, calling, checking, finished, Role, writer, reader, on_tester, step,
}

-- N_READ_WRITE_TEST
abbrev pub rounds : ℕ
rounds = 10000

unfoldable pub is_finished : Place → Bool
is_finished (calling k) = false
is_finished (checking k) = false
is_finished finished = true

-- The four threads of a test: two of each kind.
abbrev pub kind : ℕ → Role
kind j = if ltb j 2 then writer else reader

-- Where the threads of a test stand behind pthread_create: those that it created are about to begin.
unfoldable pub created : (ℕ → Bool) → ℕ → Place
created creates j = if ltb j 4 && creates j then calling rounds else finished

-- What the world decides is a parameter: `schedule i n` is the thread whose step is number n in test i,
-- `creates n` says whether call number n of pthread_create returned 0, and `strays` is how many steps
-- threads take that nobody waits for.
module _ (stack : Stack) (clock : ℕ → ℕ → ℕ) (random : ℕ → ℕ) where
  -- The four threads of a test between pthread_create and pthread_join.
  abbrev pub four_threads : (ℕ → ℕ) → ℕ → ℕ → List ℕ → List ℕ → Cmd Shared (ℕ → Place)
  four_threads schedule fuel id str1 str2 =
      run_threads (λ j. step stack clock random id str1 str2 (kind j)) is_finished 4 schedule fuel 0
        (created (λ j. true))

  -- The steps that the threads which were created still take when test_concurrent gives up and the program
  -- ends without joining them.
  abbrev pub stray_threads : (ℕ → Bool) → (ℕ → ℕ) → ℕ → ℕ → List ℕ → List ℕ → Cmd Shared (ℕ → Place)
  stray_threads creates schedule steps id str1 str2 =
      run_steps (λ j. step stack clock random id str1 str2 (kind j)) is_finished 4 schedule steps 0
        (created creates)

  -- err_in_single_repeated_reader || err_in_single_repeated_writer
  abbrev pub any_error : Cmd Shared Bool
  any_error s = ok (s.err_in_reader || s.err_in_writer) s

  -- A char array of `size` random letters and the terminator behind them.
  unfoldable pub random_letters : ℕ → Block → Cmd Shared Block
  random_letters size heap = do
    buf ← on_tester (fill clock random size 0 heap)
    pure (update buf size 0)

  -- The string that the array of `size` + 1 cells holds.
  abbrev pub string_of : ℕ → Block → Cmd Shared (List ℕ)
  string_of size buf = on_tester (c_string buf (size + 1) 0)

  module _ (creates : ℕ → Bool) (schedule : ℕ → ℕ → ℕ) (fuel strays : ℕ) where
    -- The second test: a file of two sizes.
    unfoldable pub test_varied : Block → ℕ → List ℕ → Cmd Shared ℕ
    unfolding random_letters
    test_varied heap2 id strbuf = do
      buf2 ← random_letters (large_file_size * 2) heap2
      str2 ← string_of (large_file_size * 2) buf2
      ret ← on_tester (call clock random (λ time. Client.put stack id strbuf))
      if is_ok ret
          then (if creates 4 && creates 5 && creates 6 && creates 7
              then (do
                four_threads (schedule 1) fuel id strbuf str2
                failed ← any_error
                if failed then pure 9 else (do on_tester (add_score 5); pure 0))
              else (do
                stray_threads (λ j. creates (4 + j)) (schedule 1) strays id strbuf str2
                pure 8))
          else pure 7

    -- The first test, behind its own put and get: a file of one size.
    unfoldable pub test_fixed : Block → Block → ℕ → List ℕ → Cmd Shared ℕ
    unfolding test_varied
    test_fixed buf heap2 id strbuf = do
      buf' ← on_tester (fill clock random large_file_size 0 buf)
      str2 ← string_of large_file_size buf'
      if creates 0 && creates 1 && creates 2 && creates 3
          then (do
            four_threads (schedule 0) fuel id strbuf str2
            failed ← any_error
            if failed then pure 5 else (do on_tester (add_score 5); test_varied heap2 id strbuf))
          else (do stray_threads creates (schedule 0) strays id strbuf str2; pure 4)

    -- test_concurrent; the two arrays hold what malloc hands out.
    unfoldable pub test_concurrent : Block → Block → Cmd Shared ℕ
    unfolding random_letters test_fixed
    test_concurrent heap heap2 = do
      (_, id) ← on_tester (call clock random (λ time. Client.create stack t_file time))
      buf ← random_letters large_file_size heap
      strbuf ← string_of large_file_size buf
      ret ← on_tester (call clock random (λ time. Client.put stack id strbuf))
      if is_ok ret
          then (do
            (ret', readbuf) ← on_tester (call clock random (λ time. Client.get stack id (time 0)))
            if is_ok ret'
                then (if same_text strbuf readbuf then test_fixed buf heap2 id strbuf else pure 3)
                else pure 2)
          else pure 1

    unfoldable pub with_client : Run InodeLayer Bool → Block → Block → Run (Option Shared) ℕ
    unfolding test_concurrent
    with_client (ok false fs) heap heap2 = ok 0 none
    with_client (ok true fs) heap heap2 =
        elim (test_concurrent heap heap2 (record {
          tester = record { fs = fs; requests = 0; rands = 0; total_score = 0 };
          err_in_writer = false;
          err_in_reader = false;
        })) [
          | ok code s ↦ ok 0 (some s)
          | fault ↦ fault
          | blocked ↦ blocked
          | out_of_fuel ↦ out_of_fuel
        ]
    with_client fault heap heap2 = fault
    with_client blocked heap heap2 = blocked
    with_client out_of_fuel heap heap2 = out_of_fuel

    -- main: the exit code, and the final state where there was a client. `mutex` is what the memory for the
    -- mutex of the bitmap holds.
    unfoldable pub main : ℕ → Mutex → (ℕ → ℕ) → Block → Block → Run (Option Shared) ℕ
    unfolding with_client
    main argc mutex time heap heap2 =
        if argc == 1 then with_client (init_inode_layer stack mutex time) heap heap2 else ok 1 none
