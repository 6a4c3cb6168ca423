-- ===== src/Testers/Part3/Program.antt =====
-- test_concurrent and main of part3_tester.cc.
use file_system.Base.{
  ℕ, zero, suc, ◌+◌, ◌*◌, ◌/◌, ◌%◌, ◌^◌, Bool, true, false, ◌||◌, ◌==◌, if◌then◌else◌, update, List,
  Option, some, none, Run, ok, fault, blocked, out_of_fuel, Cmd, pure, ◌>>=◌, ◌>>◌,
}
use file_system.Disk.{Block, Stack}
use file_system.BlockLayer.{Mutex}
use file_system.InodeLayer.{InodeLayer, init_inode_layer}
use file_system.Server.{t_file}
use file_system.Client
use file_system.Testers.{large_file_size, is_ok, c_string, fill, call}
use file_system.Testers.Scheduling.{run_threads}
use file_system.Testers.Part3.{
  Measure, on_tester, usec, elapsed, get_usec, read_and_compare, flows_off,
}

-- nreader
abbrev pub nreader : ℕ
nreader = 400

-- Where single_reader stands: before its first look at the clock, behind it, before the second one, and
-- returned, with the latency that it found; no reader gets there.
pub data Stage : Type 0 where
  begun : Stage
  timed : ℕ → Stage
  compared : ℕ → Stage
  returned : ℕ → Stage

unfoldable pub is_returned : Stage → Bool
is_returned begun = false
is_returned (timed start) = false
is_returned (compared start) = false
is_returned (returned latency) = true

abbrev pub latency_of : Stage → ℕ
latency_of begun = 0
latency_of (timed start) = 0
latency_of (compared start) = 0
latency_of (returned latency) = latency

-- The sum of the first k latencies, in 64 bits.
unfoldable pub total_latency : (ℕ → Stage) → ℕ → ℕ
total_latency stage zero = 0
total_latency stage (suc k) = (total_latency stage k + latency_of (stage k)) % 2 ^ 64

-- The first call of pthread_create from number n on that failed, with the calls left.
unfoldable pub first_failed : (ℕ → Bool) → ℕ → ℕ → ℕ
first_failed creates zero n = n
first_failed creates (suc left) n =
    let rest = first_failed creates left (suc n) in if creates n then rest else n

-- Where the readers stand behind pthread_create, whose result nobody tests; one that was not created takes
-- no step.
abbrev pub started : (ℕ → Bool) → ℕ → Stage
started creates j = if creates j then begun else returned 0

-- `creates n` says whether call number n of pthread_create returned 0.
module _ (stack : Stack) (clock : ℕ → ℕ → ℕ) (random : ℕ → ℕ) (monotonic : ℕ → ℕ × ℕ) where
  -- The steps of single_reader; the lock of the file takes one call at a time.
  unfoldable pub reader_step : ℕ → List ℕ → List ℕ → Stage → Cmd Measure Stage
  unfolding get_usec flows_off
  reader_step id str1 str2 begun = do
    start ← get_usec stack clock random monotonic id str1 str2
    pure (timed start)
  reader_step id str1 str2 (timed start) = do
    read_and_compare stack clock random monotonic id str1 str2
    pure (compared start)
  reader_step id str1 str2 (compared start) = do
    end ← get_usec stack clock random monotonic id str1 str2
    flows_off (elapsed end start)
  reader_step id str1 str2 (returned latency) = pure (returned latency)

  -- An array of `size` random letters with its terminator, as a string.
  unfoldable pub random_string : ℕ → Block → Cmd Measure (List ℕ)
  random_string size heap = do
    buf ← on_tester (fill clock random size 0 heap)
    on_tester (c_string (update buf size 0) (size + 1) 0)

  module _ (creates : ℕ → Bool) (schedule : ℕ → ℕ) (fuel : ℕ) where
    -- The readers up to the last pthread_join, which takes them in order. Joining one that was not created is
    -- undefined behaviour, since its pthread_t is indeterminate.
    unfoldable pub joined : ℕ → List ℕ → List ℕ → Cmd Measure (ℕ → Stage)
    unfolding reader_step is_returned first_failed
    joined id str1 str2 = do
      stages ←
          run_threads (λ j. reader_step id str1 str2) is_returned (first_failed creates nreader 0)
            schedule fuel 0 (started creates)
      if first_failed creates nreader 0 == nreader then pure stages else (λ _. fault)

    -- test_concurrent: what it returns, and the average reader latency that it prints. The two arrays hold
    -- what malloc hands out. No writer is created, since the code for it is left to be written.
    unfoldable pub test_concurrent : Block → Block → Cmd Measure (ℕ × ℕ)
    unfolding random_string joined total_latency
    test_concurrent heap1 heap2 = do
      (_, id) ← on_tester (call clock random (λ time. Client.create stack t_file time))
      str1 ← random_string large_file_size heap1
      str2 ← random_string (large_file_size * 2) heap2
      ret ← on_tester (call clock random (λ time. Client.put stack id str1))
      if is_ok ret
          then (do stages ← joined id str1 str2; pure (0, total_latency stages nreader / nreader))
          else pure (7, 0)

    -- What main prints at the end: the milliseconds from its first look at the clock, when no error was
    -- noted.
    unfoldable pub report : ℕ → ℕ → ℕ → Measure → Option ℕ
    report start end err s =
        if err == 0
        then (if s.err_in_writer || s.err_in_reader then none else some (elapsed end start / 1000))
        else none

    unfoldable pub with_client :
        Run InodeLayer Bool → Block → Block → Run (Option Measure) (ℕ × Option ℕ)
    unfolding test_concurrent report
    with_client (ok false fs) heap1 heap2 = ok (0, none) none
    with_client (ok true fs) heap1 heap2 =
        elim (test_concurrent heap1 heap2 (record {
          tester = record { fs = fs; requests = 0; rands = 0; total_score = 0 };
          looks = 1;
          err_in_writer = false;
          err_in_reader = false;
        })) [
          | ok result s ↦
              ok (0, report (usec (monotonic 0)) (usec (monotonic s.looks)) result.0 s)
                (some (record s { looks = s.looks + 1 }))
          | fault ↦ fault
          | blocked ↦ blocked
          | out_of_fuel ↦ out_of_fuel
        ]
    with_client fault heap1 heap2 = fault
    with_client blocked heap1 heap2 = blocked
    with_client out_of_fuel heap1 heap2 = out_of_fuel

    -- main: the exit code and what it prints, with the final state where there was a client. `mutex` is
    -- what the memory for the mutex of the bitmap holds.
    unfoldable pub main : ℕ → Mutex → (ℕ → ℕ) → Block → Block → Run (Option Measure) (ℕ × Option ℕ)
    unfolding with_client
    main argc mutex time heap1 heap2 =
        if argc == 1
        then with_client (init_inode_layer stack mutex time) heap1 heap2
        else ok (1, none) none
