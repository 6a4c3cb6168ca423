-- ===== src/Testers/Part1.antt =====
-- part1_tester.cc.
pub mod Creating
pub mod Numbers
pub mod Putting
pub mod Checking
pub mod Running
use file_system.Base.{
  List, ℕ, zero, suc, ◌+◌, ◌%◌, ◌^◌, Bool, true, false, ltb, ◌==◌, if◌then◌else◌, update, Option,
  none, some, Run, ok, fault, blocked, out_of_fuel, Cmd, pure, ◌>>=◌, ◌>>◌,
}
use file_system.Disk.{Block, Stack}
use file_system.BlockLayer.{Mutex}
use file_system.InodeLayer.{InodeLayer, init_inode_layer}
use file_system.Server.{t_dir, t_file}
use file_system.Client
use file_system.Testers.{
  Tester, file_num, large_file_size, is_ok, same_text, decimal, c_string, add_score, rand, call,
  fill,
}

module _ (stack : Stack) (clock : ℕ → ℕ → ℕ) (random : ℕ → ℕ) where
  -- One branch of the loop of test_create_and_getattr, with the code that the test returns; 0 to go on.
  unfoldable pub create_as : ℕ → Cmd Tester ℕ
  unfolding call
  create_as type = do
    (_, id) ← call clock random (λ time. Client.create stack type time)
    if id % 2 ^ 32 == 0 then pure 1 else (do
      (ret, a) ← call clock random (λ time. Client.get_attributes stack id)
      if is_ok ret then (if a.type == type then pure 0 else pure 3) else pure 2)

  -- The loop, with the rounds left.
  unfoldable pub create_loop : ℕ → Cmd Tester ℕ
  unfolding create_as
  create_loop zero = pure 0
  create_loop (suc rounds) =
      let rest = create_loop rounds in
      (do
        rnum ← rand clock random
        code ← if ltb (rnum % 10) 3 then create_as t_dir else create_as t_file
        if code == 0 then rest else pure code)

  unfoldable pub test_create_and_getattr : Cmd Tester ℕ
  test_create_and_getattr = do
    code ← create_loop file_num
    if code == 0 then (do add_score 10; pure 0) else pure code

  -- The loop that fills temp1 or temp2, and the std::string made of it; the array holds `heap` before.
  unfoldable pub random_text : Block → Cmd Tester (List ℕ)
  random_text heap = do
    temp ← fill clock random large_file_size 0 heap
    c_string temp large_file_size 0

  unfoldable pub test_indirect : Block → Cmd Tester ℕ
  test_indirect heap = do
    (_, id1) ← call clock random (λ time. Client.create stack t_file time)
    buf ← random_text heap
    ret ← call clock random (λ time. Client.put stack id1 buf)
    if is_ok ret
        then (do
          (_, id2) ← call clock random (λ time. Client.create stack t_file time)
          buf2 ← random_text heap
          ret ← call clock random (λ time. Client.put stack id2 buf2)
          if is_ok ret
              then (do
                (ret, buf_2) ← call clock random (λ time. Client.get stack id1 (time 0))
                if is_ok ret
                    then (if same_text buf buf_2
                        then (do
                          (ret, buf2_2) ← call clock random (λ time. Client.get stack id2 (time 0))
                          if is_ok ret
                              then (if same_text buf2 buf2_2
                                  then (do add_score 10; pure 0)
                                  else pure 6)
                              else pure 5)
                        else pure 4)
                    else pure 3)
              else pure 2)
        else pure 1

  -- The first loop of test_put_and_get: the code, and the array `contents`.
  unfoldable pub put_loop : ℕ → ℕ → (ℕ → ℕ) → Cmd Tester (ℕ × (ℕ → ℕ))
  unfolding call decimal
  put_loop zero i contents = pure (0, contents)
  put_loop (suc rounds) i contents =
      let rest = put_loop rounds (suc i) in
      (do
        (ret, a) ← call clock random (λ time. Client.get_attributes stack (i + 2))
        if is_ok ret
            then (if a.type == t_file
                then (do
                  rnum ← rand clock random
                  ret ←
                      call clock random
                        (λ time. Client.put stack (i + 2) (decimal 3 (rnum % 10000)))
                  if is_ok ret then rest (update contents i (rnum % 10000)) else pure (2, contents))
                else rest contents)
            else pure (1, contents))

  -- The second loop.
  unfoldable pub check_loop : ℕ → ℕ → (ℕ → ℕ) → Cmd Tester ℕ
  unfolding call decimal same_text
  check_loop zero i contents = pure 0
  check_loop (suc rounds) i contents =
      let rest = check_loop rounds (suc i) contents in
      (do
        (ret, a) ← call clock random (λ time. Client.get_attributes stack (i + 2))
        if is_ok ret
            then (if a.type == t_file
                then (do
                  (ret, buf) ← call clock random (λ time. Client.get stack (i + 2) (time 0))
                  if is_ok ret
                      then (if same_text buf (decimal 3 (contents i)) then rest else pure 5)
                      else pure 4)
                else rest)
            else pure 3)

  -- The part of test_put_and_get before it calls test_indirect; `contents` is indeterminate at first.
  unfoldable pub put_and_get : (ℕ → ℕ) → Cmd Tester ℕ
  put_and_get contents = do
    (code, contents) ← put_loop file_num 0 contents
    if code == 0 then check_loop file_num 0 contents else pure code

  unfoldable pub test_put_and_get : (ℕ → ℕ) → Block → Cmd Tester ℕ
  test_put_and_get contents heap = do
    code ← put_and_get contents
    if code == 0 then (do add_score 10; test_indirect heap; pure 0) else pure code

  unfoldable pub remove_loop : ℕ → ℕ → Cmd Tester ℕ
  unfolding call
  remove_loop zero i = pure 0
  remove_loop (suc rounds) i =
      let rest = remove_loop rounds (suc i) in
      (do
        ret ← call clock random (λ time. Client.remove stack (i + 2))
        if is_ok ret
            then (do
              (_, a) ← call clock random (λ time. Client.get_attributes stack (i + 2))
              if a.type == 0 then rest else pure 2)
            else pure 1)

  unfoldable pub test_remove : Cmd Tester ℕ
  test_remove = do
    code ← remove_loop file_num 0
    if code == 0 then (do add_score 10; pure 0) else pure code

  -- The tests one after the other, up to the first that fails.
  unfoldable pub run_tests : (ℕ → ℕ) → Block → Cmd Tester ℕ
  run_tests contents heap = do
    first ← test_create_and_getattr
    if first == 0
        then (do
          second ← test_put_and_get contents heap
          if second == 0 then (do test_remove; pure 0) else pure 0)
        else pure 0

  -- What follows `new fs_client()` in main; the constructor of the inode layer may call exit(0).
  unfoldable pub with_client : Run InodeLayer Bool → (ℕ → ℕ) → Block → Run (Option Tester) ℕ
  with_client (ok false fs) contents heap = ok 0 none
  with_client (ok true fs) contents heap =
      elim (run_tests contents heap
        (record { fs = fs; requests = 0; rands = 0; total_score = 0 })) [
          | ok code s ↦ ok code (some s)
          | fault ↦ fault
          | blocked ↦ blocked
          | out_of_fuel ↦ out_of_fuel
        ]
  with_client fault contents heap = fault
  with_client blocked contents heap = blocked
  with_client out_of_fuel contents heap = out_of_fuel

  -- main: the exit code, and the final state where there was a client. `mutex` is what the memory for
  -- the mutex of the bitmap holds.
  unfoldable pub main : ℕ → Mutex → (ℕ → ℕ) → (ℕ → ℕ) → Block → Run (Option Tester) ℕ
  main argc mutex time contents heap =
      if argc == 1 then with_client (init_inode_layer stack mutex time) contents heap else ok 1 none
