-- ===== src/Testers/Part2.antt =====
-- The threads of part2_tester.cc, which write one of two strings to one file and read it, over and over.
pub mod Program
pub mod Scheduled
pub mod Arrays
pub mod Ending
use file_system.Base.{
  ℕ, zero, suc, ◌+◌, ◌%◌, ◌≡◌, Bool, true, false, ◌||◌, ◌==◌, if◌then◌else◌, update, List, Run, ok,
  fault, blocked, out_of_fuel, Cmd, pure, and_then, ◌>>=◌, ◌>>◌,
}
use file_system.Disk.{Stack}
use file_system.Client
use file_system.Testers.{Tester, is_ok, same_text, rand, call}

-- The state that the threads share, with err_in_single_repeated_writer and -reader.
pub record Shared : Type 0 where
  pub tester : Tester
  pub err_in_writer : Bool
  pub err_in_reader : Bool

-- Where a thread stands, with the rounds left: before its call, behind it, or returned.
pub data Place : Type 0 where
  calling : ℕ → Place
  checking : ℕ → Place
  finished : Place

pub data Role : Type 0 where
  writer reader : Role

unfoldable pub on_tester : {A : Type 0} → Cmd Tester A → Cmd Shared A
on_tester m s = elim (m s.tester) [
  | ok a t ↦ ok a (record s { tester = t })
  | fault ↦ fault
  | blocked ↦ blocked
  | out_of_fuel ↦ out_of_fuel
]

-- The end of a thread function: single_repeated_writer returns NULL, and single_repeated_reader flows off
-- its end without a value, which is undefined behaviour.
unfoldable pub thread_end : Role → Cmd Shared Place
thread_end writer = pure finished
thread_end reader = λ _. fault

abbrev fail_writer : Cmd Shared Place
fail_writer s = thread_end writer (record s { err_in_writer = true })

abbrev fail_reader : Cmd Shared Place
fail_reader s = thread_end reader (record s { err_in_reader = true })

-- All threads. Their calls are taken one at a time, as the lock of the file has them.
pub record Threads : Type 0 where
  pub shared : Shared
  pub place : ℕ → Place

-- The file `id` and the strings str1 and str2 are global variables that the threads only read.
module _ (stack : Stack) (clock : ℕ → ℕ → ℕ) (random : ℕ → ℕ) (id : ℕ) (str1 str2 : List ℕ) where
  -- A round of single_repeated_writer up to its last test.
  unfoldable pub write_once : ℕ → Cmd Shared Place
  unfolding thread_end
  write_once k = do
    rnum ← on_tester (rand clock random)
    if rnum % 2 == 0
        then (do
          ret ← on_tester (call clock random (λ time. Client.put stack id str2))
          if is_ok ret then pure (checking k) else fail_writer)
        else (do
          ret ← on_tester (call clock random (λ time. Client.put stack id str1))
          if is_ok ret then pure (checking k) else fail_writer)

  -- A round of single_repeated_reader up to its last test.
  unfoldable pub read_once : ℕ → Cmd Shared Place
  unfolding thread_end
  read_once k = do
    (ret, readbuf) ← on_tester (call clock random (λ time. Client.get stack id (time 0)))
    if is_ok ret
        then (if same_text str1 readbuf || same_text str2 readbuf
            then pure (checking k)
            else fail_reader)
        else fail_reader

  -- What a thread does next: its call, or the test of both error variables at the end of a round.
  unfoldable pub step : Role → Place → Cmd Shared Place
  unfolding thread_end
  step role (calling zero) = thread_end role
  step writer (calling (suc k)) = write_once k
  step reader (calling (suc k)) = read_once k
  step role (checking k) =
      λ s. if s.err_in_reader || s.err_in_writer then thread_end role s else ok (calling k) s
  step role finished = pure finished

  -- The states after n steps of any threads in any order.
  pub data Reach (role : ℕ → Role) (first : Threads) : ℕ → Threads → Type 0 where
    start : Reach role first 0 first
    later :
        {n : ℕ} {t : Threads} {p : Place} {s : Shared} (j : ℕ)
        → Reach role first n t
        → step (role j) (t.place j) t.shared ≡ ok p s
        → Reach role first (suc n) (record { shared = s; place = update t.place j p })
