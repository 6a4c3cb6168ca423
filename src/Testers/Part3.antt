-- ===== src/Testers/Part3.antt =====
-- The threads of part3_tester.cc, which measure how long one write or one read of a file takes.
pub mod Program
pub mod Steps
pub mod Running
use file_system.Base.{
  ℕ, ◌+◌, ◌-◌, ◌*◌, ◌/◌, ◌%◌, ◌^◌, Bool, true, ◌||◌, ◌==◌, if◌then◌else◌, List, Run, ok, fault,
  blocked, out_of_fuel, Cmd, pure, and_then, ◌>>=◌, ◌>>◌,
}
use file_system.Disk.{Stack}
use file_system.Client
use file_system.Testers.{Tester, is_ok, same_text, rand, call}

-- The state of a thread, with how often it looked at the clock, err_in_single_writer and -reader.
pub record Measure : Type 0 where
  pub tester : Tester
  pub looks : ℕ
  pub err_in_writer : Bool
  pub err_in_reader : Bool

unfoldable pub on_tester : {A : Type 0} → Cmd Tester A → Cmd Measure A
on_tester m s = elim (m s.tester) [
  | ok a t ↦ ok a (record s { tester = t })
  | fault ↦ fault
  | blocked ↦ blocked
  | out_of_fuel ↦ out_of_fuel
]

abbrev fail_writer : Cmd Measure (Unit {0})
fail_writer s = ok tt (record s { err_in_writer = true })

abbrev fail_reader : Cmd Measure (Unit {0})
fail_reader s = ok tt (record s { err_in_reader = true })

-- What get_usec makes of seconds and nanoseconds, in 64 bits.
unfoldable pub usec : ℕ × ℕ → ℕ
usec t = (t.0 * (1000 * 1000) % 2 ^ 64 + t.1 / 1000) % 2 ^ 64

-- end - start, in 64 bits
abbrev pub elapsed : ℕ → ℕ → ℕ
elapsed end start = (end + 2 ^ 64 - start) % 2 ^ 64

-- The end of both thread functions, behind `*latency = end - start`: they have no return statement, which
-- is undefined behaviour in a function that is not void.
unfoldable pub flows_off : {A : Type 0} → ℕ → Cmd Measure A
flows_off latency s = fault

-- `monotonic n` is what look number n at CLOCK_MONOTONIC gives: seconds and nanoseconds.
module _ (stack : Stack) (clock : ℕ → ℕ → ℕ) (random : ℕ → ℕ) (monotonic : ℕ → ℕ × ℕ) (id : ℕ)
    (str1 str2 : List ℕ) where
  unfoldable pub get_usec : Cmd Measure ℕ
  unfolding usec
  get_usec s = ok (usec (monotonic s.looks)) (record s { looks = s.looks + 1 })

  -- single_writer
  unfoldable pub single_writer : Cmd Measure (Unit {0})
  unfolding flows_off
  single_writer = do
    start ← get_usec
    rnum ← on_tester (rand clock random)
    if rnum % 2 == 0
        then (do
          ret ← on_tester (call clock random (λ time. Client.put stack id str2))
          if is_ok ret then pure tt else fail_writer)
        else (do
          ret ← on_tester (call clock random (λ time. Client.put stack id str1))
          if is_ok ret then pure tt else fail_writer)
    end ← get_usec
    flows_off (elapsed end start)

  -- What single_reader does between its two looks at the clock; it compares the strings after a failed
  -- get, too.
  abbrev pub read_and_compare : Cmd Measure (Unit {0})
  read_and_compare = do
    (ret, readbuf) ← on_tester (call clock random (λ time. Client.get stack id (time 0)))
    if is_ok ret then pure tt else fail_reader
    if same_text str1 readbuf || same_text str2 readbuf then pure tt else fail_reader

  -- single_reader
  unfoldable pub single_reader : Cmd Measure (Unit {0})
  unfolding flows_off
  single_reader = do
    start ← get_usec
    read_and_compare
    end ← get_usec
    flows_off (elapsed end start)
