-- ===== src/Testers.antt =====
-- What the test programs share: the file system under test, rand and the clock, strings, and the calls
-- of fs_client.
pub mod Part1
pub mod Part2
pub mod Part3
pub mod Calls
pub mod Few
pub mod Text
pub mod Letters
pub mod Scheduling
use file_system.Base.{
  ℕ, zero, suc, ◌+◌, ◌/◌, ◌%◌, Bool, true, false, ◌&&◌, ltb, ◌==◌, if◌then◌else◌, List, [], ◌∷◌,
  ◌++◌, Run, ok, fault, blocked, out_of_fuel, Cmd, pure, undefined, and_then, ◌>>=◌, ◌>>◌, ◌*◌,
}
use file_system.Disk.{Block}
use file_system.InodeLayer.{InodeLayer}
use file_system.Server.{Status, ok_status, rpcerr, noent, ioerr}

-- The global variables `ec`, here the file system behind it, and `total_score`; and how many requests
-- and calls of rand there were.
pub record Tester : Type 0 where
  pub fs : InodeLayer
  pub requests : ℕ
  pub rands : ℕ
  pub total_score : ℕ

-- FILE_NUM and LARGE_FILE_SIZE
abbrev pub file_num : ℕ
file_num = 50

abbrev pub large_file_size : ℕ
large_file_size = 512 * 64

-- A status compared with fs_protocol::OK.
abbrev pub is_ok : Status → Bool
is_ok ok_status = true
is_ok rpcerr = false
is_ok noent = false
is_ok ioerr = false

-- std::string::compare, for equality
unfoldable pub same_text : List ℕ → List ℕ → Bool
same_text [] [] = true
same_text [] (b ∷ bs) = false
same_text (a ∷ rest) [] = false
same_text (a ∷ rest) (b ∷ bs) = a == b && same_text rest bs

-- What sprintf makes of a number and "%d", for numbers with at most `places` + 1 digits.
unfoldable pub decimal : ℕ → ℕ → List ℕ
decimal zero n = (48 + n) ∷ []
decimal (suc places) n =
    let high = decimal places (n / 10) in
    if ltb n 10 then (48 + n) ∷ [] else high ++ ((48 + n % 10) ∷ [])

-- The std::string made of a char array of k cells from i on: it ends before the first zero, and to look
-- for one behind the array is undefined.
unfoldable pub c_string : Block → ℕ → ℕ → Cmd Tester (List ℕ)
c_string buf zero i = undefined
c_string buf (suc k) i =
    let rest = (do text ← c_string buf k (suc i); pure (buf i ∷ text)) in
    if buf i == 0 then pure [] else rest

-- total_score += n
abbrev pub add_score : ℕ → Cmd Tester (Unit {0})
add_score n s = ok tt (record s { total_score = s.total_score + n })

-- What the calls return is a parameter: `random n` for call number n of rand, and `clock k n` for call
-- number n of time in request number k.
module _ (clock : ℕ → ℕ → ℕ) (random : ℕ → ℕ) where
  abbrev pub rand : Cmd Tester ℕ
  rand s = ok (random s.rands) (record s { rands = s.rands + 1 })

  -- A request of the client.
  unfoldable pub call : {A : Type 0} → ((ℕ → ℕ) → Cmd InodeLayer A) → Cmd Tester A
  call request s = elim (request (clock s.requests) s.fs) [
    | ok a fs ↦ ok a (record s { fs = fs; requests = s.requests + 1 })
    | fault ↦ fault
    | blocked ↦ blocked
    | out_of_fuel ↦ out_of_fuel
  ]

  -- for (i = 0; i < rounds; i++) buf[i] = 97 + rand() % 26
  unfoldable pub fill : ℕ → ℕ → Block → Cmd Tester Block
  fill zero i buf = pure buf
  fill (suc rounds) i buf = do
    rnum ← rand
    fill rounds (suc i) (λ j. if j == i then 97 + rnum % 26 else buf j)
