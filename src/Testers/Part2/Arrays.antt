-- ===== src/Testers/Part2/Arrays.antt =====
-- The arrays of test_concurrent of part2_tester.cc.
use file_system.Base.{
  ℕ, ◌+◌, ◌%◌, ◌≤◌, ◌≡◌, refl, update, List, ok, bind-ok, arith, update_same, ==_of_ne,
}
use file_system.Disk.{Block, Stack}
use file_system.Client.LargeText.{IsBlocks}
use file_system.Testers.{fill, c_string}
use file_system.Testers.Letters.{AreLetters, fill_lem, c_string-letters}
use file_system.Testers.Part2.{Shared, on_tester}
use file_system.Testers.Part2.Program.{random_letters}

-- The state with other random numbers taken.
abbrev pub rolled : Shared → ℕ → Shared
rolled s r = record s { tester = record s.tester { rands = r } }

module _ (stack : Stack) (clock : ℕ → ℕ → ℕ) (random : ℕ → ℕ) where
  pub filled :
      (size : ℕ) (heap : Block) (s : Shared)
      → (out : Block) × (r : ℕ) × (on_tester (fill clock random size 0 heap) s
          ≡ ok out (rolled s r))
        × ((j : ℕ) → size ≤ j → out j ≡ heap j)
        × AreLetters out 0 size
  unfolding on_tester
  filled size heap s =
      let (out, r, e, _, behind, letters) = fill_lem clock random size 0 heap s.tester in
      (
        out,
        r,
        rw (e, on_tester) refl,
        (λ j ge. behind j (omega arith)),
        (λ j lo hi. letters j lo (omega arith)),
      )

  -- The string of an array that ends in a zero behind its letters.
  pub string_lem :
      (size : ℕ) (buf : Block) (s : Shared)
      → size % 512 ≡ 0
      → 4608 ≤ size
      → size ≤ 65536
      → AreLetters buf 0 size
      → buf size ≡ 0
      → (text : List ℕ) × (on_tester (c_string buf (size + 1) 0) s ≡ ok text s) × IsBlocks text
  unfolding on_tester
  string_lem size buf s whole long large letters end =
      let start : 0 + size ≡ size = omega arith in
      let (text, e, len, bytes) =
        c_string-letters buf s.tester (size + 1) size 0 (omega arith)
          (λ j lo hi. letters j lo (omega arith)) (rw start end) in
      (
        text,
        rw (e, on_tester) refl,
        record { bytes = bytes; whole = omega arith; long = omega arith; large = omega arith },
      )

  pub letters_lem :
      (size : ℕ) (heap : Block) (s : Shared)
      → (out : Block) × (r : ℕ) × (random_letters stack clock random size heap s
          ≡ ok out (rolled s r))
        × AreLetters out 0 size
        × (out size ≡ 0)
  unfolding random_letters
  letters_lem size heap s =
      let (buf, r, e, _, letters) = filled size heap s in
      (
        update buf size 0,
        r,
        bind-ok _ e,
        (λ j lo hi. rw (==_of_ne j size (omega arith)) (letters j lo hi)),
        update_same buf size 0,
      )
