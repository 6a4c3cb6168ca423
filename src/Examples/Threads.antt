-- ===== src/Examples/Threads.antt =====
-- The threads of the second test program, on a file of 32768 letters.
use file_system.Base.{
  ℕ, zero, suc, ◌%◌, ◌≤◌, ◌<◌, ◌≡◌, ◌⊎◌, refl, arith, false, fault, ok, [], ◌∷◌, Bool, List, ltb,
  if◌then◌else◌, inl,
}
use file_system.Base.Lists.{length, get_or}
use file_system.Base.Int.{pos}
use file_system.InodeLayer.{InodeLayer}
use file_system.Client.LargeText.{IsBlocks, HoldsText, put-HoldsText_first}
use file_system.Testers.Part2.{Shared, Place, Role, writer, reader, Threads, calling, start, step}
use file_system.Testers.Part2.Scheduled.{Good, no_error}
use file_system.Examples.{
  sevens, sevens-HasBytes, small_disk, free_locks, small_disk-IsFile, small_disk-inode,
  small_disk-free,
}
use file_system.Examples.Testing.{times, numbers, tester}

-- A string of one letter.
unfoldable letters : ℕ → ℕ → List ℕ
letters x zero = []
letters x (suc n) = x ∷ letters x n

length-letters : (x n : ℕ) → length (letters x n) ≡ n
unfolding letters
length-letters x zero = refl
length-letters x (suc n) = omega (arith, length-letters x n)

letters-bytes : (x n : ℕ) → x < 256 → (i : ℕ) → get_or (letters x n) i 0 < 256
unfolding letters
letters-bytes x zero lt i = omega arith
letters-bytes x (suc n) lt zero = lt
letters-bytes x (suc n) lt (suc i) = letters-bytes x n lt i

letters-IsBlocks : (x n : ℕ) → x < 256 → n % 512 ≡ 0 → 4608 ≤ n → n ≤ 65536 → IsBlocks (letters x n)
letters-IsBlocks x n lt whole long large = record {
  bytes = letters-bytes x n lt;
  whole = rw (length-letters x n) whole;
  long = rw (length-letters x n) long;
  large = rw (length-letters x n) large;
}

abbrev text1 : List ℕ
text1 = letters 97 32768

abbrev text2 : List ℕ
text2 = letters 98 65536

text1-IsBlocks : IsBlocks text1
text1-IsBlocks = letters-IsBlocks 97 32768 (omega arith) refl (omega arith) (omega arith)

text2-IsBlocks : IsBlocks text2
text2-IsBlocks = letters-IsBlocks 98 65536 (omega arith) refl (omega arith) (omega arith)

-- File 1 with the first string.
written : (fs : InodeLayer) × HoldsText 1 text1 fs
written =
    let (fs, _, holds) =
      put-HoldsText_first sevens sevens-HasBytes 1 (omega arith) text1 small_disk free_locks (pos 0)
        text1-IsBlocks small_disk-IsFile (rw small_disk-inode (omega arith)) refl
        (omega (arith, small_disk-free 32645 (omega arith))) in
    (fs, holds)

abbrev threads : Threads
threads = record {
  shared = record {
    tester = record tester { fs = written.0 };
    err_in_writer = false;
    err_in_reader = false;
  };
  place = λ j. calling 10000;
}

-- The threads 0 and 1 write, and the others read.
abbrev roles : ℕ → Role
roles j = if ltb j 2 then writer else reader

threads-Good :
    Good sevens sevens-HasBytes times numbers 1
      (omega arith)
      text1
      text2
      text1-IsBlocks
      text2-IsBlocks
      threads.shared
threads-Good = record {
  text = text1;
  which = inl refl;
  holds = written.1;
  writer_fine = refl;
  reader_fine = refl;
}

no_error_example :
    ((text : List ℕ) × ((text ≡ text1) ⊎ (text ≡ text2))
      × HoldsText 1 text threads.shared.tester.fs)
    × ◌≡◌ {A = Bool} false false
    × ◌≡◌ {A = Bool} false false
    × ((j : ℕ)
        → ((roles j ≡ reader)
            × (◌≡◌ {A = Place} (calling 10000) (calling 0))
            × (step sevens times numbers 1 text1 text2 (roles j) (calling 10000) threads.shared
                ≡ fault))
          ⊎ ((p : Place) × (s : Shared) × (step sevens times numbers 1 text1 text2
                  (roles j)
                  (calling 10000)
                  threads.shared
                ≡ ok p s)))
no_error_example =
    no_error sevens sevens-HasBytes times numbers 1 (omega arith) text1 text2 text1-IsBlocks
      text2-IsBlocks roles threads 0 threads threads-Good start

-- 1.5 milliseconds between the looks at the clock.
abbrev pub looks : ℕ → ℕ × ℕ
looks n = (7, if ltb n 1 then 1000000 else 2500000)
