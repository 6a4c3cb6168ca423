-- ===== src/Testers/Part3/Steps.antt =====
-- The strings and the steps of a reader of part3_tester.cc.
use file_system.Base.{
  ℕ, zero, ◌+◌, ◌-◌, ◌%◌, ◌≤◌, ◌<◌, ◌≡◌, inl, inr, ◌⊎◌, fault, and_then, eq_or_ne, refl, ◌∙◌, Bool,
  true, false, update, List, Run, Cmd, ok, bind-ok, arith, update_same, ==_of_ne, suc,
}
use file_system.Disk.{Block, Stack}
use file_system.Client
use file_system.Client.LargeText.{IsBlocks, HoldsText, get-HoldsText}
use file_system.InodeLayer.{InodeLayer}
use file_system.InodeLayer.Write.Indirect.Whole.{HasBytes}
use file_system.Server.{ok_status, inum_of}
use file_system.Testers.{Tester, call}
use file_system.Testers.Letters.{fill_lem, c_string-letters}
use file_system.Testers.Part3.{Measure, on_tester, get_usec, read_and_compare, flows_off}
use file_system.Testers.Text.{either_text}
use file_system.Testers.Part3.Program.{
  Stage, begun, timed, compared, returned, is_returned, reader_step, random_string, first_failed,
}

pub on_tester-ok :
    {A : Type 0} (m : Cmd Tester A) (s : Measure) (a : A) (t : Tester)
    → m s.tester ≡ ok a t
    → on_tester m s ≡ ok a (record s { tester = t })
unfolding on_tester
on_tester-ok m s a t e = rw (e, on_tester) refl

pub bind-fault : {S A B : Type 0} {r : Run S A} (k : A → Cmd S B) → r ≡ fault → and_then r k ≡ fault
bind-fault k e = rw e

-- The steps that a reader has left.
unfoldable pub left : Stage → ℕ
left begun = 3
left (timed start) = 2
left (compared start) = 1
left (returned latency) = 0

pub some_left : (p : Stage) → is_returned p ≡ false → 1 ≤ left p
unfolding left is_returned
some_left begun e = omega arith
some_left (timed start) e = omega arith
some_left (compared start) e = omega arith
some_left (returned latency) e = cc

first_failed-from : (creates : ℕ → Bool) (more n : ℕ) → n ≤ first_failed creates more n
unfolding first_failed
first_failed-from creates zero n = omega arith
first_failed-from creates (suc more) n = ground (arith, first_failed-from creates more (suc n))

pub first_failed-above :
    (creates : ℕ → Bool) (r : ℕ)
    → ((n : ℕ) → n ≤ r → creates n ≡ true)
    → (more n : ℕ) → n ≤ r
    → r < n + more
    → r < first_failed creates more n
unfolding first_failed
first_failed-above creates r created zero n le lt = absurd (omega arith)
first_failed-above creates r created (suc more) n le lt = elim (eq_or_ne n r) [
  | inl e ↦ rw (created n le) (omega (arith, e, first_failed-from creates more (suc n)))
  | inr ne ↦
      rw (created n le)
        (first_failed-above creates r created more (suc n) (omega arith) (omega arith))
]

-- The file holds the text, and no error was noted.
pub record Good (id : ℕ) (text : List ℕ) (s : Measure) : Type 0 where
  pub holds : HoldsText id text s.tester.fs
  pub writer_fine : s.err_in_writer ≡ false
  pub reader_fine : s.err_in_reader ≡ false

-- The state with other random numbers taken.
abbrev pub rolled : Measure → ℕ → Measure
rolled s r = record s { tester = record s.tester { rands = r } }

-- The state behind a request.
abbrev pub answered : Measure → InodeLayer → Measure
answered s fs = record s { tester = record s.tester { fs = fs; requests = s.tester.requests + 1 } }

module _ (clock : ℕ → ℕ → ℕ) (random : ℕ → ℕ) where
  pub call_lem :
      {A : Type 0} (request : (ℕ → ℕ) → Cmd InodeLayer A) (s : Measure) (a : A) (fs : InodeLayer)
      → request (clock s.tester.requests) s.tester.fs ≡ ok a fs
      → call clock random request s.tester ≡ ok a (answered s fs).tester
  unfolding call
  call_lem request s a fs e = rw (e, call) refl

module _ (stack : Stack) (stack_bytes : HasBytes stack) (clock : ℕ → ℕ → ℕ) (random : ℕ → ℕ)
    (monotonic : ℕ → ℕ × ℕ) where
  pub random_string_lem :
      (size : ℕ) (heap : Block) (s : Measure)
      → size % 512 ≡ 0
      → 4608 ≤ size
      → size ≤ 65536
      → (text : List ℕ) × (r : ℕ) × (random_string stack clock random monotonic size heap s
          ≡ ok text (rolled s r))
        × IsBlocks text
  unfolding random_string
  random_string_lem size heap s whole long large =
      let (buf, r, e₁, _, _, letters) = fill_lem clock random size 0 heap s.tester in
      let start : 0 + size ≡ size = omega arith in
      let (text, e₂, len, bytes) =
        c_string-letters (update buf size 0) (rolled s r).tester (size + 1) size 0 (omega arith)
          (λ j lo hi. rw (==_of_ne j size (omega arith)) (letters j lo hi))
          (rw start (update_same buf size 0)) in
      (
        text,
        r,
        bind-ok _ (on_tester-ok _ s _ _ e₁) ∙ on_tester-ok _ (rolled s r) _ _ e₂,
        record { bytes = bytes; whole = omega arith; long = omega arith; large = omega arith },
      )

  module _ (id : ℕ) (small : inum_of id < 1024) (str1 str2 : List ℕ) where
    -- What a get that returns the first string leaves.
    read_and_compare-ok :
        (s : Measure) (fs : InodeLayer)
        → Client.get stack id (clock s.tester.requests 0) s.tester.fs ≡ ok (ok_status, str1) fs
        → read_and_compare stack clock random monotonic id str1 str2 s ≡ ok tt (answered s fs)
    read_and_compare-ok s fs e =
        bind-ok _ (
          on_tester-ok _ s _ _
            (call_lem clock random (λ time. Client.get stack id (time 0)) s _ fs e))
        ∙ rw (either_text str1 str2 str1 (inl refl)) refl

    -- The next step of a reader that runs: it ends well, or the reader flows off its end.
    abbrev Next : Stage → Run Measure Stage → Type 0
    Next p r =
        (r ≡ fault)
        ⊎ ((p' : Stage) × (s' : Measure) × (r ≡ ok p' s')
            × Good id str1 s'
            × (is_returned p ≡ false → (is_returned p' ≡ false) × (left p' ≤ left p - 1)))

    pub reader_step-Next :
        (p : Stage) (s : Measure)
        → Good id str1 s
        → Next p (reader_step stack clock random monotonic id str1 str2 p s)
    unfolding reader_step get_usec left is_returned flows_off
    reader_step-Next begun s g = inr (
      _,
      record s { looks = s.looks + 1 },
      refl,
      record { holds = g.holds; writer_fine = g.writer_fine; reader_fine = g.reader_fine },
      λ _. (refl, omega arith),
    )
    reader_step-Next (timed start) s g =
        let (fs, e, holds) =
          get-HoldsText stack stack_bytes id small (clock s.tester.requests 0) str1 s.tester.fs
            g.holds in
        inr (
          compared start,
          answered s fs,
          bind-ok _ (read_and_compare-ok s fs e),
          record { holds = holds; writer_fine = g.writer_fine; reader_fine = g.reader_fine },
          λ _. (refl, omega arith),
        )
    reader_step-Next (compared start) s g = inl refl
    reader_step-Next (returned latency) s g = inr (returned latency, s, refl, g, λ e. cc)
