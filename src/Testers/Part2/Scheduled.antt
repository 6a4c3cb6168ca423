-- ===== src/Testers/Part2/Scheduled.antt =====
-- The threads of part2_tester.cc on a file with an indirect section: what they read, and how they end.
use file_system.Base.{
  ℕ, zero, suc, ◌+◌, ◌-◌, ◌*◌, ◌%◌, ◌≤◌, ◌<◌, ◌≡◌, ◌⊎◌, inl, inr, refl, ◌∙◌, true, false, ◌||◌,
  ◌==◌, List, Run, Cmd, ok, bind-ok, arith, Bool-cases, false, fault, subst, lt→ltb, le→ltb,
}
use file_system.Disk.{Stack}
use file_system.Client
use file_system.Client.LargeText.{IsBlocks, HoldsText, put-HoldsText, get-HoldsText}
use file_system.InodeLayer.{InodeLayer}
use file_system.InodeLayer.Write.Indirect.Whole.{HasBytes}
use file_system.Server.{ok_status, inum_of}
use file_system.Testers.Scheduling.{picks, run_threads-fault}
use file_system.Testers.{call, same_text}
use file_system.Testers.Text.{either_text}
use file_system.Testers.Part2.{
  Shared, Place, calling, checking, finished, Role, writer, reader, on_tester, write_once,
  read_once, step, thread_end, Threads, Reach, start, later,
}
use file_system.Testers.Part2.Program.{is_finished, kind, created, four_threads, rounds}

pub call-ok :
    (clock : ℕ → ℕ → ℕ) (random : ℕ → ℕ) {A : Type 0} (request : (ℕ → ℕ) → Cmd InodeLayer A)
    (s : Shared) (a : A) (fs : InodeLayer)
    → request (clock s.tester.requests) s.tester.fs ≡ ok a fs
    → on_tester (call clock random request) s
      ≡ ok a (record s { tester = record s.tester { fs = fs; requests = s.tester.requests + 1 } })
unfolding call on_tester
call-ok clock random request s a fs e = rw (e, on_tester, call) refl

-- The steps that a thread has left.
unfoldable pub left : Place → ℕ
left (calling k) = 2 * k + 1
left (checking k) = 2 * k + 2
left finished = 0

-- A reader that runs goes on until it flows off its end.
abbrev GoesOn : Role → Place → Place → Type 0
GoesOn writer p p' = Unit
GoesOn reader p p' = is_finished p ≡ false → is_finished p' ≡ false

module _ (stack : Stack) (stack_bytes : HasBytes stack) (clock : ℕ → ℕ → ℕ) (random : ℕ → ℕ)
    (id : ℕ) (small : inum_of id < 1024) (str1 str2 : List ℕ) (blocks1 : IsBlocks str1)
    (blocks2 : IsBlocks str2) where
  -- The file holds one of the strings, and no error was noted.
  pub record Good (s : Shared) : Type 0 where
    pub text : List ℕ
    pub which : (text ≡ str1) ⊎ (text ≡ str2)
    pub holds : HoldsText id text s.tester.fs
    pub writer_fine : s.err_in_writer ≡ false
    pub reader_fine : s.err_in_reader ≡ false

  -- A round that ends well in such a state.
  abbrev Fine : ℕ → Run Shared Place → Type 0
  Fine k r = (s : Shared) × (r ≡ ok (checking k) s) × Good s

  put-Good :
      (s : Shared) (str : List ℕ)
      → (str ≡ str1) ⊎ (str ≡ str2)
      → IsBlocks str
      → Good s
      → (s' : Shared) × (on_tester (call clock random (λ time. Client.put stack id str)) s
          ≡ ok ok_status s')
        × Good s'
  put-Good s str which blocks g =
      let (fs, e, holds) =
        put-HoldsText stack stack_bytes id small g.text str s.tester.fs blocks g.holds in
      (
        record s { tester = record s.tester { fs = fs; requests = s.tester.requests + 1 } },
        call-ok clock random (λ time. Client.put stack id str) s ok_status fs e,
        record {
          text = str;
          which = which;
          holds = holds;
          writer_fine = g.writer_fine;
          reader_fine = g.reader_fine;
        },
      )

  write_once-Good :
      (k : ℕ) (s : Shared) → Good s → Fine k (write_once stack clock random id str1 str2 k s)
  unfolding write_once on_tester
  write_once-Good k s g =
      let s₁ : Shared = record s { tester = record s.tester { rands = s.tester.rands + 1 } } in
      let g₁ : Good s₁ = record {
        text = g.text;
        which = g.which;
        holds = g.holds;
        writer_fine = g.writer_fine;
        reader_fine = g.reader_fine;
      } in
      let (t₁, e₁, d₁) = put-Good s₁ str1 (inl refl) blocks1 g₁ in
      let (t₂, e₂, d₂) = put-Good s₁ str2 (inr refl) blocks2 g₁ in
      elim (Bool-cases (random s.tester.rands % 2 == 0)) [
        | inl even ↦ (t₂, rw even (bind-ok _ e₂), d₂)
        | inr odd ↦ (t₁, rw odd (bind-ok _ e₁), d₁)
      ]

  read_once-Good :
      (k : ℕ) (s : Shared) → Good s → Fine k (read_once stack clock random id str1 str2 k s)
  unfolding read_once
  read_once-Good k s g =
      let (fs, e, holds) =
        get-HoldsText stack stack_bytes id small (clock s.tester.requests 0) g.text s.tester.fs
          g.holds in
      let one : (same_text str1 g.text || same_text str2 g.text) ≡ true =
        either_text str1 str2 g.text g.which in
      (
        record s { tester = record s.tester { fs = fs; requests = s.tester.requests + 1 } },
        bind-ok _ (call-ok clock random (λ time. Client.get stack id (time 0)) s _ fs e)
            ∙ rw one refl,
        record {
          text = g.text;
          which = g.which;
          holds = holds;
          writer_fine = g.writer_fine;
          reader_fine = g.reader_fine;
        },
      )

  -- The next step of a thread: a reader without rounds left flows off its end, and any other step ends well
  -- in such a state.
  abbrev Next : Role → Place → Run Shared Place → Type 0
  Next role p r =
      ((role ≡ reader) × (p ≡ calling 0) × (r ≡ fault))
      ⊎ ((p' : Place) × (s' : Shared) × (r ≡ ok p' s')
          × Good s'
          × GoesOn role p p'
          × (left p' ≤ left p - 1))

  step-Next :
      (role : Role) (p : Place) (s : Shared)
      → Good s
      → Next role p (step stack clock random id str1 str2 role p s)
  unfolding step left thread_end is_finished write_once read_once
  step-Next writer (calling zero) s g = inr (finished, s, refl, g, tt, omega arith)
  step-Next reader (calling zero) s g = inl (refl, refl, refl)
  step-Next writer (calling (suc k)) s g =
      let (s', e, g') = write_once-Good k s g in inr (checking k, s', e, g', tt, omega arith)
  step-Next reader (calling (suc k)) s g =
      let (s', e, g') = read_once-Good k s g in inr (checking k, s', e, g', λ _. refl, omega arith)
  step-Next writer (checking k) s g =
      inr (calling k, s, rw (g.writer_fine, g.reader_fine) refl, g, tt, omega arith)
  step-Next reader (checking k) s g =
      inr (calling k, s, rw (g.writer_fine, g.reader_fine) refl, g, λ _. refl, omega arith)
  step-Next writer finished s g = inr (finished, s, refl, g, tt, omega arith)
  step-Next reader finished s g = inr (finished, s, refl, g, λ e. e, omega arith)

  Reach-Good :
      (role : ℕ → Role) (first : Threads) (n : ℕ) (t : Threads)
      → Good first.shared
      → Reach stack clock random id str1 str2 role first n t
      → Good t.shared
  Reach-Good role first zero t g start = g
  Reach-Good role first (suc n) t g (later {t = before} {p = p₁} {s = s} j r e) =
      let earlier = Reach-Good role first n before g r in
      elim (step-Next (role j) (before.place j) before.shared earlier) [
        | inl (_, _, bad) ↦ cc (bad, e)
        | inr (p, s', e', g', _, _) ↦ let same : s' ≡ s = cc in subst Good same g'
      ]

  -- For local buffers that hold bytes, and two strings of bytes that each fill nine to 128 blocks, as those
  -- of both tests do: from threads whose file holds one of the strings, with its lock idle, room for it to
  -- grow to 128 blocks and no error noted, whatever number of threads write and read, in whatever order
  -- their calls are taken: in every state that they reach, the file holds one of the strings, no error is
  -- noted, and the next step of every thread ends normally, but that of a reader without rounds left, which
  -- flows off the end of its function.
  pub no_error :
      (role : ℕ → Role) (first : Threads) (n : ℕ) (t : Threads)
      → Good first.shared
      → Reach stack clock random id str1 str2 role first n t
      → ((text : List ℕ) × ((text ≡ str1) ⊎ (text ≡ str2)) × HoldsText id text t.shared.tester.fs)
        × (t.shared.err_in_writer ≡ false)
        × (t.shared.err_in_reader ≡ false)
        × ((j : ℕ)
            → ((role j ≡ reader)
                × (t.place j ≡ calling 0)
                × (step stack clock random id str1 str2 (role j) (t.place j) t.shared ≡ fault))
              ⊎ ((p : Place) × (s : Shared) × (step stack clock random id str1 str2
                      (role j)
                      (t.place j)
                      t.shared
                    ≡ ok p s)))
  no_error role first n t g r =
      let now = Reach-Good role first n t g r in
      (
        (now.text, now.which, now.holds),
        now.writer_fine,
        now.reader_fine,
        λ j. elim (step-Next (role j) (t.place j) t.shared now) [
          | inl bad ↦ inl bad
          | inr (p, s, e, _, _, _) ↦ inr (p, s, e)
        ],
      )

  some_left : (p : Place) → is_finished p ≡ false → 1 ≤ left p
  unfolding left is_finished
  some_left (calling k) e = omega arith
  some_left (checking k) e = omega arith
  some_left finished e = cc

  -- Once a reader has taken all its steps, the four threads have run into undefined behaviour.
  pub four_threads-fault :
      (r : ℕ) (schedule : ℕ → ℕ) (fuel : ℕ) (s : Shared)
      → 2 ≤ r
      → r < 4
      → 20001 ≤ picks schedule fuel 0 r
      → Good s
      → four_threads stack clock random schedule fuel id str1 str2 s ≡ fault
  unfolding created left is_finished
  four_threads-fault r schedule fuel s lo lt enough g =
      let role : kind r ≡ reader = rw (le→ltb r 2 lo) refl in
      let place : created (λ j. true) r ≡ calling rounds = rw (lt→ltb r 4 lt) refl in
      run_threads-fault (λ j. step stack clock random id str1 str2 (kind j)) is_finished 4 left
        some_left Good r lt
        (λ j p s g. elim (step-Next (kind j) p s g) [
          | inl (_, _, bad) ↦ inl bad
          | inr (p', s', e, g', _, _) ↦ inr (p', s', e, g')
        ])
        (λ p s g going. rw role (elim (step-Next reader p s g) [
          | inl (_, _, bad) ↦ inl bad
          | inr (p', s', e, g', on, less) ↦ inr (p', s', e, g', on going, less)
        ]))
        schedule fuel 0 (created (λ j. true)) s (rw place refl) (rw place enough) g
