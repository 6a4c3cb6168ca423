-- ===== src/Testers/Scheduling.antt =====
-- The threads of a test program between pthread_create and pthread_join. What the scheduler decides is a
-- parameter: `schedule n` is the thread whose step is number n.
use file_system.Base.{
  ℕ, zero, suc, ◌+◌, ◌-◌, ◌≤◌, ◌<◌, ◌≡◌, refl, sym, Bool, true, ◌&&◌, ◌==◌, if◌then◌else◌, update,
  ok, fault, out_of_fuel, false, ◌⊎◌, update_same, Cmd, pure, ◌>>=◌, arith, inl, inr, eq_or_ne,
  ==_of_eq, ==_of_ne,
}

-- The first `count` threads have all returned.
unfoldable pub all_over : {Stage : Type 0} → (Stage → Bool) → ℕ → (ℕ → Stage) → Bool
all_over is_over zero stage = true
all_over is_over (suc count) stage = is_over (stage count) && all_over is_over count stage

module _ {S Stage : Type 0} (step : ℕ → Stage → Cmd S Stage) (is_over : Stage → Bool) (count : ℕ)
    (schedule : ℕ → ℕ) where
  -- Steps of the threads until all have returned, on fuel; the result is where they stand then.
  unfoldable pub run_threads : ℕ → ℕ → (ℕ → Stage) → Cmd S (ℕ → Stage)
  unfolding all_over
  run_threads zero n stage = if all_over is_over count stage then pure stage else (λ _. out_of_fuel)
  run_threads (suc fuel) n stage =
      let next = (do
        p ← step (schedule n) (stage (schedule n))
        run_threads fuel (suc n) (update stage (schedule n) p)) in
      if all_over is_over count stage then pure stage else next

  -- That many steps of the threads.
  unfoldable pub run_steps : ℕ → ℕ → (ℕ → Stage) → Cmd S (ℕ → Stage)
  run_steps zero n stage = pure stage
  run_steps (suc steps) n stage = do
    p ← step (schedule n) (stage (schedule n))
    run_steps steps (suc n) (update stage (schedule n) p)

-- How often a schedule picks thread j, in `fuel` steps from step n on.
unfoldable pub picks : (ℕ → ℕ) → ℕ → ℕ → ℕ → ℕ
picks schedule zero n j = 0
picks schedule (suc fuel) n j = (if schedule n == j then 1 else 0) + picks schedule fuel (suc n) j

-- Thread `r` can only end by undefined behaviour, and the steps of the others keep the state good or are
-- undefined behaviour.
module _ {S Stage : Type 0} (step : ℕ → Stage → Cmd S Stage) (is_over : Stage → Bool) (count : ℕ)
    (left : Stage → ℕ) (some_left : (p : Stage) → is_over p ≡ false → 1 ≤ left p)
    (Good : S → Type 0) (r : ℕ) (small : r < count)
    (other : (j : ℕ) (p : Stage) (s : S)
      → Good s
      → (step j p s ≡ fault) ⊎ ((p' : Stage) × (s' : S) × (step j p s ≡ ok p' s') × Good s'))
    (own : (p : Stage) (s : S)
      → Good s
      → is_over p ≡ false
      → (step r p s ≡ fault)
        ⊎ ((p' : Stage) × (s' : S) × (step r p s ≡ ok p' s')
            × Good s'
            × (is_over p' ≡ false)
            × (left p' ≤ left p - 1)))
    (schedule : ℕ → ℕ) where
  all_over-going :
      (k : ℕ) (stage : ℕ → Stage)
      → r < k
      → is_over (stage r) ≡ false
      → all_over is_over k stage ≡ false
  unfolding all_over
  all_over-going zero stage lt going = absurd (omega arith)
  all_over-going (suc k) stage lt going = elim (eq_or_ne r k) [
    | inl e ↦ rw (sym e, going) refl
    | inr ne ↦ rw (all_over-going k stage (omega arith) going) (both_false (is_over (stage k)))
  ]
    where
      both_false : (b : Bool) → (b && false) ≡ false
      both_false true = refl
      both_false false = refl

  -- Once the thread has been picked as often as it has steps left, the run is undefined behaviour.
  pub run_threads-fault :
      (fuel n : ℕ) (stage : ℕ → Stage) (s : S)
      → is_over (stage r) ≡ false
      → left (stage r) ≤ picks schedule fuel n r
      → Good s
      → run_threads step is_over count schedule fuel n stage s ≡ fault
  unfolding run_threads picks
  run_threads-fault zero n stage s going le g = absurd (omega (arith, some_left (stage r) going))
  run_threads-fault (suc fuel) n stage s going le g =
      rw (all_over-going count stage small going) (elim (eq_or_ne (schedule n) r) [
        | inl e ↦ elim (own (stage r) s g going) [
          | inl bad ↦ rw (e, bad) refl
          | inr (p, s', run, g', going', less) ↦
              let old : left (stage r) ≤ 1 + picks schedule fuel (suc n) r =
                rw (==_of_eq (schedule n) r e) at le in
              let here : update stage r p r ≡ p = update_same stage r p in
              rw (e, run)
                (run_threads-fault fuel (suc n) (update stage r p) s' (rw here going')
                  (rw here (omega (arith, old, less))) g')
        ]
        | inr ne ↦ elim (other (schedule n) (stage (schedule n)) s g) [
          | inl bad ↦ rw bad refl
          | inr (p, s', run, g') ↦
              let old : left (stage r) ≤ 0 + picks schedule fuel (suc n) r =
                rw (==_of_ne (schedule n) r ne) at le in
              let there : update stage (schedule n) p r ≡ stage r =
                rw (==_of_ne r (schedule n) (λ e. ne (sym e))) refl in
              rw run (
                run_threads-fault fuel (suc n) (update stage (schedule n) p) s' (rw there going)
                  (rw there (omega (arith, old))) g')
        ]
      ])
