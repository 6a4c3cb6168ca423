-- ===== src/RwLock/Exclusion.antt =====
-- What holds in every reachable state of the lock, and what follows for its users.
use file_system.Base.{
  ℕ, ◌≡◌, ◌≢◌, ◌⊎◌, inl, inr, refl, none, some, arith, ap, update, Option, update_other, subst, ◌∙◌,
  sym, eq_or_ne, update_same, false,
}
use file_system.Base.Int.{pos, increment, decrement, is_positive}
use file_system.RwLock.{
  Counters, reader_waits, writer_waits, reader_entered, writer_arrived, writer_entered, reader_left,
  writer_left,
}
use file_system.RwLock.System.{
  Pc, outside, reader_test, reader_asleep, reading, writer_test, writer_asleep, writing, Action,
  take, keep, release, Move, reader_arrives, reader_sleeps, reader_wakes, reader_enters,
  reader_leaves, writer_arrives, writer_sleeps, writer_wakes, writer_enters, writer_leaves, System,
  Step, Reach, pick, later, start, holder_after,
}

-- Active writers, active readers and waiting writers.
pub record Has (c : Counters) (aw ar ww : ℕ) : Type 0 where
  pub active_writers : c.active_writers ≡ pos aw
  pub active_readers : c.active_readers ≡ pos ar
  pub waiting_writers : c.waiting_writers ≡ pos ww

-- The counters while the holder of the mutex stands there; nobody holds it outside or asleep.
abbrev pub Matches : Counters → Pc → Type 0
Matches c outside = ⊥
Matches c reader_asleep = ⊥
Matches c writer_asleep = ⊥
Matches c reader_test = Has c 0 0 0
Matches c reading = Has c 0 1 0
Matches c writer_test = Has c 0 0 1
Matches c writing = Has c 1 0 0

-- All threads but the holder of the mutex are outside.
pub data Inv (s : System) : Type 0 where
  free : s.holder ≡ none → Has s.counters 0 0 0 → ((j : ℕ) → s.pc j ≡ outside) → Inv s
  held :
      (i : ℕ)
      → s.holder ≡ some i
      → Matches s.counters (s.pc i)
      → ((j : ℕ) → j ≢ i → s.pc j ≡ outside)
      → Inv s

Move-outside :
    {c c' : Counters} {p p' : Pc} {a : Action}
    → Move c p a c' p'
    → p ≡ outside
    → Has c 0 0 0
    → (a ≡ take) × Matches c' p'
unfolding writer_arrived increment
Move-outside reader_arrives e h = (refl, h)
Move-outside writer_arrives e h =
    (refl, ground (arith, h.active_writers, h.active_readers, h.waiting_writers))
Move-outside _ e h = cc

-- From outside a thread can only take the mutex.
Move-take : {c c' : Counters} {p p' : Pc} {a : Action} → Move c p a c' p' → p ≡ outside → a ≡ take
Move-take reader_arrives e = refl
Move-take writer_arrives e = refl
Move-take _ e = cc

Move-held :
    {c c' : Counters} {p p' : Pc} {a : Action}
    → Move c p a c' p'
    → Matches c p
    → ((a ≡ keep) × Matches c' p') ⊎ ((a ≡ release) × (p' ≡ outside) × Has c' 0 0 0)
unfolding reader_waits writer_waits reader_entered writer_entered reader_left writer_left increment
    decrement is_positive
Move-held reader_arrives h = absurd h
Move-held (reader_sleeps w) h = ground arith
Move-held reader_wakes h = absurd h
Move-held (reader_enters w) h = inl (refl, ground arith)
Move-held reader_leaves h = inr (refl, refl, ground arith)
Move-held writer_arrives h = absurd h
Move-held (writer_sleeps w) h = ground arith
Move-held writer_wakes h = absurd h
Move-held (writer_enters w) h = inl (refl, ground arith)
Move-held writer_leaves h = inr (refl, refl, ground arith)

-- Matches holds of the cell that update has written.
Matches-update :
    (c : Counters) (p : Pc) (f : ℕ → Pc) (i : ℕ) → Matches c p → Matches c (update f i p i)
Matches-update c p f i m = subst (Matches c) (sym (update_same f i p)) m

pub none_of_some : {i : ℕ} {h : Option ℕ} → h ≡ some i → h ≡ none → ⊥
none_of_some p q = cc

-- A thread that is not the holder of the mutex is outside, and cannot take it.
Move-blocked :
    {c c' : Counters} {p p' : Pc} {a : Action} {h : Option ℕ} {k : ℕ}
    → Move c p a c' p'
    → p ≡ outside
    → (a ≡ take → h ≡ none)
    → h ≡ some k
    → ⊥
Move-blocked m e free_first h = none_of_some h (free_first (Move-take m e))

Step-Inv : {s t : System} → Step s t → Inv s → Inv t
Step-Inv {s} (pick i {a} {c} {p} m free_first) (free e h out) =
    let moved = Move-outside m (out i) h in
    held i (ap (λ b. holder_after b i s.holder) moved.0) (Matches-update c p s.pc i moved.1)
      (λ j ne. update_other s.pc i p j ne ∙ out j)
Step-Inv {s} (pick i {a} {c} {p} m free_first) (held k e h out) = elim (eq_or_ne i k) [
  | inr ne ↦ absurd (Move-blocked m (out i ne) free_first e)
  | inl same ↦
      let others =
        λ (j : ℕ) (ne : j ≢ i). update_other s.pc i p j ne ∙ out j (λ q. ne (q ∙ sym same)) in
      elim (Move-held m (subst (λ j. Matches s.counters (s.pc j)) (sym same) h)) [
        | inl kept ↦
            held i (ap (λ b. holder_after b i s.holder) kept.0 ∙ e ∙ ap some (sym same))
              (Matches-update c p s.pc i kept.1) others
        | inr freed ↦ free (ap (λ b. holder_after b i s.holder) freed.0) freed.2 (λ j.
            elim (eq_or_ne j i) [
              | inl q ↦ ap (update s.pc i p) q ∙ update_same s.pc i p ∙ freed.1
              | inr ne ↦ others j ne
            ])
      ]
]

pub Reach-Inv : {s : System} → Reach s → Inv s
Reach-Inv start =
    free refl (record { active_writers = refl; active_readers = refl; waiting_writers = refl })
      (λ j. refl)
Reach-Inv (later r s) = Step-Inv s (Reach-Inv r)

-- Between an enter and its exit.
abbrev pub IsInside : Pc → Type 0
IsInside reading = Unit
IsInside writing = Unit
IsInside _ = ⊥

inside_not_outside : {p : Pc} → IsInside p → p ≡ outside → ⊥
inside_not_outside {p} h e = subst IsInside e h

-- A thread that is not outside holds the mutex, and the counters are those of where it stands.
Inv-holder :
    {s : System}
    → Inv s
    → (i : ℕ) → (s.pc i ≡ outside → ⊥)
    → (s.holder ≡ some i) × Matches s.counters (s.pc i)
Inv-holder (free e h out) i inside = absurd (inside (out i))
Inv-holder {s} (held k e h out) i inside = elim (eq_or_ne i k) [
  | inl q ↦ (e ∙ ap some (sym q), subst (λ j. Matches s.counters (s.pc j)) (sym q) h)
  | inr ne ↦ absurd (inside (out i ne))
]

pub some_injective : {i j : ℕ} {h : Option ℕ} → h ≡ some i → h ≡ some j → i ≡ j
some_injective p q = cc

-- In every state that any number of threads can reach in any order of their steps, at most one is
-- between an enter and its exit, whether it reads or writes: readers exclude each other too.
pub exclusive : {s : System} → Reach s → (i j : ℕ) → IsInside (s.pc i) → IsInside (s.pc j) → i ≡ j
exclusive r i j hi hj =
    some_injective (Inv-holder (Reach-Inv r) i (inside_not_outside hi)).0
      (Inv-holder (Reach-Inv r) j (inside_not_outside hj)).0

-- What each place of the program promises: no test finds that its thread must wait, and no thread is
-- asleep.
abbrev pub Passes : Counters → Pc → Type 0
Passes c reader_test = reader_waits c ≡ false
Passes c writer_test = writer_waits c ≡ false
Passes c reader_asleep = ⊥
Passes c writer_asleep = ⊥
Passes c _ = Unit

Matches-Passes : (c : Counters) (p : Pc) → Matches c p → Passes c p
unfolding reader_waits writer_waits is_positive
Matches-Passes c outside h = tt
Matches-Passes c reader_test h = ground (arith, h.active_writers, h.waiting_writers)
Matches-Passes c reader_asleep h = h
Matches-Passes c reading h = tt
Matches-Passes c writer_test h = ground (arith, h.active_writers, h.active_readers)
Matches-Passes c writer_asleep h = h
Matches-Passes c writing h = tt

outside_or_not : (p : Pc) → (p ≡ outside) ⊎ (p ≡ outside → ⊥)
outside_or_not outside = inl refl
outside_or_not reader_test = inr (λ e. cc)
outside_or_not reader_asleep = inr (λ e. cc)
outside_or_not reading = inr (λ e. cc)
outside_or_not writer_test = inr (λ e. cc)
outside_or_not writer_asleep = inr (λ e. cc)
outside_or_not writing = inr (λ e. cc)

-- In every reachable state the tests of both while loops are false for the thread that makes them, and
-- no thread is in pthread_cond_wait: the mutex alone orders the callers.
pub never_waits : {s : System} → Reach s → (i : ℕ) → Passes s.counters (s.pc i)
never_waits {s} r i = elim (outside_or_not (s.pc i)) [
  | inl e ↦ subst (Passes s.counters) (sym e) tt
  | inr ne ↦ Matches-Passes s.counters (s.pc i) (Inv-holder (Reach-Inv r) i ne).1
]
