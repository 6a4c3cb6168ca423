-- ===== src/RwLock/Progress.antt =====
-- Whether the threads that use an a4_rwlock of locks.h can go on: each part of a call while the mutex
-- is held is followed by the next.
use file_system.Base.{ℕ, ◌≡◌, refl, sym, subst, none, some, update, update_same}
use file_system.RwLock.{Counters, writer_arrived, reader_left, writer_left}
use file_system.RwLock.System.{
  Pc, outside, reader_test, reader_asleep, reading, writer_test, writer_asleep, writing, Action,
  take, release, Move, reader_arrives, reader_enters, reader_leaves, writer_arrives, writer_enters,
  writer_leaves, System, Reach, pick, later, holder_after,
}
use file_system.RwLock.Exclusion.{
  never_waits, Passes, Matches, Inv, free, held, Reach-Inv, some_injective, none_of_some,
}

-- The state after a step of thread i.
abbrev after : System → ℕ → Action → Counters → Pc → System
after s i a c p = record { counters = c; holder = holder_after a i s.holder; pc = update s.pc i p }

-- Steps that only thread i takes, one after the other.
pub data By (i : ℕ) : System → System → Type 0 where
  rest : {s : System} → By i s s
  and_step :
      {s t : System} {a : Action} {c : Counters} {p : Pc}
      → By i s t
      → Move t.counters (t.pc i) a c p
      → (a ≡ take → t.holder ≡ none)
      → By i s (record { counters = c; holder = holder_after a i t.holder; pc = update t.pc i p })

pub By-Reach : {i : ℕ} {s t : System} → Reach s → By i s t → Reach t
By-Reach r rest = r
By-Reach {i} r (and_step b m g) = later (By-Reach r b) (pick i m g)

-- A step from a place that is known by an equation.
step_at :
    (i : ℕ) {s t : System} {p p' : Pc} {a : Action} {c : Counters}
    → By i s t
    → t.pc i ≡ p
    → Move t.counters p a c p'
    → (a ≡ take → t.holder ≡ none)
    → By i s (after t i a c p')
step_at i {s} {t} {p} {p'} {a} {c} b e m g =
    and_step b (subst (λ q. Move t.counters q a c p') (sym e) m) g

-- Thread i can end its call by itself, and then the mutex is free.
abbrev pub Left : ℕ → System → Type 0
Left i s = (t : System) × By i s t × (t.holder ≡ none) × (t.pc i ≡ outside)

leave_reading : (i : ℕ) {s t : System} → By i s t → t.pc i ≡ reading → Left i s
leave_reading i {s} {t} b e = (
  after t i release (reader_left t.counters) outside,
  step_at i b e reader_leaves (λ q. cc),
  refl,
  update_same t.pc i outside,
)

leave_writing : (i : ℕ) {s t : System} → By i s t → t.pc i ≡ writing → Left i s
leave_writing i {s} {t} b e = (
  after t i release (writer_left t.counters) outside,
  step_at i b e writer_leaves (λ q. cc),
  refl,
  update_same t.pc i outside,
)

leave :
    (i : ℕ) {s : System} (p : Pc)
    → s.pc i ≡ p
    → Matches s.counters p
    → Passes s.counters p
    → Left i s
leave i outside e h w = absurd h
leave i {s} reader_test e h w =
    leave_reading i (step_at i rest e (reader_enters w) (λ q. cc)) (update_same s.pc i reading)
leave i reader_asleep e h w = absurd h
leave i reading e h w = leave_reading i rest e
leave i {s} writer_test e h w =
    leave_writing i (step_at i rest e (writer_enters w) (λ q. cc)) (update_same s.pc i writing)
leave i writer_asleep e h w = absurd h
leave i writing e h w = leave_writing i rest e

Inv-Matches : {s : System} → Inv s → (i : ℕ) → s.holder ≡ some i → Matches s.counters (s.pc i)
Inv-Matches (free e h out) i own = absurd (none_of_some own e)
Inv-Matches {s} (held k e h out) i own =
    subst (λ j. Matches s.counters (s.pc j)) (some_injective e own) h

-- In every reachable state the thread that has the mutex can end its call by its own steps alone, and
-- the mutex is then free: no thread is stuck in an enter or an exit for want of another's signal.
pub holder_leaves : {s : System} → Reach s → (i : ℕ) → s.holder ≡ some i → Left i s
holder_leaves {s} r i own =
    leave i (s.pc i) refl (Inv-Matches (Reach-Inv r) i own) (never_waits r i)

-- Thread j can get in by itself, to read as well as to write.
abbrev pub GetsIn : ℕ → System → Type 0
GetsIn j s =
    ((t : System) × By j s t × (t.pc j ≡ reading)) × ((t : System) × By j s t × (t.pc j ≡ writing))

Inv-outside : {s : System} → Inv s → s.holder ≡ none → (j : ℕ) → s.pc j ≡ outside
Inv-outside (free e h out) own j = out j
Inv-outside (held k e h out) own j = absurd (none_of_some e own)

-- In every reachable state in which the mutex is free, any thread can enter by its own steps alone, to
-- read and to write.
pub free_enters : {s : System} → Reach s → s.holder ≡ none → (j : ℕ) → GetsIn j s
free_enters {s} r own j =
    let start = Inv-outside (Reach-Inv r) own j in
    let reader = step_at j rest start reader_arrives (λ q. own) in
    let writer = step_at j rest start writer_arrives (λ q. own) in
    let reader_at = update_same s.pc j reader_test in
    let writer_at = update_same s.pc j writer_test in
    (
      (
        _,
        step_at j reader reader_at
            (reader_enters
              (subst (Passes s.counters) reader_at (never_waits (By-Reach r reader) j)))
            (λ q. cc),
        update_same (update s.pc j reader_test) j reading,
      ),
      (
        _,
        step_at j writer writer_at
            (writer_enters (
              subst (Passes (writer_arrived s.counters)) writer_at
                (never_waits (By-Reach r writer) j)))
            (λ q. cc),
        update_same (update s.pc j writer_test) j writing,
      ),
    )
